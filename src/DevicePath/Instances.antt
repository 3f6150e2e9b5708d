-- ===== src/DevicePath/Instances.antt =====
-- Paths of several instances (lib/efi/device_path.c): joining two and taking the first off again.
use efi_wrapper.Prelude.{
  ℕ, zero, suc, ◌+◌, ◌<◌, ◌≤◌, ◌≡◌, refl, sym, ap, ◌∙◌, Bool, true, false, ◌&&◌, ◌||◌, ◌==◌, Option,
  some, List, [], ◌∷◌, ◌++◌, length, set, take, drop, arith, append_assoc, length-drop,
}
use efi_wrapper.DevicePath.{
  Bytes, end_type, end_entire, end_instance, efi_device_path_end, uintn_max, overwrite,
  efi_device_path_get_node_length, efi_device_path_is_end_type,
}
use efi_wrapper.DevicePath.Walk.{to_end}
use efi_wrapper.DevicePath.Encoding.{
  Node, AllNodes, encode, nodes_size, length-encode, length-nodes_size, encode-append, head_length,
  drop_head, get_size-encode, to_end_lem,
}
use efi_wrapper.DevicePath.Build.{
  copy_at, to_end_type, instance_to, efi_device_path_instance_append, efi_device_path_instance_next,
}
use efi_wrapper.DevicePath.Append.{
  path_of, overwrite_lem, copy_at_full, encode_prefix, length-encode_nil, length-path_of, take_path,
  dup_path,
}

-- The node that ends an instance.
abbrev pub instance_end : Node
instance_end = record { type = end_type; sub_type = end_instance; payload = [] }

-- No node of the list ends a path or an instance.
abbrev pub NoEnds : List Node → Type 0
NoEnds [] = Unit
NoEnds (n ∷ ns) = ((n.type == end_type) ≡ false) × NoEnds ns

abbrev pub has_instance_end : List Node → Bool
has_instance_end [] = false
has_instance_end (n ∷ ns) =
    (n.type == end_type && n.sub_type == end_instance) || has_instance_end ns

set-append : (xs ys : Bytes) (i v : ℕ) → set (xs ++ ys) (length xs + i) v ≡ xs ++ set ys i v
set-append [] ys i v = ap (λ k. set ys k v) (omega arith)
set-append (x ∷ xs) ys i v =
    ap (λ k. set (x ∷ (xs ++ ys)) k v) {y = suc (length xs + i)} (omega arith)
    ∙ ap (◌∷◌ x) (set-append xs ys i v)

-- The write to the subtype of the node behind the nodes of a list.
set_behind :
    (ns : List Node) (t s v : ℕ) (rest : Bytes)
    → set (encode ns (t ∷ s ∷ rest)) (nodes_size ns + 1) v ≡ encode ns (t ∷ v ∷ rest)
set_behind ns t s v rest =
    ap (λ p. set p (nodes_size ns + 1) v) (encode_prefix ns (t ∷ s ∷ rest))
    ∙ ap (λ k. set (encode ns [] ++ t ∷ s ∷ rest) (k + 1) v) (sym (length-encode_nil ns))
    ∙ set-append (encode ns []) (t ∷ s ∷ rest) 1 v
    ∙ sym (encode_prefix ns (t ∷ v ∷ rest))

to_end_type_lem :
    (ns : List Node) (rest : Bytes) (fuel : ℕ)
    → NoEnds ns
    → efi_device_path_is_end_type (some rest) ≡ true
    → length ns < fuel
    → to_end_type fuel (encode ns rest) ≡ (nodes_size ns, rest)
unfolding to_end_type
to_end_type_lem [] rest zero ok e f = absurd (omega arith)
to_end_type_lem [] rest (suc fuel) ok e f = rw e refl
to_end_type_lem (n ∷ ns) rest zero ok e f = absurd (omega arith)
to_end_type_lem (n ∷ ns) rest (suc fuel) (ok, oks) e f =
    rw
      (
        ok,
        head_length n ns rest,
        drop_head n ns rest,
        to_end_type_lem ns rest fuel oks e (omega arith),
      )
      refl

module _ (mem_allocate : ℕ → Option Bytes) where
  -- Taking the first instance, whose nodes end nothing, off a path of several with well-formed
  -- nodes, with a block of just its size: the result is a path of its nodes alone, the size is
  -- that of this path, and the rest starts at the second instance.
  pub instance_next_path :
      (a b : List Node) (x block : Bytes)
      → AllNodes a
      → AllNodes (a ++ instance_end ∷ b)
      → NoEnds a
      → nodes_size (a ++ instance_end ∷ b) + 4 ≤ uintn_max
      → nodes_size a + 4 ≤ uintn_max
      → mem_allocate (nodes_size a + 4) ≡ some block
      → length block ≡ nodes_size a + 4
      → efi_device_path_instance_next mem_allocate
          (some (encode (a ++ instance_end ∷ b) (efi_device_path_end ++ x)))
          true
        ≡ (some (path_of a), some (nodes_size a + 4), some (encode b (efi_device_path_end ++ x)))
  unfolding efi_device_path_instance_next
  instance_next_path a b x block ok_a ok plain room room_a got size =
      let later = encode b (efi_device_path_end ++ x) in
      let p = encode (a ++ instance_end ∷ b) (efi_device_path_end ++ x) in
      let e : p ≡ encode a (end_type ∷ end_instance ∷ 4 ∷ 0 ∷ later) =
        encode-append a (instance_end ∷ b) (efi_device_path_end ++ x) in
      let enough : length a < suc (length p) = omega (
        arith,
        ap length e,
        length-encode a (end_type ∷ end_instance ∷ 4 ∷ 0 ∷ later),
        length-nodes_size a,
      ) in
      let at_end =
        ap (to_end_type (suc (length p))) e
        ∙ to_end_type_lem a (end_type ∷ end_instance ∷ 4 ∷ 0 ∷ later) (suc (length p)) plain refl
            enough in
      let marked =
        ap (λ q. set q (nodes_size a + 1) end_entire) e
        ∙ set_behind a end_type end_instance end_entire (4 ∷ 0 ∷ later) in
      let (v, _) = get_size-encode (a ++ instance_end ∷ b) x ok room in
      let copied = dup_path mem_allocate a later block ok_a room_a got size in
      rw (at_end, v, marked, copied) refl

  instance_to_of :
      (ret last marked block p q : Bytes) (src ins passed : ℕ)
      → overwrite block (take src p) ≡ ret
      → to_end (suc (length ret)) ret ≡ (passed, last)
      → set ret (passed + 1) end_instance ≡ marked
      → instance_to mem_allocate (some block) src p ins q
        ≡ some (copy_at (passed + efi_device_path_get_node_length (some last)) marked (take ins q))
  instance_to_of ret last marked block p q src ins passed e f g = rw (e, f, g) refl

  instance_to_lem :
      (a b : List Node) (x y block : Bytes)
      → AllNodes a
      → length block ≡ nodes_size a + 4 + (nodes_size b + 4)
      → instance_to mem_allocate
          (some block)
          (nodes_size a + 4)
          (encode a (efi_device_path_end ++ x))
          (nodes_size b + 4)
          (encode b (efi_device_path_end ++ y))
        ≡ some (path_of (a ++ instance_end ∷ b))
  instance_to_lem a b x y block ok size =
      let later = drop (length (path_of a)) block in
      let ret = encode a (efi_device_path_end ++ later) in
      let head = end_type ∷ end_instance ∷ 4 ∷ 0 ∷ [] in
      let over =
        ap (overwrite block) (take_path a x)
        ∙ overwrite_lem block (path_of a) (omega (arith, length-path_of a))
        ∙ ap (λ r. r ++ later) (encode_prefix a efi_device_path_end)
        ∙ append_assoc (encode a []) efi_device_path_end later
        ∙ sym (encode_prefix a (efi_device_path_end ++ later)) in
      let enough : length a < suc (length ret) =
        omega (arith, length-encode a (efi_device_path_end ++ later), length-nodes_size a) in
      let split : encode a (head ++ later) ≡ encode a head ++ later =
        encode_prefix a (head ++ later)
        ∙ sym
            (ap (λ r. r ++ later) (encode_prefix a head) ∙ append_assoc (encode a []) head later) in
      let full = copy_at_full (encode a head) later (encode a (head ++ later)) (path_of b) split (
        omega
          (arith, length-drop (length (path_of a)) block, length-path_of a, length-path_of b)) in
      let offset : nodes_size a + 4 ≡ length (encode a head) =
        omega (arith, length-encode a head) in
      instance_to_of ret (efi_device_path_end ++ later) (encode a (head ++ later)) block
        (encode a (efi_device_path_end ++ x)) (encode b (efi_device_path_end ++ y))
        (nodes_size a + 4) (nodes_size b + 4) (nodes_size a) over
        (to_end_lem a later (suc (length ret)) ok enough)
        (set_behind a end_type end_entire end_instance (4 ∷ 0 ∷ later))
      ∙ ap
          (λ k. some (
            copy_at k (encode a (head ++ later))
              (take (nodes_size b + 4) (encode b (efi_device_path_end ++ y)))))
          offset
      ∙ ap (λ q. some (copy_at (length (encode a head)) (encode a (head ++ later)) q))
          (take_path b y)
      ∙ ap some (
          full
          ∙ ap (λ r. r ++ path_of b) (encode_prefix a head)
          ∙ append_assoc (encode a []) head (path_of b)
          ∙ sym (encode_prefix a (head ++ path_of b))
          ∙ sym (encode-append a (instance_end ∷ b) efi_device_path_end))

  -- Two paths of well-formed nodes joined as instances, in a block of just their size: the nodes
  -- of the first, the end of an instance, and the nodes of the second.
  pub instance_append_path :
      (a b : List Node) (x y block : Bytes)
      → AllNodes a
      → AllNodes b
      → nodes_size a + 4 ≤ uintn_max
      → nodes_size b + 4 ≤ uintn_max
      → mem_allocate (nodes_size a + 4 + (nodes_size b + 4)) ≡ some block
      → length block ≡ nodes_size a + 4 + (nodes_size b + 4)
      → efi_device_path_instance_append mem_allocate
          (some (encode a (efi_device_path_end ++ x)))
          (some (encode b (efi_device_path_end ++ y)))
        ≡ some (path_of (a ++ instance_end ∷ b))
  unfolding efi_device_path_instance_append
  instance_append_path a b x y block ok_a ok_b room_a room_b got size =
      let (v1, s1) = get_size-encode a x ok_a room_a in
      let (v2, s2) = get_size-encode b y ok_b room_b in
      rw (v1, v2, s1, s2, got) (instance_to_lem a b x y block ok_a size)
