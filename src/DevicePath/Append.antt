-- ===== src/DevicePath/Append.antt =====
-- What the operations of lib/efi/device_path.c make of encoded paths.
use efi_wrapper.Prelude.{
  ℕ, zero, suc, ◌+◌, ◌-◌, ◌/◌, ◌%◌, ◌≤◌, ◌≡◌, refl, sym, ap, ◌∙◌, false, ◌==◌, Option, some, List,
  [], ◌∷◌, ◌++◌, length, take, drop, arith, append_assoc, append-nil, length-drop,
}
use efi_wrapper.DevicePath.{
  Bytes, efi_device_path_end, uintn_max, overwrite, efi_device_path_get_node_length,
  efi_device_path_is_end,
}
use efi_wrapper.DevicePath.Encoding.{
  Node, IsNode, AllNodes, node_size, encode, nodes_size, take-append, length-encode, encode-append,
  head_length, get_size-encode,
}
use efi_wrapper.DevicePath.Build.{
  copy_at, efi_device_path_dup, append_to, efi_device_path_append, efi_device_path_node_append,
  node_block,
}

-- The bytes of a whole path.
abbrev pub path_of : List Node → Bytes
path_of ns = encode ns efi_device_path_end

pub overwrite_lem :
    (block bytes : Bytes)
    → length bytes ≤ length block
    → overwrite block bytes ≡ bytes ++ drop (length bytes) block
overwrite_lem block [] h = refl
overwrite_lem [] (b ∷ bytes) h = absurd (omega arith)
overwrite_lem (c ∷ block) (b ∷ bytes) h = ap (◌∷◌ b) (overwrite_lem block bytes (omega arith))

drop_all : (bytes : Bytes) (n : ℕ) → length bytes ≤ n → drop n bytes ≡ []
drop_all [] zero h = refl
drop_all [] (suc n) h = refl
drop_all (b ∷ bytes) zero h = absurd (omega arith)
drop_all (b ∷ bytes) (suc n) h = drop_all bytes n (omega arith)

drop-append_of : (xs ys : Bytes) → drop (length xs) (xs ++ ys) ≡ ys
drop-append_of [] ys = refl
drop-append_of (x ∷ xs) ys = drop-append_of xs ys

-- A block filled to its end.
overwrite_full : (block bytes : Bytes) → length block ≡ length bytes → overwrite block bytes ≡ bytes
overwrite_full block bytes h =
    overwrite_lem block bytes (omega arith)
    ∙ rw (drop_all block (length bytes) (omega arith)) (append-nil bytes)

-- Bytes copied behind others.
pub copy_at_behind :
    (xs ys bytes : Bytes) → copy_at (length xs) (xs ++ ys) bytes ≡ xs ++ overwrite ys bytes
copy_at_behind xs ys bytes = rw (take-append xs ys, drop-append_of xs ys) refl

-- Bytes copied behind others, up to the end of the block.
pub copy_at_full :
    (xs ys block bytes : Bytes)
    → block ≡ xs ++ ys
    → length ys ≡ length bytes
    → copy_at (length xs) block bytes ≡ xs ++ bytes
copy_at_full xs ys block bytes e h =
    rw (e, take-append xs ys, drop-append_of xs ys, overwrite_full ys bytes h) refl

pub encode_prefix : (ns : List Node) (rest : Bytes) → encode ns rest ≡ encode ns [] ++ rest
encode_prefix [] rest = refl
encode_prefix (n ∷ ns) rest =
    ap (λ r. n.type ∷ n.sub_type ∷ (node_size n % 256) ∷ (node_size n / 256) ∷ r)
      (ap (λ r. n.payload ++ r) (encode_prefix ns rest)
        ∙ sym (append_assoc n.payload (encode ns []) rest))

pub length-encode_nil : (ns : List Node) → length (encode ns []) ≡ nodes_size ns
length-encode_nil ns = omega (arith, length-encode ns [])

pub length-path_of : (ns : List Node) → length (path_of ns) ≡ nodes_size ns + 4
length-path_of ns = length-encode ns efi_device_path_end

pub take_path :
    (ns : List Node) (rest : Bytes)
    → take (nodes_size ns + 4) (encode ns (efi_device_path_end ++ rest)) ≡ path_of ns
take_path ns rest =
    let e : encode ns (efi_device_path_end ++ rest) ≡ path_of ns ++ rest =
      encode_prefix ns (efi_device_path_end ++ rest)
      ∙ sym (
          ap (λ r. r ++ rest) (encode_prefix ns efi_device_path_end)
          ∙ append_assoc (encode ns []) efi_device_path_end rest) in
    rw (e, sym (length-path_of ns)) (take-append (path_of ns) rest)

module _ (mem_allocate : ℕ → Option Bytes) where
  -- The copy of a path is the path without what stands behind it.
  pub dup_path :
      (ns : List Node) (rest block : Bytes)
      → AllNodes ns
      → nodes_size ns + 4 ≤ uintn_max
      → mem_allocate (nodes_size ns + 4) ≡ some block
      → length block ≡ nodes_size ns + 4
      → efi_device_path_dup mem_allocate (some (encode ns (efi_device_path_end ++ rest)))
        ≡ some (path_of ns)
  unfolding efi_device_path_dup
  dup_path ns rest block ok room got size =
      let (v, s) = get_size-encode ns rest ok room in
      let nonzero : (nodes_size ns + 4 == 0) ≡ false = ground arith in
      rw
        (
          s,
          nonzero,
          got,
          take_path ns rest,
          overwrite_full block (path_of ns) (omega (arith, length-path_of ns)),
        )
        refl

  append_to_lem :
      (a b : List Node) (x y block : Bytes)
      → length block ≡ nodes_size a + nodes_size b + 4
      → append_to mem_allocate
          (some block)
          (nodes_size a + 4)
          (encode a (efi_device_path_end ++ x))
          (nodes_size b + 4)
          (encode b (efi_device_path_end ++ y))
        ≡ some (path_of (a ++ b))
  append_to_lem a b x y block size =
      let first = path_of a in
      let later = drop (length first) block in
      let e : nodes_size a + 4 - 4 ≡ length (encode a []) = omega (arith, length-encode_nil a) in
      let over : overwrite block first ≡ encode a [] ++ (efi_device_path_end ++ later) =
        overwrite_lem block first (omega (arith, length-path_of a))
        ∙ ap (λ r. r ++ later) (encode_prefix a efi_device_path_end)
        ∙ append_assoc (encode a []) efi_device_path_end later in
      let full =
        copy_at_full (encode a []) (efi_device_path_end ++ later) (overwrite block first)
          (path_of b) over
          (omega (arith, length-path_of a, length-path_of b, length-drop (length first) block)) in
      rw (take_path a x, take_path b y, e, full, encode-append a b efi_device_path_end)
        (ap some (sym (encode_prefix a (path_of b))))

  -- Two paths of well-formed nodes, whatever stands behind them, joined in a block of just their
  -- size: the nodes of the first, then those of the second, and one end.
  pub append_path :
      (a b : List Node) (x y block : Bytes)
      → AllNodes a
      → AllNodes b
      → nodes_size a + nodes_size b + 4 ≤ uintn_max
      → mem_allocate (nodes_size a + nodes_size b + 4) ≡ some block
      → length block ≡ nodes_size a + nodes_size b + 4
      → efi_device_path_append mem_allocate
          (some (encode a (efi_device_path_end ++ x)))
          (some (encode b (efi_device_path_end ++ y)))
        ≡ some (path_of (a ++ b))
  unfolding efi_device_path_append
  append_path a b x y block ok_a ok_b room got size =
      let (v1, s1) = get_size-encode a x ok_a (omega arith) in
      let (v2, s2) = get_size-encode b y ok_b (omega arith) in
      let e : nodes_size a + 4 + (nodes_size b + 4) - 4 ≡ nodes_size a + nodes_size b + 4 =
        omega arith in
      rw (v1, v2, s1, s2, e, got) (append_to_lem a b x y block size)

  node_block_of :
      (p buf block : Bytes) (size : ℕ)
      → overwrite block (take size p) ≡ buf
      → efi_device_path_is_end (some buf) ≡ false
      → node_block mem_allocate (some block) size p
        ≡ some (copy_at (efi_device_path_get_node_length (some buf)) buf efi_device_path_end)
  node_block_of p buf block size e goes_on = rw (e, goes_on) refl

  node_block_lem :
      (n : Node) (x block : Bytes)
      → IsNode n
      → length block ≡ node_size n + 4
      → node_block mem_allocate (some block) (node_size n) (encode (n ∷ []) x)
        ≡ some (path_of (n ∷ []))
  node_block_lem n x block ok size =
      let node = encode (n ∷ []) [] in
      let h : length node ≡ node_size n = omega (arith, length-encode_nil (n ∷ [])) in
      let later = drop (length node) block in
      let taken : take (node_size n) (encode (n ∷ []) x) ≡ node =
        ap (take (node_size n)) (encode_prefix (n ∷ []) x)
        ∙ ap (λ k. take k (node ++ x)) (sym h)
        ∙ take-append node x in
      let over : overwrite block node ≡ encode (n ∷ []) later =
        overwrite_lem block node (omega arith) ∙ sym (encode_prefix (n ∷ []) later) in
      let full =
        copy_at_full node later (encode (n ∷ []) later) efi_device_path_end
          (encode_prefix (n ∷ []) later) (omega (arith, length-drop (length node) block)) in
      node_block_of (encode (n ∷ []) x) (encode (n ∷ []) later) block (node_size n)
        (ap (overwrite block) taken ∙ over) ok.goes_on
      ∙ ap (λ k. some (copy_at k (encode (n ∷ []) later) efi_device_path_end))
          (head_length n [] later ∙ sym h)
      ∙ ap some (full ∙ sym (encode_prefix (n ∷ []) efi_device_path_end))

  -- A well-formed node appended to a path of such nodes, where both blocks are got in just the
  -- sizes asked for: the node stands behind the nodes of the path.
  pub node_append_path :
      (a : List Node) (n : Node) (x y block1 block2 : Bytes)
      → AllNodes a
      → IsNode n
      → nodes_size a + node_size n + 4 ≤ uintn_max
      → mem_allocate (node_size n + 4) ≡ some block1
      → length block1 ≡ node_size n + 4
      → mem_allocate (nodes_size a + node_size n + 4) ≡ some block2
      → length block2 ≡ nodes_size a + node_size n + 4
      → efi_device_path_node_append mem_allocate
          (some (encode a (efi_device_path_end ++ x)))
          (some (encode (n ∷ []) y))
        ≡ some (path_of (a ++ n ∷ []))
  unfolding efi_device_path_node_append
  node_append_path a n x y block1 block2 ok_a ok room got1 size1 got2 size2 =
      let e : nodes_size (n ∷ []) ≡ node_size n = omega arith in
      rw (head_length n [] y, got1, node_block_lem n y block1 ok size1)
        (append_path a (n ∷ []) x [] block2 ok_a (ok, tt) (rw e room) (rw e got2) (rw e size2))
