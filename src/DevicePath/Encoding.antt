-- ===== src/DevicePath/Encoding.antt =====
-- Device paths as encoded lists of nodes, and the loops of lib/efi/device_path.c on them.
use efi_wrapper.Prelude.{
  ℕ, zero, suc, ◌+◌, ◌-◌, ◌/◌, ◌%◌, ◌<◌, ◌≤◌, ◌≡◌, refl, ap, true, false, ◌&&◌, ◌==◌, some, List,
  [], ◌∷◌, ◌++◌, length, get_or, take, drop, arith, length-append, Bool-cases, inl, inr, ◌∙◌,
}
use efi_wrapper.DevicePath.{
  Bytes, end_type, end_entire, media_type, media_filepath, efi_device_path_end, uintn_max,
  efi_device_path_get_node_length,
}
use efi_wrapper.DevicePath.Walk.{
  last_unit, node_passes, valid_loop, efi_device_path_valid, to_end, efi_device_path_get_size,
}

-- A node without its length field.
pub record Node : Type 0 where
  pub type : ℕ
  pub sub_type : ℕ
  pub payload : Bytes

abbrev pub node_size : Node → ℕ
node_size n = suc (suc (suc (suc (length n.payload))))

-- The bytes of the nodes in front of others.
abbrev pub encode : List Node → Bytes → Bytes
encode [] rest = rest
encode (n ∷ ns) rest =
    n.type ∷ n.sub_type ∷ (node_size n % 256) ∷ (node_size n / 256) ∷ (n.payload ++ encode ns rest)

-- The bytes that the nodes take.
abbrev pub nodes_size : List Node → ℕ
nodes_size [] = 0
nodes_size (n ∷ ns) = node_size n + nodes_size ns

-- The length field holds the size, the node does not end the path, and the text of a file path
-- ends with a zero unit.
pub record IsNode (n : Node) : Type 0 where
  pub size_fits : node_size n < 0x10000
  pub goes_on : (n.type == end_type && n.sub_type == end_entire) ≡ false
  pub terminated :
      (n.type == media_type && n.sub_type == media_filepath) ≡ true
      → last_unit (encode (n ∷ []) []) (node_size n) ≡ 0

abbrev pub AllNodes : List Node → Type 0
AllNodes [] = Unit
AllNodes (n ∷ ns) = IsNode n × AllNodes ns

drop-append : (xs ys : Bytes) → drop (length xs) (xs ++ ys) ≡ ys
drop-append [] ys = refl
drop-append (x ∷ xs) ys = drop-append xs ys

pub take-append : (xs ys : Bytes) → take (length xs) (xs ++ ys) ≡ xs
take-append [] ys = refl
take-append (x ∷ xs) ys = ap (◌∷◌ x) (take-append xs ys)

get_or-append : (xs ys : Bytes) (i : ℕ) → i < length xs → get_or (xs ++ ys) i 0 ≡ get_or xs i 0
get_or-append [] ys i h = absurd (omega arith)
get_or-append (x ∷ xs) ys zero h = refl
get_or-append (x ∷ xs) ys (suc i) h = get_or-append xs ys i (omega arith)

append-nil_of : (xs : Bytes) → xs ++ [] ≡ xs
append-nil_of [] = refl
append-nil_of (x ∷ xs) = ap (◌∷◌ x) (append-nil_of xs)

pub length-encode :
    (ns : List Node) (rest : Bytes) → length (encode ns rest) ≡ nodes_size ns + length rest
length-encode [] rest = omega arith
length-encode (n ∷ ns) rest =
    omega (arith, length-append n.payload (encode ns rest), length-encode ns rest)

pub length-nodes_size : (ns : List Node) → length ns ≤ nodes_size ns
length-nodes_size [] = omega arith
length-nodes_size (n ∷ ns) = omega (arith, length-nodes_size ns)

pub encode-append :
    (a b : List Node) (rest : Bytes) → encode (a ++ b) rest ≡ encode a (encode b rest)
encode-append [] b rest = refl
encode-append (n ∷ a) b rest =
    ap (λ r. n.type ∷ n.sub_type ∷ (node_size n % 256) ∷ (node_size n / 256) ∷ (n.payload ++ r))
      (encode-append a b rest)

pub head_length :
    (n : Node) (ns : List Node) (rest : Bytes)
    → efi_device_path_get_node_length (some (encode (n ∷ ns) rest)) ≡ node_size n
head_length n ns rest = omega arith

pub drop_head :
    (n : Node) (ns : List Node) (rest : Bytes)
    → drop (node_size n) (encode (n ∷ ns) rest) ≡ encode ns rest
drop_head n ns rest = drop-append n.payload (encode ns rest)

last_unit_of :
    (n : Node) (ns : List Node) (rest : Bytes)
    → last_unit (encode (n ∷ ns) rest) (node_size n) ≡ last_unit (encode (n ∷ []) []) (node_size n)
last_unit_of n ns rest =
    let node = n.type ∷ n.sub_type ∷ (node_size n % 256) ∷ (node_size n / 256) ∷ n.payload in
    omega (
      arith,
      get_or-append node (encode ns rest) (node_size n - 2) (omega arith),
      get_or-append node (encode ns rest) (node_size n - 1) (omega arith),
      get_or-append node [] (node_size n - 2) (omega arith),
      get_or-append node [] (node_size n - 1) (omega arith),
    )

-- A well-formed node passes the tests of the loop while there is room.
node_passes_lem :
    (n : Node) (ns : List Node) (rest : Bytes) (size max : ℕ)
    → IsNode n
    → size + node_size n ≤ max - 4
    → max ≤ uintn_max
    → node_passes (encode (n ∷ ns) rest) (node_size n) size max ≡ true
node_passes_lem n ns rest size max ok room h =
    elim (Bool-cases (n.type == media_type && n.sub_type == media_filepath)) [
      | inl e ↦ let z = last_unit_of n ns rest ∙ ok.terminated e in ground (arith, z)
      | inr e ↦ ground arith
    ]

valid_loop_lem :
    (ns : List Node) (rest : Bytes) (fuel size max : ℕ)
    → AllNodes ns
    → length ns < fuel
    → size + nodes_size ns ≤ max - 4
    → max ≤ uintn_max
    → valid_loop fuel (encode ns (efi_device_path_end ++ rest)) size max ≡ true
unfolding valid_loop
valid_loop_lem [] rest zero size max ok f room h = absurd (omega arith)
valid_loop_lem [] rest (suc fuel) size max ok f room h = refl
valid_loop_lem (n ∷ ns) rest zero size max ok f room h = absurd (omega arith)
valid_loop_lem (n ∷ ns) rest (suc fuel) size max (ok, oks) f room h =
    let e = head_length n ns (efi_device_path_end ++ rest) in
    let d = drop_head n ns (efi_device_path_end ++ rest) in
    let p = node_passes_lem n ns (efi_device_path_end ++ rest) size max ok (omega arith) h in
    let again =
      valid_loop_lem ns rest fuel (size + node_size n) max oks (omega arith) (omega arith) h in
    rw (ok.goes_on, e, p, d, again) refl

pub to_end_lem :
    (ns : List Node) (rest : Bytes) (fuel : ℕ)
    → AllNodes ns
    → length ns < fuel
    → to_end fuel (encode ns (efi_device_path_end ++ rest))
      ≡ (nodes_size ns, efi_device_path_end ++ rest)
unfolding to_end
to_end_lem [] rest zero ok f = absurd (omega arith)
to_end_lem [] rest (suc fuel) ok f = refl
to_end_lem (n ∷ ns) rest zero ok f = absurd (omega arith)
to_end_lem (n ∷ ns) rest (suc fuel) (ok, oks) f =
    let e = head_length n ns (efi_device_path_end ++ rest) in
    let d = drop_head n ns (efi_device_path_end ++ rest) in
    let again = to_end_lem ns rest fuel oks (omega arith) in rw (ok.goes_on, e, d, again) refl

-- An encoded path of well-formed nodes whose size fits in 64 bits is valid, whatever stands behind
-- it, and its size is the number of its bytes.
pub get_size-encode :
    (ns : List Node) (rest : Bytes)
    → AllNodes ns
    → nodes_size ns + 4 ≤ uintn_max
    → (efi_device_path_valid (some (encode ns (efi_device_path_end ++ rest))) 0 ≡ true)
      × (efi_device_path_get_size (some (encode ns (efi_device_path_end ++ rest)))
          ≡ nodes_size ns + 4)
unfolding efi_device_path_valid efi_device_path_get_size
get_size-encode ns rest ok room =
    let p = encode ns (efi_device_path_end ++ rest) in
    let enough : length ns < suc (length p) =
      omega (arith, length-encode ns (efi_device_path_end ++ rest), length-nodes_size ns) in
    let v =
      valid_loop_lem ns rest (suc (length p)) 0 uintn_max ok enough (omega arith) (omega arith) in
    let s = to_end_lem ns rest (suc (length p)) ok enough in (v, rw (v, s) refl)
