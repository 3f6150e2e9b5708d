-- ===== src/DevicePath/FilePath.antt =====
-- The path of a file name (lib/efi/device_path.c, efi_device_path_from_file_str16).
use efi_wrapper.Prelude.{
  ℕ, suc, ◌+◌, ◌-◌, ◌/◌, ◌%◌, ◌≤◌, ◌≡◌, refl, sym, ap, ◌∙◌, false, ltb, Option, none, some, [], ◌∷◌,
  ◌++◌, length, get_or, drop, replicate, arith, append-nil, length-drop, length-replicate,
}
use efi_wrapper.Ustr.{Ustr, ustrlen, ustrsize}
use efi_wrapper.DevicePath.{
  Bytes, media_type, media_filepath, efi_device_path_end, uintn_max, overwrite,
  efi_device_path_set_node_length, efi_device_path_is_end, efi_device_path_get_node_length,
}
use efi_wrapper.DevicePath.Encoding.{Node, IsNode, node_size, encode, nodes_size, head_length}
use efi_wrapper.DevicePath.Build.{
  copy_at, units_bytes, path_room, file_block, file_path, efi_device_path_append,
  efi_device_path_dup, efi_device_path_from_file_str16,
}
use efi_wrapper.DevicePath.Append.{
  path_of, overwrite_lem, encode_prefix, length-encode_nil, dup_path, copy_at_behind,
}

-- The node of a file path.
abbrev pub file_node : Ustr → Node
file_node file = record { type = media_type; sub_type = media_filepath; payload = units_bytes file }

path_room_lem : path_room ≡ 8184
unfolding path_room
path_room_lem = refl

length-units_bytes : (file : Ustr) → length (units_bytes file) ≡ ustrsize (some file)
unfolding ustrsize ustrlen
length-units_bytes [] = refl
length-units_bytes (c ∷ file) = omega (arith, length-units_bytes file)

ends_in_zero :
    (file : Ustr)
    → (2 ≤ length (units_bytes file))
      × (get_or (units_bytes file) (length (units_bytes file) - 2) 0 ≡ 0)
      × (get_or (units_bytes file) (length (units_bytes file) - 1) 0 ≡ 0)
ends_in_zero [] = (omega arith, refl, refl)
ends_in_zero (c ∷ file) =
    let (big, first, second) = ends_in_zero file in
    let n = length (units_bytes file) in
    let e : suc (suc n) - 2 ≡ suc (suc (n - 2)) = omega arith in
    let f : suc (suc n) - 1 ≡ suc (suc (n - 1)) = omega arith in
    (omega arith, rw e first, rw f second)

file_node-IsNode : (file : Ustr) → ustrsize (some file) ≤ 8184 → IsNode (file_node file)
file_node-IsNode file h =
    let (big, first, second) = ends_in_zero file in
    let n = length (units_bytes file) in
    let e : suc (suc (suc (suc n))) - 2 ≡ suc (suc (suc (suc (n - 2)))) = omega arith in
    let f : suc (suc (suc (suc n))) - 1 ≡ suc (suc (suc (suc (n - 1)))) = omega arith in
    record {
      size_fits = omega (arith, length-units_bytes file);
      goes_on = refl;
      terminated = λ _. rw (append-nil (units_bytes file), e, f, first, second) refl;
    }

-- The node in a block of zeros.
block_of :
    (file : Ustr) (rest : Bytes) (size : ℕ)
    → (ltb (4 + size) 4) ≡ false
    → 4 + size ≡ node_size (file_node file)
    → (efi_device_path_set_node_length
        (some (
          copy_at 0
            (copy_at 4 (0 ∷ 0 ∷ 0 ∷ 0 ∷ rest) (units_bytes file))
            (media_type ∷ media_filepath ∷ [])))
        (4 + size)).0
      ≡ some (
          media_type
          ∷ media_filepath
          ∷ (node_size (file_node file) % 256)
          ∷ (node_size (file_node file) / 256)
          ∷ overwrite rest (units_bytes file))
unfolding efi_device_path_set_node_length
block_of file rest size small e = rw (small, e) refl

file_block_lem :
    (file : Ustr)
    → ustrsize (some file) ≤ path_room
    → (rest : Bytes) × (file_block file (ustrsize (some file))
        ≡ some (encode (file_node file ∷ []) rest))
      × (4 ≤ length rest)
file_block_lem file h =
    let size = ustrsize (some file) in
    let zeros : Bytes = replicate (path_room + 4) 0 in
    let ub = units_bytes file in
    let count : 4 + path_room + 4 ≡ suc (suc (suc (suc (path_room + 4)))) = omega arith in
    let small : ltb (4 + size) 4 ≡ false = ground arith in
    let sized : 4 + size ≡ node_size (file_node file) = omega (arith, length-units_bytes file) in
    let all_zeros : replicate (4 + path_room + 4) 0 ≡ 0 ∷ 0 ∷ 0 ∷ 0 ∷ zeros =
      ap (λ (k : ℕ). replicate k 0) count in
    let room : length ub ≤ length zeros =
      omega (arith, length-units_bytes file, length-replicate {A = ℕ} (path_room + 4) 0) in
    (
      drop (length ub) zeros,
      ap
            (λ (z : Bytes).
              (efi_device_path_set_node_length
                (some (copy_at 0 (copy_at 4 z ub) (media_type ∷ media_filepath ∷ [])))
                (4 + size)).0)
            all_zeros
          ∙ block_of file zeros size small sized
          ∙ ap
              (λ b. some (
                media_type
                ∷ media_filepath
                ∷ (node_size (file_node file) % 256)
                ∷ (node_size (file_node file) / 256)
                ∷ b))
              (overwrite_lem zeros ub room),
      omega (
        arith,
        length-drop (length ub) zeros,
        length-units_bytes file,
        length-replicate {A = ℕ} (path_room + 4) 0,
      ),
    )

file_path_of :
    (block : Bytes)
    → efi_device_path_is_end (some block) ≡ false
    → file_path (some block)
      ≡ some (copy_at (efi_device_path_get_node_length (some block)) block efi_device_path_end)
file_path_of block h = rw h refl

file_path_lem :
    (n : Node) (rest : Bytes)
    → IsNode n
    → 4 ≤ length rest
    → (more : Bytes) × (file_path (some (encode (n ∷ []) rest))
        ≡ some (encode (n ∷ []) (efi_device_path_end ++ more)))
file_path_lem n rest ok room =
    let node = encode (n ∷ []) [] in
    let size : length node ≡ node_size n = omega (arith, length-encode_nil (n ∷ [])) in
    let block = encode (n ∷ []) rest in
    (
      drop 4 rest,
      file_path_of block ok.goes_on
          ∙ ap (λ k. some (copy_at k block efi_device_path_end)) (head_length n [] rest ∙ sym size)
          ∙ ap (λ b. some (copy_at (length node) b efi_device_path_end))
              (encode_prefix (n ∷ []) rest)
          ∙ ap some (
              copy_at_behind node rest efi_device_path_end
              ∙ ap (λ b. node ++ b) (overwrite_lem rest efi_device_path_end room)
              ∙ sym (encode_prefix (n ∷ []) (efi_device_path_end ++ drop 4 rest))),
    )

module _ (mem_allocate : ℕ → Option Bytes) where
  append_none :
      (q : Bytes)
      → efi_device_path_append mem_allocate none (some q)
        ≡ efi_device_path_dup mem_allocate (some q)
  unfolding efi_device_path_append efi_device_path_dup
  append_none q = refl

  -- The path of a file name that is not empty and fits in 8184 bytes with its terminator, for no
  -- handle and in a block of just its size, is one file path node with the units of the name and
  -- of its terminator, and an end.
  pub from_file_str16_path :
      (c : ℕ) (file : Ustr) (block : Bytes)
      → ustrsize (some (c ∷ file)) ≤ 8184
      → mem_allocate (nodes_size (file_node (c ∷ file) ∷ []) + 4) ≡ some block
      → length block ≡ nodes_size (file_node (c ∷ file) ∷ []) + 4
      → efi_device_path_from_file_str16 mem_allocate none (some (c ∷ file))
        ≡ some (path_of (file_node (c ∷ file) ∷ []))
  unfolding efi_device_path_from_file_str16
  from_file_str16_path c file block h got size =
      let name = c ∷ file in
      let fits : ltb path_room (ustrsize (some name)) ≡ false = ground (arith, path_room_lem) in
      let ok = file_node-IsNode name h in
      let (rest, made, room) = file_block_lem name (omega (arith, path_room_lem)) in
      let (more, ended) = file_path_lem (file_node name) rest ok room in
      let whole : nodes_size (file_node name ∷ []) + 4 ≤ uintn_max =
        omega (arith, length-units_bytes name) in
      rw (fits, made, ended)
        (append_none (encode (file_node name ∷ []) (efi_device_path_end ++ more))
          ∙ dup_path mem_allocate (file_node name ∷ []) more block (ok, tt) whole got size)
