-- ===== src/DevicePath/Walk.antt =====
-- lib/efi/device_path.c: the loops over the nodes of a path, and what they compute on an encoded
-- list of nodes.
use efi_wrapper.Prelude.{
  ℕ, zero, suc, ◌+◌, ◌-◌, ◌*◌, Bool, true, false, not, ◌&&◌, ◌==◌, ltb, Option, none, some, length,
  get_or, drop, if◌then◌else◌,
}
use efi_wrapper.DevicePath.{
  Bytes, media_type, media_filepath, uintn_max, efi_device_path_get_type,
  efi_device_path_get_sub_type, efi_device_path_get_node_length, efi_device_path_is_end,
}

-- The last two bytes of a node, `*(char16*)((uint8_t*)dp+node-2)`.
abbrev pub last_unit : Bytes → ℕ → ℕ
last_unit p node = get_or p (node - 2) 0 + 256 * get_or p (node - 1) 0

abbrev pub is_filepath : Bytes → Bool
is_filepath p =
    efi_device_path_get_type (some p) == media_type
    && efi_device_path_get_sub_type (some p) == media_filepath

-- The tests of the loop's body, in order: whether it goes on.
abbrev pub node_passes : Bytes → ℕ → ℕ → ℕ → Bool
node_passes p node size max =
    if ltb node 4
    then false
    else if ltb (uintn_max - size) node
    then false
    else if ltb (max - 4) (size + node)
    then false
    else if is_filepath p && not (last_unit p node == 0)
    then false
    else true

unfoldable pub valid_loop : ℕ → Bytes → ℕ → ℕ → Bool
valid_loop zero p size max = false
valid_loop (suc fuel) p size max =
    let node = efi_device_path_get_node_length (some p) in
    let rest = valid_loop fuel (drop node p) (size + node) max in
    if efi_device_path_is_end (some p)
    then node == 4
    else if node_passes p node size max
    then rest
    else false

-- Each round that goes on drops at least four bytes, and behind the block the length is 0.
unfoldable pub efi_device_path_valid : Option Bytes → ℕ → Bool
efi_device_path_valid none max = false
efi_device_path_valid (some p) max =
    if ltb 0 max && ltb max 4
    then false
    else valid_loop (suc (length p)) p 0 (if max == 0 then uintn_max else max)

-- `while(!efi_device_path_is_end(dp))dp=efi_device_path_node_next(dp);` with the bytes passed.
unfoldable pub to_end : ℕ → Bytes → ℕ × Bytes
to_end zero p = (0, p)
to_end (suc fuel) p =
    let node = efi_device_path_get_node_length (some p) in
    let (passed, last) = to_end fuel (drop node p) in
    if efi_device_path_is_end (some p) then (0, p) else (node + passed, last)

unfoldable pub efi_device_path_get_size : Option Bytes → ℕ
efi_device_path_get_size none = 0
efi_device_path_get_size (some p) =
    if not (efi_device_path_valid (some p) 0)
    then 0
    else (let (passed, last) = to_end (suc (length p)) p in
        passed + efi_device_path_get_node_length (some last))
