-- ===== src/DevicePath.antt =====
-- lib/efi/device_path.c: device paths as bytes. A pointer into a block is the list of the bytes
-- from there to the end of the block, `none` for a null pointer; a read behind the block is taken
-- to give 0.
pub mod Walk
pub mod Encoding
pub mod Build
pub mod Append
pub mod Instances
pub mod MultiInstance
pub mod FilePath
use efi_wrapper.Prelude.{
  ℕ, zero, suc, ◌+◌, ◌-◌, ◌*◌, ◌/◌, ◌%◌, ◌^◌, Bool, true, false, not, ◌&&◌, ◌==◌, ltb, Option, none,
  some, List, [], ◌∷◌, ◌++◌, length, get_or, take, drop, if◌then◌else◌,
}

abbrev pub Bytes : Type 0
Bytes = List ℕ

-- END_DEVICE_PATH_TYPE, END_ENTIRE_DEVICE_PATH_SUBTYPE, END_INSTANCE_DEVICE_PATH_SUBTYPE,
-- MEDIA_DEVICE_PATH and MEDIA_FILEPATH_DP
abbrev pub end_type : ℕ
end_type = 0x7f

abbrev pub end_entire : ℕ
end_entire = 0xff

abbrev pub end_instance : ℕ
end_instance = 0x01

abbrev pub media_type : ℕ
media_type = 0x04

abbrev pub media_filepath : ℕ
media_filepath = 0x04

abbrev pub efi_device_path_end : Bytes
efi_device_path_end = end_type ∷ end_entire ∷ 4 ∷ 0 ∷ []

abbrev pub uintn_max : ℕ
uintn_max = 2 ^ 64 - 1

abbrev pub efi_device_path_get_type : Option Bytes → ℕ
efi_device_path_get_type none = 0
efi_device_path_get_type (some p) = get_or p 0 0

abbrev pub efi_device_path_get_sub_type : Option Bytes → ℕ
efi_device_path_get_sub_type none = 0
efi_device_path_get_sub_type (some p) = get_or p 1 0

abbrev pub efi_device_path_get_node_length : Option Bytes → ℕ
efi_device_path_get_node_length none = 0
efi_device_path_get_node_length (some p) = get_or p 2 0 + 256 * get_or p 3 0

-- The bytes of a block after `bytes` are copied over it.
abbrev pub overwrite : Bytes → Bytes → Bytes
overwrite block [] = block
overwrite [] (b ∷ bytes) = []
overwrite (c ∷ block) (b ∷ bytes) = b ∷ overwrite block bytes

-- The block afterwards and the result.
unfoldable pub efi_device_path_set_node_length : Option Bytes → ℕ → Option Bytes × ℕ
efi_device_path_set_node_length none size = (none, 0)
efi_device_path_set_node_length (some p) size =
    if ltb size 4
    then (some p, 0)
    else (some (take 2 p ++ overwrite (drop 2 p) (size % 256 ∷ size / 256 ∷ [])), size)

abbrev pub efi_device_path_is_end_type : Option Bytes → Bool
efi_device_path_is_end_type none = false
efi_device_path_is_end_type (some p) = efi_device_path_get_type (some p) == end_type

abbrev pub efi_device_path_is_end_sub_type : Option Bytes → Bool
efi_device_path_is_end_sub_type none = false
efi_device_path_is_end_sub_type (some p) = efi_device_path_get_sub_type (some p) == end_entire

abbrev pub efi_device_path_is_end_instance_sub_type : Option Bytes → Bool
efi_device_path_is_end_instance_sub_type none = false
efi_device_path_is_end_instance_sub_type (some p) =
    efi_device_path_get_sub_type (some p) == end_instance

abbrev pub efi_device_path_is_end : Option Bytes → Bool
efi_device_path_is_end p = efi_device_path_is_end_type p && efi_device_path_is_end_sub_type p

abbrev pub efi_device_path_is_end_instance : Option Bytes → Bool
efi_device_path_is_end_instance p =
    efi_device_path_is_end_type p && efi_device_path_is_end_instance_sub_type p

abbrev pub efi_device_path_node_next : Option Bytes → Option Bytes
efi_device_path_node_next none = none
efi_device_path_node_next (some p) =
    if efi_device_path_is_end (some p)
    then none
    else some (drop (efi_device_path_get_node_length (some p)) p)

abbrev pub efi_device_path_add_node_end : Option Bytes → Option Bytes
efi_device_path_add_node_end none = none
efi_device_path_add_node_end (some p) = some (overwrite p efi_device_path_end)
