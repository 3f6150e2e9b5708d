-- ===== src/Variable.antt =====
-- efi-wrapper/efi/tables/variable.c: the variable services. The store is `efi_current_ctx->vars`;
-- `ready` says whether there is a current context, and the outcomes of the calls of
-- `mem_allocate` are arguments.
pub mod Store
pub mod Laws
pub mod Services
pub mod Invariant
use efi_wrapper.Prelude.{
  ℕ, zero, suc, ◌+◌, ◌-◌, ◌^◌, Bool, true, false, not, ◌&&◌, ◌||◌, ◌==◌, ltb, leb, Option, none,
  some, List, [], ◌∷◌, ◌++◌, length, bit_and, if◌then◌else◌,
}
use efi_wrapper.Status.{
  EfiStatus, success, not_ready, invalid_parameter, not_found, device_error, buffer_too_small,
  out_of_resources, unsupported,
}
use efi_wrapper.Ustr.{Ustr}
use efi_wrapper.Variable.Store.{Variable, find, replace_first, remove_first}

-- The status, what is written to `*data_size`, and the bytes copied to `data`.
abbrev pub Got : Type 0
Got = EfiStatus × Option ℕ × Option (List ℕ)

unfoldable pub get_found : Option Variable → ℕ → Bool → Got
get_found none size has_data = (not_found, none, none)
get_found (some v) size has_data =
    if length v.bytes == 0
    then (device_error, none, none)
    else if ltb size (length v.bytes)
    then (buffer_too_small, some (length v.bytes), none)
    else if not has_data
    then (invalid_parameter, none, none)
    else (success, none, some v.bytes)

-- `name`, `guid` and `size` are `none` for a null pointer. The attributes are not returned.
unfoldable pub efi_get_var_impl :
    Bool → List Variable → Option Ustr → Option ℕ → Option ℕ → Bool → Got
unfolding get_found
efi_get_var_impl false vars name guid size has_data = (not_ready, none, none)
efi_get_var_impl true vars (some name) (some guid) (some size) has_data =
    get_found (find name guid vars) size has_data
efi_get_var_impl true vars _ _ _ has_data = (invalid_parameter, none, none)

-- Whether the allocations of the data, of the name, and of the list item succeed.
pub record Memory : Type 0 where
  pub data_ok : Bool
  pub name_ok : Bool
  pub item_ok : Bool

abbrev pub item : ℕ → Ustr → ℕ → List ℕ → Variable
item guid name attrs bytes = record { guid = guid; name = name; attrs = attrs; bytes = bytes }

-- The store when the bytes of the new value, if any, are allocated, by what the search found. A
-- failure to allocate the list item is not noticed.
unfoldable pub store_found :
    Memory → List Variable → Ustr → ℕ → ℕ → List ℕ → Option Variable → EfiStatus × List Variable
store_found m vars name guid attrs [] none = (not_found, vars)
store_found m vars name guid attrs [] (some v) = (success, remove_first name guid vars)
store_found m vars name guid attrs (b ∷ bytes) none =
    if not m.name_ok
    then (out_of_resources, vars)
    else if not m.item_ok
    then (success, vars)
    else (success, vars ++ item guid name attrs (b ∷ bytes) ∷ [])
store_found m vars name guid attrs (b ∷ bytes) (some v) =
    (success, replace_first name guid (item guid v.name attrs (b ∷ bytes)) vars)

unfoldable pub store_value :
    Memory → List Variable → Ustr → ℕ → ℕ → List ℕ → EfiStatus × List Variable
unfolding store_found
store_value m vars name guid attrs bytes =
    store_found m vars name guid attrs bytes (find name guid vars)

-- `data` is `none` for a null pointer, else the first `data_size` bytes there.
unfoldable pub efi_set_var_impl :
    Bool
    → Memory
    → List Variable
    → Option Ustr
    → Option ℕ
    → ℕ
    → Option (List ℕ)
    → EfiStatus × List Variable
unfolding store_value
efi_set_var_impl false m vars name guid attrs value = (not_ready, vars)
efi_set_var_impl true m vars (some (c ∷ name)) (some guid) attrs none =
    store_value m vars (c ∷ name) guid attrs []
efi_set_var_impl true m vars (some (c ∷ name)) (some guid) attrs (some []) =
    store_value m vars (c ∷ name) guid attrs []
efi_set_var_impl true m vars (some (c ∷ name)) (some guid) attrs (some (b ∷ bytes)) =
    if m.data_ok
    then store_value m vars (c ∷ name) guid attrs (b ∷ bytes)
    else (out_of_resources, vars)
efi_set_var_impl true m vars name guid attrs value = (invalid_parameter, vars)

unfoldable pub efi_get_next_var_name_impl : Bool → EfiStatus
efi_get_next_var_name_impl ready = if ready then unsupported else not_ready

-- The bits of `attrs`; the maxima are UINT64_MAX where the pointers are given.
unfoldable pub efi_query_var_info_impl : ℕ → EfiStatus × Option ℕ
efi_query_var_info_impl attrs =
    if not (bit_and attrs 0x10 == 0)
    then (unsupported, none)
    else if bit_and attrs 0x6f == 0
    then (unsupported, none)
    else if bit_and attrs 0x6 == 0x4
    then (invalid_parameter, none)
    else if bit_and attrs 0x9 == 0x8
    then (invalid_parameter, none)
    else if not (bit_and attrs 0x20 == 0)
    then (unsupported, none)
    else if not (bit_and attrs 0x8 == 0)
    then (unsupported, none)
    else (success, some (2 ^ 64 - 1))
