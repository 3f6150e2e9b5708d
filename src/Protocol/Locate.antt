-- ===== src/Protocol/Locate.antt =====
-- efi-wrapper/efi/tables/handles.c: the searches for handles. The buffers are the lists of what is
-- written to them; a size is in bytes, 8 for a handle.
use efi_wrapper.Prelude.{
  ℕ, suc, ◌*◌, ◌/◌, ◌≡◌, refl, Bool, true, false, not, ◌&&◌, ◌||◌, ◌==◌, ltb, Option, none, some,
  List, [], ◌∷◌, length, if◌then◌else◌, arith,
}
use efi_wrapper.Status.{
  EfiStatus, success, not_ready, invalid_parameter, not_found, out_of_resources, buffer_too_small,
  efi_error,
}
use efi_wrapper.Protocol.{InterfaceEntry, Handle, efi_valid_handle, is_some}

-- efi_locate_search_type
pub data SearchType : Type 0 where
  search_all_handles search_by_register_notify search_by_protocol : SearchType
  other_search : ℕ → SearchType

abbrev pub has_guid_entry : ℕ → List InterfaceEntry → Bool
has_guid_entry guid [] = false
has_guid_entry guid (e ∷ entries) = e.guid == guid || has_guid_entry guid entries

-- The handles for which the comparator `cmp` of the search says yes.
unfoldable pub matching : List Handle → (Handle → Bool) → List Handle → List ℕ
matching all cmp [] = []
matching all cmp (x ∷ handles) =
    if is_some (efi_valid_handle x.addr all) && cmp x
    then x.addr ∷ matching all cmp handles
    else matching all cmp handles

-- The comparator, or `none` for arguments that are refused. `key` says whether one is given.
unfoldable pub comparator : SearchType → Option ℕ → Bool → Option (Handle → Bool)
comparator search_all_handles protocol key = some (λ x. true)
comparator search_by_register_notify protocol false = none
comparator search_by_register_notify protocol true = some (λ x. true)
comparator search_by_protocol none key = none
comparator search_by_protocol (some guid) key = some (λ x. has_guid_entry guid x.entries)
comparator (other_search n) protocol key = none

-- The status, `*length`, and what is written to the buffer.
abbrev pub Search : Type 0
Search = EfiStatus × ℕ × List ℕ

abbrev pub search_found : List ℕ → ℕ → Bool → Search
search_found found size has_buffer =
    if length found == 0
    then (not_found, size, [])
    else if ltb size (length found * 8)
    then (buffer_too_small, length found * 8, [])
    else if not has_buffer
    then (invalid_parameter, size, [])
    else (success, length found * 8, found)

abbrev pub search_with : List Handle → Option (Handle → Bool) → ℕ → Bool → Search
search_with handles none size has_buffer = (invalid_parameter, size, [])
search_with handles (some cmp) size has_buffer =
    search_found (matching handles cmp handles) size has_buffer

-- `size` is `none` where `length` is a null pointer.
unfoldable pub efi_locate_handle_impl :
    Bool → List Handle → SearchType → Option ℕ → Bool → Option ℕ → Bool → Search
efi_locate_handle_impl false handles type protocol key size has_buffer = (not_ready, 0, [])
efi_locate_handle_impl true handles type protocol key none has_buffer = (invalid_parameter, 0, [])
efi_locate_handle_impl true handles type protocol key (some size) has_buffer =
    search_with handles (comparator type protocol key) size has_buffer

-- The status, `*handles`, and `*buffer`.
abbrev pub Located : Type 0
Located = EfiStatus × ℕ × Option (List ℕ)

abbrev pub filled : Search → Located
filled (st, size, found) =
    if efi_error st then (st, 0, some found) else (success, size / 8, some found)

abbrev pub sized : Bool → List Handle → SearchType → Option ℕ → Bool → Search → Located
sized mem_ok handles type protocol key (buffer_too_small, size, found) =
    if ltb size 8
    then (invalid_parameter, 0, none)
    else if not mem_ok
    then (out_of_resources, 0, none)
    else filled (efi_locate_handle_impl true handles type protocol key (some size) true)
sized mem_ok handles type protocol key (st, size, found) =
    ((if efi_error st then st else invalid_parameter), 0, none)

-- `has_out` says whether both `handles` and `buffer` are pointers.
unfoldable pub efi_locate_handle_buffer_impl :
    Bool → Bool → List Handle → SearchType → Option ℕ → Bool → Bool → Located
efi_locate_handle_buffer_impl false mem_ok handles type protocol key has_out = (not_ready, 0, none)
efi_locate_handle_buffer_impl true mem_ok handles type protocol key false =
    (invalid_parameter, 0, none)
efi_locate_handle_buffer_impl true mem_ok handles type protocol key true =
    sized mem_ok handles type protocol key
      (efi_locate_handle_impl true handles type protocol key (some 0) false)

abbrev pub guids_of : List InterfaceEntry → List ℕ
guids_of [] = []
guids_of (e ∷ entries) = e.guid ∷ guids_of entries

abbrev pub protocols_of : Bool → Bool → Option Handle → EfiStatus × ℕ × Option (List ℕ)
protocols_of mem_ok has_buffer none = (invalid_parameter, 0, none)
protocols_of mem_ok has_buffer (some x) =
    if not has_buffer
    then (success, length x.entries, none)
    else if mem_ok
    then (success, length x.entries, some (guids_of x.entries))
    else (out_of_resources, length x.entries, none)

unfoldable pub efi_protocols_per_handle_impl :
    Bool → Bool → List Handle → ℕ → Bool → EfiStatus × ℕ × Option (List ℕ)
efi_protocols_per_handle_impl false mem_ok handles h has_buffer = (not_ready, 0, none)
efi_protocols_per_handle_impl true mem_ok handles h has_buffer =
    protocols_of mem_ok has_buffer (efi_valid_handle h handles)

buffer_found :
    (handles : List Handle) (type : SearchType) (protocol : Option ℕ) (key : Bool) (found : List ℕ)
    → ((size : ℕ) (has_buffer : Bool)
        → efi_locate_handle_impl true handles type protocol key (some size) has_buffer
          ≡ search_found found size has_buffer)
    → efi_locate_handle_buffer_impl true true handles type protocol key true
      ≡ (if length found == 0 then (not_found, 0, none) else (success, length found, some found))
unfolding efi_locate_handle_buffer_impl efi_error
buffer_found handles type protocol key [] h = rw (h 0 false) refl
buffer_found handles type protocol key (x ∷ found) h =
    let big : ltb 0 (suc (length found) * 8) ≡ true = ground arith in
    let some_there : (suc (length found) == 0) ≡ false = ground arith in
    let sized_ok : ltb (suc (length found) * 8) 8 ≡ false = ground arith in
    let fits : ltb (suc (length found) * 8) (suc (length found) * 8) ≡ false = ground arith in
    let count : suc (length found) * 8 / 8 ≡ suc (length found) = omega arith in
    rw
      (
        h 0 false,
        some_there,
        big,
        sized_ok,
        h (suc (length found) * 8) true,
        some_there,
        fits,
        count,
      )
      refl

-- With a context and memory, a search whose arguments are accepted fills a new buffer with just
-- the handles that its comparator takes, in the order of the database, and counts them; without
-- such a handle nothing is found.
pub efi_locate_handle_buffer_lem :
    (handles : List Handle) (type : SearchType) (protocol : Option ℕ) (key : Bool)
    (cmp : Handle → Bool)
    → comparator type protocol key ≡ some cmp
    → efi_locate_handle_buffer_impl true true handles type protocol key true ≡ (
        if length (matching handles cmp handles) == 0
        then (not_found, 0, none)
        else (success, length (matching handles cmp handles), some (matching handles cmp handles)))
unfolding efi_locate_handle_impl
efi_locate_handle_buffer_lem handles type protocol key cmp h =
    buffer_found handles type protocol key (matching handles cmp handles)
      (λ size has_buffer. rw h refl)
