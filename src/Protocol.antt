-- ===== src/Protocol.antt =====
-- efi-wrapper/efi/handles.c and efi-wrapper/efi/tables/protocol.c: the handle database and the
-- lookups of protocols in it. A handle is known by its address, a guid by its number.
pub mod Locate
pub mod Install
pub mod Entries
pub mod Laws
pub mod Open
pub mod Disconnect
pub mod Connect
pub mod Uninstall
pub mod OpenLaws
pub mod OneHolder
pub mod DriverLaws
use efi_wrapper.Prelude.{
  ℕ, zero, suc, ◌+◌, ◌-◌, ◌*◌, Bool, true, false, not, ◌&&◌, ◌||◌, ◌==◌, ltb, leb, Option, none,
  some, List, [], ◌∷◌, ◌++◌, length, if◌then◌else◌,
}
use efi_wrapper.Status.{
  EfiStatus, success, not_ready, invalid_parameter, not_found, out_of_resources,
}

-- efi_open_proto_info
pub record OpenInfo : Type 0 where
  pub agent : ℕ
  pub controller : ℕ
  pub attrs : ℕ
  pub count : ℕ

-- efi_interface_entry; `interface` is 0 for a null pointer.
pub record InterfaceEntry : Type 0 where
  pub guid : ℕ
  pub interface : ℕ
  pub open_list : List OpenInfo

pub record Handle : Type 0 where
  pub addr : ℕ
  pub entries : List InterfaceEntry

abbrev pub handle_at : ℕ → List Handle → Option Handle
handle_at h [] = none
handle_at h (x ∷ handles) = if h == x.addr then some x else handle_at h handles

-- The handle at an address, if it is a valid one.
unfoldable pub efi_valid_handle : ℕ → List Handle → Option Handle
efi_valid_handle zero handles = none
efi_valid_handle (suc h) handles = handle_at (suc h) handles

unfoldable pub find_entry : ℕ → List InterfaceEntry → Option InterfaceEntry
find_entry guid [] = none
find_entry guid (e ∷ entries) =
    if e.interface == 0
    then find_entry guid entries
    else if guid == e.guid
    then some e
    else find_entry guid entries

abbrev pub Found : Type 0
Found = EfiStatus × Option InterfaceEntry

abbrev pub found : Option InterfaceEntry → Found
found none = (not_found, none)
found (some e) = (success, some e)

abbrev pub found_in : ℕ → Option Handle → Found
found_in guid none = (invalid_parameter, none)
found_in guid (some x) = found (find_entry guid x.entries)

-- `protocol` is `none` for a null pointer.
unfoldable pub efi_get_protocol : List Handle → ℕ → Option ℕ → Bool → Found
efi_get_protocol handles h none has_entry = (invalid_parameter, none)
efi_get_protocol handles h (some guid) has_entry =
    if has_entry then found_in guid (efi_valid_handle h handles) else (invalid_parameter, none)

-- The interface of the first handle that has the protocol.
unfoldable pub locate_first : List Handle → List Handle → ℕ → Option ℕ
locate_first all [] guid = none
locate_first all (x ∷ handles) guid = elim ((efi_get_protocol all x.addr (some guid) true).1) [
  | none ↦ locate_first all handles guid
  | some e ↦ some e.interface
]

abbrev pub located : Option ℕ → EfiStatus × ℕ
located none = (not_found, 0)
located (some interface) = (success, interface)

abbrev pub interface_of : Found → EfiStatus × ℕ
interface_of (st, none) = (st, 0)
interface_of (st, some e) = (st, e.interface)

-- A registration: the protocol and the handles that were collected.
abbrev pub locate_registered : List Handle → ℕ → ℕ → List ℕ → EfiStatus × ℕ
locate_registered handles guid registered [] = (not_found, 0)
locate_registered handles guid registered (h ∷ rest) =
    if not (registered == guid) then (not_found, 0) else elim (efi_valid_handle h handles) [
      | none ↦ (not_found, 0)
      | some x ↦ interface_of (efi_get_protocol handles h (some guid) true)
    ]

-- The status and `*interface`.
unfoldable pub efi_locate_protocol_impl :
    Bool → List Handle → Option ℕ → Option (ℕ × List ℕ) → Bool → EfiStatus × ℕ
unfolding locate_first
efi_locate_protocol_impl false handles protocol registration has_interface = (not_ready, 0)
efi_locate_protocol_impl true handles none registration has_interface = (invalid_parameter, 0)
efi_locate_protocol_impl true handles (some guid) registration false = (invalid_parameter, 0)
efi_locate_protocol_impl true handles (some guid) (some (registered, collected)) true =
    locate_registered handles guid registered collected
efi_locate_protocol_impl true handles (some guid) none true =
    located (locate_first handles handles guid)

abbrev pub update_handle :
    ℕ → (List InterfaceEntry → List InterfaceEntry) → List Handle → List Handle
update_handle h f [] = []
update_handle h f (x ∷ handles) =
    if h == x.addr
    then record { addr = x.addr; entries = f x.entries } ∷ handles
    else x ∷ update_handle h f handles

-- The open list of the entry that efi_get_protocol finds.
abbrev pub update_entry :
    ℕ → (List OpenInfo → List OpenInfo) → List InterfaceEntry → List InterfaceEntry
update_entry guid f [] = []
update_entry guid f (e ∷ entries) =
    if e.interface == 0
    then e ∷ update_entry guid f entries
    else if guid == e.guid
    then record { guid = e.guid; interface = e.interface; open_list = f e.open_list } ∷ entries
    else e ∷ update_entry guid f entries

-- efi_close_protocol_impl: the items that stay open.
unfoldable pub keep_open : ℕ → ℕ → List OpenInfo → List OpenInfo
keep_open agent controller [] = []
keep_open agent controller (i ∷ infos) =
    if i.agent == agent && i.controller == controller
    then keep_open agent controller infos
    else i ∷ keep_open agent controller infos

abbrev pub is_some {ℓ} : {A : Type ℓ} → Option A → Bool
is_some none = false
is_some (some a) = true

abbrev pub close_found : List Handle → ℕ → ℕ → ℕ → ℕ → Found → EfiStatus × List Handle
close_found handles h guid agent controller (st, none) = (st, handles)
close_found handles h guid agent controller (st, some e) =
    if length (keep_open agent controller e.open_list) == length e.open_list
    then (not_found, handles)
    else (success, update_handle h (update_entry guid (keep_open agent controller)) handles)

-- A controller of 0 is a null pointer.
unfoldable pub efi_close_protocol_impl :
    Bool → List Handle → ℕ → Option ℕ → ℕ → ℕ → EfiStatus × List Handle
unfolding keep_open
efi_close_protocol_impl false handles h protocol agent controller = (not_ready, handles)
efi_close_protocol_impl true handles h none agent controller = (invalid_parameter, handles)
efi_close_protocol_impl true handles h (some guid) agent controller =
    if not (is_some (efi_valid_handle h handles)) || not (is_some (efi_valid_handle agent handles))
    then (invalid_parameter, handles)
    else if not (controller == 0) && not (is_some (efi_valid_handle controller handles))
    then (invalid_parameter, handles)
    else close_found handles h guid agent controller (efi_get_protocol handles h (some guid) true)

abbrev pub counted : List OpenInfo → List OpenInfo
counted [] = []
counted (i ∷ infos) = if i.count == 0 then counted infos else i ∷ counted infos

abbrev pub info_found : Bool → Bool → Found → EfiStatus × ℕ × Option (List OpenInfo)
info_found mem_ok has_buffer (st, none) = (st, 0, none)
info_found mem_ok has_buffer (st, some e) =
    let infos = counted e.open_list in
    if not has_buffer
    then (success, length infos, none)
    else if mem_ok
    then (success, length infos, some infos)
    else (out_of_resources, length infos, none)

-- The status, `*count`, and the items of `*buffer` before the zero item at its end.
unfoldable pub efi_open_protocol_information_impl :
    Bool → Bool → List Handle → ℕ → Option ℕ → Bool → EfiStatus × ℕ × Option (List OpenInfo)
efi_open_protocol_information_impl false mem_ok handles h protocol has_buffer = (not_ready, 0, none)
efi_open_protocol_information_impl true mem_ok handles h protocol has_buffer =
    info_found mem_ok has_buffer (efi_get_protocol handles h protocol true)
