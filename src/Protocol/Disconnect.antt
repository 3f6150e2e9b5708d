-- ===== src/Protocol/Disconnect.antt =====
-- efi-wrapper/efi/tables/controller.c: disconnecting drivers from
-- controllers. The functions of a driver binding are arguments: they are given the address of the
-- binding, and may do with the context what the services let them.
use efi_wrapper.Prelude.{
  ℕ, zero, suc, Bool, true, false, not, ◌&&◌, ◌||◌, ◌==◌, Option, none, some, List, [], ◌∷◌, ◌++◌,
  length, if◌then◌else◌,
}
use efi_wrapper.Status.{
  EfiStatus, success, not_ready, invalid_parameter, not_found, out_of_resources, device_error,
  efi_error,
}
use efi_wrapper.Event.{Ctx, with_world}
use efi_wrapper.Memory.{Pool, is_freed, mem_free}
use efi_wrapper.Protocol.{
  OpenInfo, InterfaceEntry, Handle, efi_valid_handle, efi_close_protocol_impl,
}
use efi_wrapper.Protocol.Open.{
  Outcome, done, no_fuel, aborts, ◌>>=◌, get_protocol, by_child_controller, by_driver, has_bit,
  is_valid, Opened, open_protocol,
}

-- gEfiDriverBindingProtocolGuid
abbrev pub g_efi_driver_binding_protocol_guid : ℕ
g_efi_driver_binding_protocol_guid = 0x18a031abb4434d1aa5c00c09261e9f71

-- The nested loops over the interfaces of a handle and their opens lists, for a protocol if one is
-- given: the items that a test takes.
abbrev pub taken : (OpenInfo → Bool) → List OpenInfo → List OpenInfo
taken test [] = []
taken test (i ∷ infos) = if test i then i ∷ taken test infos else taken test infos

abbrev pub of_protocol : Option ℕ → InterfaceEntry → Bool
of_protocol none e = true
of_protocol (some guid) e = e.guid == guid

unfoldable pub taken_all : (OpenInfo → Bool) → Option ℕ → List InterfaceEntry → List OpenInfo
taken_all test protocol [] = []
taken_all test protocol (e ∷ entries) =
    if of_protocol protocol e
    then taken test e.open_list ++ taken_all test protocol entries
    else taken_all test protocol entries

abbrev pub is_in : ℕ → List ℕ → Bool
is_in h [] = false
is_in h (k ∷ buffer) = (k == h) || is_in h buffer

-- The second pass: each handle once, in the order in which they are met.
unfoldable pub gathered : (OpenInfo → ℕ) → List ℕ → List OpenInfo → List ℕ
gathered handle buffer [] = buffer
gathered handle buffer (i ∷ infos) =
    gathered handle (if is_in (handle i) buffer then buffer else buffer ++ handle i ∷ []) infos

abbrev pub buffered : Bool → (OpenInfo → ℕ) → List OpenInfo → EfiStatus × List ℕ
buffered mem handle [] = (success, [])
buffered mem handle (i ∷ infos) =
    if mem then (success, gathered handle [] (i ∷ infos)) else (out_of_resources, [])

abbrev pub entries_of : Option Handle → List InterfaceEntry
entries_of none = []
entries_of (some x) = x.entries

-- The status, and the buffer with its count; a buffer of no handles is a null pointer.
unfoldable pub efi_get_drivers : Bool → List InterfaceEntry → Option ℕ → EfiStatus × List ℕ
unfolding taken_all gathered
efi_get_drivers mem entries protocol =
    buffered mem (λ i. i.agent) (taken_all (λ i. has_bit i.attrs by_driver) protocol entries)

unfoldable pub efi_get_controllers : Bool → List InterfaceEntry → ℕ → EfiStatus × List ℕ
unfolding taken_all gathered
efi_get_controllers mem entries driver =
    buffered mem (λ i. i.controller)
      (taken_all (λ i. i.agent == driver && has_bit i.attrs by_child_controller) none entries)

-- For a null pointer mem_free looks at no pool: any stands for it.
abbrev no_pool : Pool
no_pool = record { magic = true; count = 0; used_size = 0; alloc_size = 0; desc = 0; blocks = [] }

-- Whether mem_free of a buffer of handles returns. The buffer of no handles is a null pointer, any
-- other is whole memory of a pool of the context.
unfoldable pub given_back : List ℕ → Bool
given_back [] = is_freed (mem_free (λ d prev next. 0) no_pool 0)
given_back (h ∷ buffer) = true

module _ {W : Type 0} (mem_ok node_ok : Ctx (List Handle × W) → Bool) where
  abbrev pub Answer : Type 0
  Answer = EfiStatus × Ctx (List Handle × W)

  abbrev pub closed : Ctx (List Handle × W) → ℕ → ℕ → Ctx (List Handle × W)
  closed s driver controller =
      let r =
        efi_close_protocol_impl true s.world.0 driver (some g_efi_driver_binding_protocol_guid)
          driver controller in
      with_world (r.1, s.world.1) s

  -- A binding's `stop` is given the controller and the children, `supported` and `start` the
  -- controller.
  module _ (stop : ℕ → ℕ → List ℕ → Ctx (List Handle × W) → EfiStatus × Ctx (List Handle × W)) where
    -- The loop of efi_disconnect_all_drivers, from the last driver to the first.
    abbrev pub disconnect_drivers :
        (ℕ → ℕ → ℕ → Ctx (List Handle × W) → Outcome Answer)
        → ℕ
        → ℕ
        → List ℕ
        → EfiStatus
        → Ctx (List Handle × W)
        → Outcome Answer
    disconnect_drivers disconnect h child [] ret s = done (ret, s)
    disconnect_drivers disconnect h child (driver ∷ buffer) ret s =
        disconnect_drivers disconnect h child buffer ret s >>= (λ (r : Answer).
          disconnect h driver child r.1
          >>= (λ (q : Answer). done ((if efi_error q.0 then r.0 else success), q.1)))

    abbrev pub disconnect_all :
        (ℕ → ℕ → ℕ → Ctx (List Handle × W) → Outcome Answer)
        → ℕ
        → ℕ
        → EfiStatus × List ℕ
        → Ctx (List Handle × W)
        → Outcome Answer
    disconnect_all disconnect h child (st, []) s = done ((if efi_error st then st else success), s)
    disconnect_all disconnect h child (st, driver ∷ buffer) s =
        if efi_error st
        then done (st, s)
        else disconnect_drivers disconnect h child (driver ∷ buffer) not_found s

    unfoldable pub efi_disconnect_all_drivers :
        (ℕ → ℕ → ℕ → Ctx (List Handle × W) → Outcome Answer)
        → Ctx (List Handle × W)
        → ℕ
        → Option ℕ
        → ℕ
        → Outcome Answer
    unfolding efi_get_drivers
    efi_disconnect_all_drivers disconnect s h protocol child =
        disconnect_all disconnect h child
          (efi_get_drivers (mem_ok s) (entries_of (efi_valid_handle h s.world.0)) protocol) s

    -- mem_free(buffer) if no child is given.
    abbrev pub failed : EfiStatus → ℕ → List ℕ → Ctx (List Handle × W) → Outcome Answer
    failed st zero buffer s = if given_back buffer then done (st, s) else aborts
    failed st (suc child) buffer s = done (st, s)

    -- The calls of `stop`: with the children if there are any, then without if no child is given.
    abbrev pub stop_last : ℕ → ℕ → ℕ → List ℕ → ℕ → Answer → Outcome Answer
    stop_last driver controller child buffer bind (st, s) =
        let last = stop bind controller [] s in
        if efi_error st
        then failed device_error child buffer s
        else if not (child == 0)
        then done (success, closed s driver 0)
        else if efi_error last.0
        then failed device_error child buffer last.1
        else done (success, closed last.1 driver 0)

    abbrev pub stop_all : ℕ → ℕ → ℕ → List ℕ → ℕ → Ctx (List Handle × W) → Outcome Answer
    stop_all driver controller child buffer bind s = stop_last driver controller child buffer bind (
        if child == 0 && not (length buffer == 0)
        then stop bind controller buffer s
        else (success, s))

    abbrev pub stop_opened : ℕ → ℕ → ℕ → List ℕ → Opened mem_ok node_ok → Outcome Answer
    stop_opened driver controller child buffer (st, bind, s) =
        if efi_error st
        then failed invalid_parameter child buffer s
        else stop_all driver controller child buffer bind s

    abbrev pub stop_driver :
        (ℕ → Ctx (List Handle × W) → Outcome (Opened mem_ok node_ok))
        → ℕ
        → ℕ
        → ℕ
        → EfiStatus × List ℕ
        → Ctx (List Handle × W)
        → Outcome Answer
    stop_driver opens driver controller child (st, buffer) s =
        if efi_error st
        then done (st, s)
        else opens driver s
          >>= (λ (o : Opened mem_ok node_ok). stop_opened driver controller child buffer o)

    -- The fuel is the depth of the calls. A driver, a controller or a child of 0 is a null pointer.
    unfoldable pub efi_disconnect_controller_impl :
        ℕ → Bool → ℕ → ℕ → ℕ → Ctx (List Handle × W) → Outcome Answer
    unfolding efi_disconnect_all_drivers efi_get_controllers open_protocol given_back
    efi_disconnect_controller_impl zero ready controller driver child s = no_fuel
    efi_disconnect_controller_impl (suc fuel) false controller driver child s = done (not_ready, s)
    efi_disconnect_controller_impl (suc fuel) true controller driver child s =
        let again = efi_disconnect_controller_impl fuel true in
        let opens = λ (d : ℕ) (t : Ctx (List Handle × W)).
          open_protocol mem_ok node_ok again fuel true t d (some g_efi_driver_binding_protocol_guid)
            true d 0 get_protocol in
        if not (is_valid controller s.world.0)
        then done (invalid_parameter, s)
        else if not (child == 0) && not (is_valid child s.world.0)
        then done (invalid_parameter, s)
        else if driver == 0
        then efi_disconnect_all_drivers again s controller none child
        else stop_driver opens driver controller child
            (efi_get_controllers (mem_ok s) (entries_of (efi_valid_handle controller s.world.0))
              driver)
            s

    -- efi_open_protocol_impl with the disconnection of the drivers.
    unfoldable pub efi_open_protocol_impl :
        ℕ
        → Bool
        → Ctx (List Handle × W)
        → ℕ
        → Option ℕ
        → Bool
        → ℕ
        → ℕ
        → ℕ
        → Outcome (Opened mem_ok node_ok)
    unfolding efi_disconnect_controller_impl open_protocol
    efi_open_protocol_impl fuel ready s h protocol has_intf agent controller attrs =
        open_protocol mem_ok node_ok (efi_disconnect_controller_impl fuel true) fuel ready s h
          protocol has_intf agent controller attrs
