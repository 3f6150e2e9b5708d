-- ===== src/Protocol/Uninstall.antt =====
-- efi-wrapper/efi/tables/protocol.c: taking a protocol interface away, and putting another in its
-- place.
use efi_wrapper.Prelude.{
  ℕ, Bool, true, false, ◌||◌, ◌==◌, Option, none, some, List, [], ◌∷◌, length, if◌then◌else◌,
}
use efi_wrapper.Status.{EfiStatus, success, not_found, access_denied, efi_error}
use efi_wrapper.Event.{Ctx}
use efi_wrapper.Protocol.{
  OpenInfo, InterfaceEntry, Handle, Found, efi_valid_handle, efi_get_protocol,
}
use efi_wrapper.Protocol.Install.{Installed, native_interface, efi_install_protocol_interface_impl}
use efi_wrapper.Protocol.Open.{
  Outcome, done, no_fuel, ◌>>=◌, by_handle_protocol, get_protocol, test_protocol, infos_at,
  with_infos,
}
use efi_wrapper.Protocol.Disconnect.{
  Answer, entries_of, efi_disconnect_all_drivers, efi_disconnect_controller_impl,
}
use efi_wrapper.Protocol.Connect.{efi_connect_controller_impl}

-- The openings that an uninstallation means to take away.
abbrev pub is_passive : OpenInfo → Bool
is_passive i = i.attrs == by_handle_protocol || i.attrs == get_protocol || i.attrs == test_protocol

unfoldable pub active : List OpenInfo → List OpenInfo
active [] = []
active (i ∷ infos) = if is_passive i then active infos else i ∷ active infos

abbrev pub starts_passive : List OpenInfo → Bool
starts_passive [] = false
starts_passive (i ∷ infos) = is_passive i

module _ {W : Type 0} (mem_ok node_ok : Ctx (List Handle × W) → Bool)
    (stop : ℕ → ℕ → List ℕ → Ctx (List Handle × W) → EfiStatus × Ctx (List Handle × W)) where
  -- The status, whether the open list of the entry is left with its pointer at a freed item, and
  -- the context.
  abbrev pub Uninstalled : Type 0
  Uninstalled = EfiStatus × Bool × Ctx (List Handle × W)

  -- The loop takes each item out of the interfaces of the handle, to whose list it does not belong:
  -- nothing happens if that list has one item; else the item is unlinked and freed, and the entry's
  -- pointer stays where it was.
  abbrev pub uninstall_rest : ℕ → ℕ → ℕ → InterfaceEntry → Answer mem_ok node_ok → Uninstalled
  uninstall_rest h guid interface e (st, s) =
      let infos = infos_at mem_ok node_ok s h guid in
      if length infos == 0
      then ((if interface == e.interface then success else not_found), false, s)
      else if length (entries_of (efi_valid_handle h s.world.0)) == 1
      then (access_denied, false, s)
      else (access_denied, starts_passive infos, with_infos mem_ok node_ok active h guid s)

  abbrev pub uninstall_found : ℕ → Ctx (List Handle × W) → ℕ → ℕ → ℕ → Found → Outcome Uninstalled
  uninstall_found fuel s h guid interface (st, none) = done (st, false, s)
  uninstall_found fuel s h guid interface (st, some e) =
      if efi_error st
      then done (st, false, s)
      else efi_disconnect_all_drivers mem_ok node_ok stop
          (efi_disconnect_controller_impl mem_ok node_ok stop fuel true) s h (some guid) 0
        >>= (λ (r : Answer mem_ok node_ok). done (uninstall_rest h guid interface e r))

  unfoldable pub efi_uninstall_protocol_interface_impl :
      ℕ → Ctx (List Handle × W) → ℕ → Option ℕ → ℕ → Outcome Uninstalled
  unfolding active
  efi_uninstall_protocol_interface_impl fuel s h none interface =
      done ((efi_get_protocol s.world.0 h none true).0, false, s)
  efi_uninstall_protocol_interface_impl fuel s h (some guid) interface =
      uninstall_found fuel s h guid interface (efi_get_protocol s.world.0 h (some guid) true)

  module _ (supported start : ℕ → ℕ → ℕ → Ctx (List Handle × W) → EfiStatus × Ctx (List Handle × W))
      (call : ℕ → ℕ → ℕ → Ctx (List Handle × W) → Ctx (List Handle × W)) where
    abbrev pub reinstalled : ℕ → ℕ → Option (Installed call node_ok) → Outcome Uninstalled
    reinstalled fuel h none = no_fuel
    reinstalled fuel h (some (st, handle, s)) =
        if efi_error st
        then done (st, false, s)
        else efi_connect_controller_impl mem_ok node_ok stop supported start fuel true h none 0
            false true s
          >>= (λ (r : Answer mem_ok node_ok). done (success, false, r.1))

    abbrev pub after_uninstall : ℕ → ℕ → Option ℕ → ℕ → Uninstalled → Outcome Uninstalled
    after_uninstall fuel h protocol interface (st, dangles, s) =
        if efi_error st
        then done (st, dangles, s)
        else reinstalled fuel h (
            efi_install_protocol_interface_impl call node_ok true fuel none (some (some h)) protocol
              native_interface interface s)

    unfoldable pub efi_reinstall_protocol_interface_impl :
        ℕ → Ctx (List Handle × W) → ℕ → Option ℕ → ℕ → ℕ → Outcome Uninstalled
    unfolding efi_uninstall_protocol_interface_impl efi_connect_controller_impl
    efi_reinstall_protocol_interface_impl fuel s h protocol old_interface new_interface =
        efi_uninstall_protocol_interface_impl fuel s h protocol old_interface
        >>= (λ (r : Uninstalled). after_uninstall fuel h protocol new_interface r)
