-- ===== src/Protocol/DriverLaws.antt =====
-- What disconnecting a driver and taking an interface away come to
-- (efi-wrapper/efi/tables/controller.c and protocol.c).
use mathlib.Core.Path.{fun_ext}
use efi_wrapper.Prelude.{
  ℕ, zero, suc, ◌≡◌, ◌≢◌, refl, ap, ◌∙◌, Bool, true, false, ◌==◌, Option, none, some, List, [],
  if◌then◌else◌, arith, Bool-cases, Option-cases, inl, inr,
}
use efi_wrapper.Status.{EfiStatus, success, invalid_parameter, not_found, efi_error}
use efi_wrapper.Event.{Ctx}
use efi_wrapper.Protocol.{
  InterfaceEntry, Handle, Found, efi_valid_handle, find_entry, efi_get_protocol,
}
use efi_wrapper.Protocol.Open.{
  Outcome, done, ◌>>=◌, get_protocol, Opened, scan, open_scanned, open_found, open_protocol,
}
use efi_wrapper.Protocol.Disconnect.{
  g_efi_driver_binding_protocol_guid, Answer, entries_of, efi_get_drivers, efi_get_controllers,
  efi_disconnect_all_drivers, stop_opened, stop_driver, efi_disconnect_controller_impl,
}
use efi_wrapper.Protocol.Install.{efi_install_protocol_interface_impl}
use efi_wrapper.Protocol.Uninstall.{
  efi_uninstall_protocol_interface_impl, efi_reinstall_protocol_interface_impl,
}

module _ {W : Type 0} (mem_ok node_ok : Ctx (List Handle × W) → Bool) where
  -- Opening a driver's binding does not use the disconnection.
  passive-scanned :
      (f g : ℕ → ℕ → ℕ → Ctx (List Handle × W) → Outcome (EfiStatus × Ctx (List Handle × W)))
      (fuel : ℕ) (s : Ctx (List Handle × W)) (h guid intf agent : ℕ) (r : Option (Bool × Bool))
      → open_scanned mem_ok node_ok f fuel s h guid intf agent 0 get_protocol r
        ≡ open_scanned mem_ok node_ok g fuel s h guid intf agent 0 get_protocol r
  passive-scanned f g fuel s h guid intf agent none = refl
  passive-scanned f g fuel s h guid intf agent (some (driven, excluded)) = refl

  passive-found :
      (f g : ℕ → ℕ → ℕ → Ctx (List Handle × W) → Outcome (EfiStatus × Ctx (List Handle × W)))
      (fuel : ℕ) (s : Ctx (List Handle × W)) (h guid agent : ℕ) (r : Found)
      → open_found mem_ok node_ok f fuel s h guid true agent 0 get_protocol r
        ≡ open_found mem_ok node_ok g fuel s h guid true agent 0 get_protocol r
  passive-found f g fuel s h guid agent (st, none) = refl
  passive-found f g fuel s h guid agent (st, some e) =
      rw
        (passive-scanned f g fuel s h guid e.interface agent
          (scan agent get_protocol false false e.open_list))
        refl

  passive-open :
      (f g : ℕ → ℕ → ℕ → Ctx (List Handle × W) → Outcome (EfiStatus × Ctx (List Handle × W)))
      (fuel : ℕ) (s : Ctx (List Handle × W)) (h guid agent : ℕ)
      → open_protocol mem_ok node_ok f fuel true s h (some guid) true agent 0 get_protocol
        ≡ open_protocol mem_ok node_ok g fuel true s h (some guid) true agent 0 get_protocol
  unfolding open_protocol
  passive-open f g fuel s h guid agent =
      rw (passive-found f g fuel s h guid agent (efi_get_protocol s.world.0 h (some guid) true))
        refl

  module _ (stop : ℕ → ℕ → List ℕ → Ctx (List Handle × W) → EfiStatus × Ctx (List Handle × W)) where
    child-opened :
        (other : ℕ → ℕ → List ℕ → Ctx (List Handle × W) → EfiStatus × Ctx (List Handle × W))
        (driver controller child : ℕ) (buffer : List ℕ) (o : Opened mem_ok node_ok)
        → (child == 0) ≡ false
        → stop_opened mem_ok node_ok stop driver controller child buffer o
          ≡ stop_opened mem_ok node_ok other driver controller child buffer o
    unfolding efi_error
    child-opened other driver controller zero buffer o n = cc
    child-opened other driver controller (suc child) buffer (st, bind, s) n = rw n refl

    child-stop :
        (other : ℕ → ℕ → List ℕ → Ctx (List Handle × W) → EfiStatus × Ctx (List Handle × W))
        (f g : ℕ → ℕ → ℕ → Ctx (List Handle × W) → Outcome (EfiStatus × Ctx (List Handle × W)))
        (fuel driver controller child : ℕ) (r : EfiStatus × List ℕ) (s : Ctx (List Handle × W))
        → (child == 0) ≡ false
        → stop_driver mem_ok node_ok stop
            (λ d t.
              open_protocol mem_ok node_ok f fuel true t d
                (some g_efi_driver_binding_protocol_guid)
                true
                d
                0
                get_protocol)
            driver
            controller
            child
            r
            s
          ≡ stop_driver mem_ok node_ok other
              (λ d t.
                open_protocol mem_ok node_ok g fuel true t d
                  (some g_efi_driver_binding_protocol_guid)
                  true
                  d
                  0
                  get_protocol)
              driver
              controller
              child
              r
              s
    child-stop other f g fuel driver controller child (st, buffer) s n =
        let opened =
          open_protocol mem_ok node_ok g fuel true s driver
            (some g_efi_driver_binding_protocol_guid) true driver 0 get_protocol in
        ap
          (λ (o : Outcome (Opened mem_ok node_ok)).
            if efi_error st
            then done (st, s)
            else o >>= (λ (q : Opened mem_ok node_ok).
              stop_opened mem_ok node_ok stop driver controller child buffer q))
          (passive-open f g fuel s driver g_efi_driver_binding_protocol_guid driver)
        ∙ ap
            (λ (k : Opened mem_ok node_ok → Outcome (Answer mem_ok node_ok)).
              if efi_error st then done (st, s) else opened >>= k)
            (fun_ext (λ o. child-opened other driver controller child buffer o n))

    -- Disconnecting a driver with a child given comes to the same whatever the driver's stop function
    -- does.
    pub efi_disconnect_controller_impl-child :
        (other : ℕ → ℕ → List ℕ → Ctx (List Handle × W) → EfiStatus × Ctx (List Handle × W))
        (fuel controller driver child : ℕ) (s : Ctx (List Handle × W))
        → driver ≢ 0
        → child ≢ 0
        → efi_disconnect_controller_impl mem_ok node_ok stop
            (suc fuel)
            true
            controller
            driver
            child
            s
          ≡ efi_disconnect_controller_impl mem_ok node_ok other
              (suc fuel)
              true
              controller
              driver
              child
              s
    unfolding efi_disconnect_controller_impl
    efi_disconnect_controller_impl-child other fuel controller driver child s dn cn =
        let d0 : (driver == 0) ≡ false = ground (arith, dn) in
        let c0 : (child == 0) ≡ false = ground (arith, cn) in
        rw d0 (
          rw
            (child-stop other (efi_disconnect_controller_impl mem_ok node_ok stop fuel true)
              (efi_disconnect_controller_impl mem_ok node_ok other fuel true) fuel driver controller
              child
              (efi_get_controllers (mem_ok s) (entries_of (efi_valid_handle controller s.world.0))
                driver)
              s c0)
            refl)

    -- For a protocol that a valid handle has with nothing open, uninstalling answers success for
    -- the right interface and `not_found` for another, and either way leaves the database as it was, the
    -- interface included.
    efi_uninstall_protocol_interface_impl_lem :
        (fuel h guid interface : ℕ) (s : Ctx (List Handle × W)) (e : InterfaceEntry)
        → efi_get_protocol s.world.0 h (some guid) true ≡ (success, some e)
        → efi_get_drivers (mem_ok s) (entries_of (efi_valid_handle h s.world.0)) (some guid)
          ≡ (success, [])
        → e.open_list ≡ []
        → efi_uninstall_protocol_interface_impl mem_ok node_ok stop fuel s h (some guid) interface
          ≡ done ((if interface == e.interface then success else not_found), false, s)
    unfolding efi_uninstall_protocol_interface_impl efi_disconnect_all_drivers efi_error
    efi_uninstall_protocol_interface_impl_lem fuel h guid interface s e p d o = rw (p, d, p, o) refl

    found_entry :
        (handles : List Handle) (h guid : ℕ) (e y : InterfaceEntry) (x : Handle)
        → efi_get_protocol handles h (some guid) true ≡ (success, some e)
        → efi_valid_handle h handles ≡ some x
        → find_entry guid x.entries ≡ some y
        → y ≡ e
    unfolding efi_get_protocol
    found_entry handles h guid e y x p at q = ground (arith, p, at, q)

    found_parts :
        (handles : List Handle) (h guid : ℕ) (e : InterfaceEntry)
        → efi_get_protocol handles h (some guid) true ≡ (success, some e)
        → (x : Handle) × (efi_valid_handle h handles ≡ some x)
          × (find_entry guid x.entries ≡ some e)
    unfolding efi_get_protocol
    found_parts handles h guid e p = elim (Option-cases (efi_valid_handle h handles)) [
      | inl n ↦ absurd (ground (arith, p, n))
      | inr (x, at) ↦ elim (Option-cases (find_entry guid x.entries)) [
        | inl n ↦ absurd (ground (arith, p, at, n))
        | inr (y, q) ↦ (x, at, q ∙ ap some (found_entry handles h guid e y x p at q))
      ]
    ]

    -- For a protocol that a valid handle has with nothing open, reinstalling fails for every new
    -- interface and leaves the context as it was: after the uninstallation the handle still has
    -- the protocol, so that the installation is refused.
    pub efi_reinstall_protocol_interface_impl-fails :
        (supported start : ℕ → ℕ → ℕ → Ctx (List Handle × W) → EfiStatus × Ctx (List Handle × W))
        (call : ℕ → ℕ → ℕ → Ctx (List Handle × W) → Ctx (List Handle × W))
        (fuel h guid old_interface new_interface : ℕ) (s : Ctx (List Handle × W))
        (e : InterfaceEntry)
        → efi_get_protocol s.world.0 h (some guid) true ≡ (success, some e)
        → efi_get_drivers (mem_ok s) (entries_of (efi_valid_handle h s.world.0)) (some guid)
          ≡ (success, [])
        → e.open_list ≡ []
        → efi_reinstall_protocol_interface_impl mem_ok node_ok stop supported start call fuel s h
            (some guid)
            old_interface
            new_interface
          ≡ done ((if old_interface == e.interface then invalid_parameter else not_found), false, s)
    unfolding efi_reinstall_protocol_interface_impl efi_install_protocol_interface_impl efi_error
    efi_reinstall_protocol_interface_impl-fails supported start call fuel h guid old_interface
          new_interface s e p d o =
        let (x, at, q) = found_parts s.world.0 h guid e p in
        elim (Bool-cases (old_interface == e.interface)) [
          | inr k ↦
              rw (efi_uninstall_protocol_interface_impl_lem fuel h guid old_interface s e p d o, k)
                refl
          | inl k ↦ elim (Bool-cases (new_interface == 0)) [
            | inl z ↦
                rw
                  (
                    efi_uninstall_protocol_interface_impl_lem fuel h guid old_interface s e p d o,
                    k,
                    z,
                  )
                  refl
            | inr z ↦
                rw
                  (
                    efi_uninstall_protocol_interface_impl_lem fuel h guid old_interface s e p d o,
                    k,
                    z,
                    at,
                    q,
                  )
                  refl
          ]
        ]
