-- ===== src/Examples/Drivers.antt =====
-- The openings of protocols and the drivers (efi-wrapper/efi/tables/protocol.c and controller.c) at a
-- concrete database.
use efi_wrapper.Prelude.{
  ℕ, ◌≤◌, ◌≡◌, refl, true, false, ◌==◌, some, List, [], ◌∷◌, ◌++◌, if◌then◌else◌, arith,
}
use efi_wrapper.Status.{EfiStatus, success, device_error, invalid_parameter, not_found, efi_error}
use efi_wrapper.Event.{Ctx}
use efi_wrapper.Protocol.{Handle, efi_valid_handle, find_entry, efi_get_protocol}
use efi_wrapper.Protocol.Install.{new_entry}
use efi_wrapper.Protocol.Open.{
  done, by_driver, get_protocol, infos_at, new_open, with_infos, scan, accepted, as_unsupported,
  record_open, open_protocol,
}
use efi_wrapper.Protocol.Disconnect.{
  g_efi_driver_binding_protocol_guid, taken_all, gathered, efi_get_drivers, efi_open_protocol_impl,
  efi_disconnect_controller_impl,
}
use efi_wrapper.Protocol.Uninstall.{efi_reinstall_protocol_interface_impl}
use efi_wrapper.Protocol.OpenLaws.{held}
use efi_wrapper.Protocol.OneHolder.{efi_open_protocol_impl-one_holder}
use efi_wrapper.Protocol.DriverLaws.{
  efi_disconnect_controller_impl-child, efi_reinstall_protocol_interface_impl-fails,
}

-- A controller with a protocol, and a driver with its binding.
abbrev handles : List Handle
handles =
    record { addr = 100; entries = new_entry 5 900 ∷ new_entry 6 901 ∷ [] }
    ∷ record { addr = 200; entries = new_entry g_efi_driver_binding_protocol_guid 800 ∷ [] }
    ∷ []

abbrev db : Ctx (List Handle × ℕ)
db = record {
  store = [];
  events = [];
  event_queue = [];
  notifies = [];
  tpl = 4;
  timer = false;
  world = (handles, 0);
}

abbrev fails : ℕ → ℕ → List ℕ → Ctx (List Handle × ℕ) → EfiStatus × Ctx (List Handle × ℕ)
fails bind controller children s = (device_error, s)

abbrev works : ℕ → ℕ → List ℕ → Ctx (List Handle × ℕ) → EfiStatus × Ctx (List Handle × ℕ)
works bind controller children s = (success, s)

abbrev starts : ℕ → ℕ → ℕ → Ctx (List Handle × ℕ) → EfiStatus × Ctx (List Handle × ℕ)
starts bind controller remain s = (success, s)

abbrev opened_db : Ctx (List Handle × ℕ)
opened_db =
    with_infos (λ _. true) (λ _. true) (λ infos. infos ++ new_open 200 100 by_driver ∷ []) 100 5 db

found_five : efi_get_protocol handles 100 (some 5) true ≡ (success, some (new_entry 5 900))
unfolding efi_get_protocol efi_valid_handle find_entry
found_five = refl

opens :
    efi_open_protocol_impl
      (λ _. true)
      (λ _. true)
      works
      4
      true
      db
      100
      (some 5)
      true
      200
      100
      by_driver
    ≡ done (success, 900, opened_db)
unfolding efi_open_protocol_impl open_protocol accepted efi_valid_handle efi_get_protocol find_entry
    as_unsupported efi_error scan record_open
opens = refl

efi_open_protocol_impl-one_holder_example :
    held (infos_at (λ _. true) (λ _. true) opened_db 100 5) ≤ 1
efi_open_protocol_impl-one_holder_example =
    efi_open_protocol_impl-one_holder (λ _. true) (λ _. true) works 4 db 100 5 (new_entry 5 900)
      true 200 100 by_driver success 900 opened_db found_five (omega arith) (λ h. refl) opens

efi_disconnect_controller_impl-child_example :
    efi_disconnect_controller_impl (λ _. true) (λ _. true) works 4 true 100 200 200 opened_db
    ≡ efi_disconnect_controller_impl (λ _. true) (λ _. true) fails 4 true 100 200 200 opened_db
efi_disconnect_controller_impl-child_example =
    efi_disconnect_controller_impl-child (λ _. true) (λ _. true) works fails 3 100 200 200 opened_db
      (omega arith) (omega arith)

abbrev bound_db : Ctx (List Handle × ℕ)
bound_db =
    with_infos (λ _. true) (λ _. true) (λ infos. infos ++ new_open 200 0 get_protocol ∷ []) 200
      g_efi_driver_binding_protocol_guid db

efi_reinstall_protocol_interface_impl-fails_example :
    efi_reinstall_protocol_interface_impl
      (λ _. true)
      (λ _. true)
      works
      starts
      starts
      (λ f a c s. s)
      4
      db
      100
      (some 5)
      900
      902
    ≡ done ((if 900 == 900 then invalid_parameter else not_found), false, db)
unfolding efi_valid_handle efi_get_drivers taken_all gathered
efi_reinstall_protocol_interface_impl-fails_example =
    efi_reinstall_protocol_interface_impl-fails (λ _. true) (λ _. true) works starts starts
      (λ f a c s. s) 4 100 5 900 902 db (new_entry 5 900) found_five refl refl
