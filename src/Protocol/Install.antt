-- ===== src/Protocol/Install.antt =====
-- efi-wrapper/efi/handles.c and efi-wrapper/efi/tables/protocol.c: new handles and new protocol
-- interfaces. The handle database is a part of the world of the event services, so that the
-- notification functions of the events that an installation signals can use it.
use efi_wrapper.Prelude.{
  ℕ, zero, suc, Bool, true, false, not, ◌&&◌, ◌||◌, ◌==◌, Option, none, some, List, [], ◌∷◌, ◌++◌,
  get_elem?, set, if◌then◌else◌,
}
use efi_wrapper.Status.{EfiStatus, success, not_ready, invalid_parameter, out_of_resources}
use efi_wrapper.Event.{Notify, Ctx, update, with_signaled, with_store, with_world}
use efi_wrapper.Event.Services.{efi_signal_event_impl}
use efi_wrapper.Protocol.{InterfaceEntry, Handle, efi_valid_handle, find_entry, update_handle}

abbrev pub collect : ℕ → Notify → Notify
collect h n = record { protocol = n.protocol; event = n.event; handles = n.handles ++ h ∷ [] }

-- efi_native_interface
abbrev pub native_interface : ℕ
native_interface = 0

abbrev pub new_entry : ℕ → ℕ → InterfaceEntry
new_entry guid interface = record { guid = guid; interface = interface; open_list = [] }

module _ {W : Type 0} (call : ℕ → ℕ → ℕ → Ctx (List Handle × W) → Ctx (List Handle × W))
    (node_ok : Ctx (List Handle × W) → Bool) where
  abbrev pub handles_of : Ctx (List Handle × W) → List Handle
  handles_of ctx = ctx.world.0

  abbrev pub with_handles : List Handle → Ctx (List Handle × W) → Ctx (List Handle × W)
  with_handles handles ctx = with_world (handles, ctx.world.1) ctx

  abbrev pub with_notifies : List Notify → Ctx (List Handle × W) → Ctx (List Handle × W)
  with_notifies notifies ctx = record {
    store = ctx.store;
    events = ctx.events;
    event_queue = ctx.event_queue;
    notifies = notifies;
    tpl = ctx.tpl;
    timer = ctx.timer;
    world = ctx.world;
  }

  -- The allocator's address for the handle, if it has memory; without a list node the handle is
  -- given back.
  unfoldable pub efi_new_handle :
      Option ℕ → Ctx (List Handle × W) → Option ℕ × Ctx (List Handle × W)
  efi_new_handle none ctx = (none, ctx)
  efi_new_handle (some a) ctx =
      if node_ok ctx
      then (some a, with_handles (handles_of ctx ++ record { addr = a; entries = [] } ∷ []) ctx)
      else (none, ctx)

  abbrev pub after_signal :
      (Ctx (List Handle × W) → Option (Ctx (List Handle × W)))
      → Option (EfiStatus × Ctx (List Handle × W))
      → Option (Ctx (List Handle × W))
  after_signal again none = none
  after_signal again (some (st, ctx)) = again ctx

  -- The body of the loop at a registration: the handle is collected and the event is signaled
  -- anew.
  abbrev pub notify_step :
      (Ctx (List Handle × W) → Option (Ctx (List Handle × W)))
      → ℕ
      → ℕ
      → ℕ
      → ℕ
      → Ctx (List Handle × W)
      → Option Notify
      → Option (Ctx (List Handle × W))
  notify_step again fuel i guid h ctx none = some ctx
  notify_step again fuel i guid h ctx (some n) =
      let collected =
        if node_ok ctx then with_notifies (set ctx.notifies i (collect h n)) ctx else ctx in
      let cleared = with_store (update n.event (with_signaled false) collected.store) collected in
      if n.protocol == guid && not (n.event == 0)
      then after_signal again (efi_signal_event_impl call node_ok true fuel n.event cleared)
      else again ctx

  -- The loop over the registrations from a place on; their list only grows at its end meanwhile.
  unfoldable pub notify_loop :
      ℕ → ℕ → ℕ → ℕ → Ctx (List Handle × W) → Option (Ctx (List Handle × W))
  notify_loop zero i guid h ctx = none
  notify_loop (suc fuel) i guid h ctx =
      notify_step (notify_loop fuel (suc i) guid h) fuel i guid h ctx (get_elem? ctx.notifies i)

  -- The status, `*handle`, and the context.
  abbrev pub Installed : Type 0
  Installed = EfiStatus × Option ℕ × Ctx (List Handle × W)

  abbrev pub installed_with : ℕ → Option (Ctx (List Handle × W)) → Option Installed
  installed_with h none = none
  installed_with h (some ctx) = some (success, some h, ctx)

  abbrev pub install_entry :
      ℕ → ℕ → ℕ → ℕ → Ctx (List Handle × W) → Option InterfaceEntry → Option Installed
  install_entry fuel h guid interface ctx (some e) = some (invalid_parameter, some h, ctx)
  install_entry fuel h guid interface ctx none =
      if node_ok ctx
      then installed_with h (
          notify_loop fuel 0 guid h (
            with_handles
              (update_handle h (λ entries. entries ++ new_entry guid interface ∷ [])
                (handles_of ctx))
              ctx))
      else some (out_of_resources, some h, ctx)

  abbrev pub install_found :
      ℕ → ℕ → ℕ → ℕ → Option Handle → Ctx (List Handle × W) → Option Installed
  install_found fuel h guid interface none ctx = some (invalid_parameter, some h, ctx)
  install_found fuel h guid interface (some x) ctx =
      install_entry fuel h guid interface ctx (find_entry guid x.entries)

  abbrev pub install_at : ℕ → ℕ → ℕ → Option ℕ × Ctx (List Handle × W) → Option Installed
  install_at fuel guid interface (none, ctx) = some (out_of_resources, none, ctx)
  install_at fuel guid interface (some h, ctx) =
      install_found fuel h guid interface (efi_valid_handle h (handles_of ctx)) ctx

  -- `handle` is `none` for a null pointer, else `*handle`, which is `none` if no handle is given;
  -- `address` is what the allocator has for a new handle. An interface of 0 is a null pointer.
  unfoldable pub efi_install_protocol_interface_impl :
      Bool
      → ℕ
      → Option ℕ
      → Option (Option ℕ)
      → Option ℕ
      → ℕ
      → ℕ
      → Ctx (List Handle × W)
      → Option Installed
  efi_install_protocol_interface_impl false fuel address none protocol type interface ctx =
      some (not_ready, none, ctx)
  efi_install_protocol_interface_impl false fuel address (some handle) protocol type interface ctx =
      some (not_ready, handle, ctx)
  efi_install_protocol_interface_impl true fuel address none protocol type interface ctx =
      some (invalid_parameter, none, ctx)
  efi_install_protocol_interface_impl true fuel address (some handle) none type interface ctx =
      some (invalid_parameter, handle, ctx)
  efi_install_protocol_interface_impl true fuel address (some handle) (some guid) type interface
        ctx =
      if interface == 0 || not (type == native_interface)
      then some (invalid_parameter, handle, ctx)
      else elim handle [
        | none ↦ install_at fuel guid interface (efi_new_handle address ctx)
        | some h ↦ install_at fuel guid interface (some h, ctx)
      ]
