-- ===== src/Event/Services.antt =====
-- efi-wrapper/efi/tables/event.c: the boot services on events, timers and priority levels. The first
-- argument of a service says whether there is a current context.
use efi_wrapper.Prelude.{
  ℕ, zero, suc, ◌+◌, ◌-◌, ◌%◌, ◌^◌, Bool, true, false, not, ◌&&◌, ◌||◌, ◌==◌, ltb, Option, none,
  some, List, [], ◌∷◌, ◌++◌, if◌then◌else◌, bit_and, get_elem?,
}
use efi_wrapper.Status.{EfiStatus, success, not_ready, invalid_parameter, out_of_resources}
use efi_wrapper.Event.{
  Event, Ctx, find, update, with_signaled, with_timer, with_store, check_tpl, check_event_type,
  evt_timer, evt_signal_exit_boot_services, evt_signal_virtual_address_change, tpl_application,
  timer_cancel, timer_periodic, timer_relative,
}
use efi_wrapper.Event.Queue.{efi_add_event_queue, efi_run_event_queue}

-- gEfiEventExitBootServicesGuid and gEfiEventVirtualAddressChangeGuid, as numbers of their own.
abbrev pub exit_boot_services_guid : ℕ
exit_boot_services_guid = 1

abbrev pub virtual_address_change_guid : ℕ
virtual_address_change_guid = 2

abbrev pub no_deadline : ℕ
no_deadline = 2 ^ 64 - 1

-- The group of a new event; the reserved types take no group of the caller's.
unfoldable pub group_of : ℕ → Option ℕ → Option (Option ℕ)
group_of type (some g) =
    if type == evt_signal_exit_boot_services || type == evt_signal_virtual_address_change
    then none
    else some (some g)
group_of type none =
    if type == evt_signal_exit_boot_services
    then some (some exit_boot_services_guid)
    else if type == evt_signal_virtual_address_change
    then some (some virtual_address_change_guid)
    else some none

-- Whether the arguments of a new event are refused before its group is looked at.
unfoldable pub create_refused : Bool → ℕ → ℕ → ℕ → Bool
create_refused has_event type tpl func =
    not has_event
    || (not (check_event_type type)
        || (not (bit_and type 0x300 == 0)
            && (func == 0 || (not (check_tpl tpl) || tpl == tpl_application))))

abbrev pub same_group : Option ℕ → ℕ → Bool
same_group none g = false
same_group (some h) g = h == g

abbrev pub group_at : ℕ → List Event → Option ℕ
group_at a [] = none
group_at a (e ∷ store) = if a == e.addr then e.group else group_at a store

abbrev pub is_signaled : Option Event → Bool
is_signaled none = false
is_signaled (some e) = e.signaled

-- The first loop of efi_signal_event_impl on a group.
unfoldable pub mark_group : ℕ → List ℕ → List Event → List Event
mark_group g [] store = store
mark_group g (a ∷ events) store =
    if same_group (group_at a store) g
    then mark_group g events (update a (with_signaled true) store)
    else mark_group g events store

module _ {World : Type 0} (call : ℕ → ℕ → ℕ → Ctx World → Ctx World)
    (node_ok : Ctx World → Bool) where
  abbrev pub event_record : ℕ → ℕ → ℕ → ℕ → ℕ → Option ℕ → Event
  event_record a type tpl func context group = record {
    addr = a;
    type = type;
    tpl = tpl;
    func = func;
    context = context;
    group = group;
    next = no_deadline;
    time = 0;
    delay = 0;
    signaled = false;
  }

  -- The list node may be missing: the event is then not on the list, and no service takes it.
  abbrev pub with_event : Event → Ctx World → Ctx World
  with_event e ctx = record {
    store = if node_ok ctx then e ∷ ctx.store else ctx.store;
    events = if node_ok ctx then ctx.events ++ e.addr ∷ [] else ctx.events;
    event_queue = ctx.event_queue;
    notifies = ctx.notifies;
    tpl = ctx.tpl;
    timer = ctx.timer;
    world = ctx.world;
  }

  abbrev pub create_in :
      Option ℕ → ℕ → ℕ → ℕ → ℕ → Option (Option ℕ) → Ctx World → EfiStatus × Option ℕ × Ctx World
  create_in address type tpl func context none ctx = (invalid_parameter, none, ctx)
  create_in none type tpl func context (some group) ctx = (out_of_resources, none, ctx)
  create_in (some a) type tpl func context (some group) ctx =
      (success, some a, with_event (event_record a type tpl func context group) ctx)

  -- The status, what is written to `*event`, and the context. `address` is where the allocator puts
  -- the event, if it has memory; `has_event` says whether `event` is a pointer.
  unfoldable pub efi_create_event_ex_impl :
      Bool
      → Option ℕ
      → ℕ
      → ℕ
      → ℕ
      → ℕ
      → Option ℕ
      → Bool
      → Ctx World
      → EfiStatus × Option ℕ × Ctx World
  unfolding create_refused group_of
  efi_create_event_ex_impl ready address type tpl func context group has_event ctx =
      if not ready
      then (not_ready, none, ctx)
      else if create_refused has_event type tpl func
      then (invalid_parameter, none, ctx)
      else create_in address type tpl func context (group_of type group) ctx

  unfoldable pub efi_create_event_impl :
      Bool → Option ℕ → ℕ → ℕ → ℕ → ℕ → Bool → Ctx World → EfiStatus × Option ℕ × Ctx World
  unfolding efi_create_event_ex_impl
  efi_create_event_impl ready address type tpl func context has_event ctx =
      efi_create_event_ex_impl ready address type tpl func context none has_event ctx

  -- The second loop of efi_signal_event_impl on a group, from a place of `events` on; the list
  -- only grows at its end meanwhile.
  unfoldable pub queue_group : ℕ → ℕ → ℕ → Ctx World → Option (Ctx World)
  queue_group zero i g ctx = none
  queue_group (suc fuel) i g ctx = elim (get_elem? ctx.events i) [
    | none ↦ some ctx
    | some a ↦
        if same_group (group_at a ctx.store) g
        then elim (efi_add_event_queue call node_ok fuel a ctx) [
          | none ↦ none
          | some next ↦ queue_group fuel (suc i) g next
        ]
        else queue_group fuel (suc i) g ctx
  ]

  abbrev pub reply : EfiStatus → Option (Ctx World) → Option (EfiStatus × Ctx World)
  reply st none = none
  reply st (some ctx) = some (st, ctx)

  abbrev pub signal_group : ℕ → ℕ → Option ℕ → Ctx World → Option (Ctx World)
  signal_group fuel a none ctx =
      efi_add_event_queue call node_ok fuel a
        (with_store (update a (with_signaled true) ctx.store) ctx)
  signal_group fuel a (some g) ctx =
      queue_group fuel 0 g (with_store (mark_group g ctx.events ctx.store) ctx)

  abbrev pub signal_found : ℕ → ℕ → Option Event → Ctx World → Option (EfiStatus × Ctx World)
  signal_found fuel a none ctx = some (invalid_parameter, ctx)
  signal_found fuel a (some e) ctx =
      if e.signaled then some (success, ctx) else reply success (signal_group fuel a e.group ctx)

  unfoldable pub efi_signal_event_impl : Bool → ℕ → ℕ → Ctx World → Option (EfiStatus × Ctx World)
  efi_signal_event_impl ready fuel a ctx =
      if ready then signal_found fuel a (find a ctx.store) ctx else some (not_ready, ctx)

  -- The event after its deadline, as efi_timer_run leaves it: `none` if it is not due.
  abbrev pub timer_fired : ℕ → Event → Option Event
  timer_fired now e =
      if bit_and e.type evt_timer == 0
      then none
      else if ltb now e.next
      then none
      else if e.delay == timer_periodic
      then some (with_timer ((e.next + e.time) % 2 ^ 64) e.time e.delay false e)
      else if e.delay == timer_relative
      then some (with_timer e.next e.time timer_cancel false e)
      else none

  abbrev pub fired_at : ℕ → Option Event → Option Event
  fired_at now none = none
  fired_at now (some e) = timer_fired now e

  unfoldable pub timer_loop : ℕ → ℕ → ℕ → Ctx World → Option (Ctx World)
  timer_loop zero i now ctx = none
  timer_loop (suc fuel) i now ctx = elim (get_elem? ctx.events i) [
    | none ↦ some ctx
    | some a ↦ elim (fired_at now (find a ctx.store)) [
      | none ↦ timer_loop fuel (suc i) now ctx
      | some e ↦
          elim (efi_signal_event_impl true fuel a (with_store (update a (λ _. e) ctx.store) ctx)) [
            | none ↦ none
            | some (_, next) ↦ timer_loop fuel (suc i) now next
          ]
    ]
  ]

  abbrev pub then_run : ℕ → Option (Ctx World) → Option (Ctx World)
  then_run fuel none = none
  then_run fuel (some ctx) = efi_run_event_queue call node_ok fuel ctx

  unfoldable pub efi_timer_run : ℕ → ℕ → Ctx World → Option (Ctx World)
  efi_timer_run fuel now ctx =
      then_run fuel (if ctx.timer then timer_loop fuel 0 now ctx else some ctx)
