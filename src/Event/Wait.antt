-- ===== src/Event/Wait.antt =====
-- efi-wrapper/efi/tables/event.c: waiting for events, timers, priority levels and the notification of
-- new protocols. The first argument of a service says whether there is a current context.
use efi_wrapper.Prelude.{
  ℕ, zero, suc, ◌+◌, ◌/◌, ◌%◌, ◌^◌, Bool, true, false, not, ◌||◌, ◌==◌, ltb, Option, none, some,
  List, [], ◌∷◌, ◌++◌, if◌then◌else◌, bit_and,
}
use efi_wrapper.Status.{
  EfiStatus, success, not_ready, invalid_parameter, unsupported, out_of_resources,
}
use efi_wrapper.Event.{
  Event, Ctx, find, update, with_signaled, with_timer, with_tpl, with_store, with_world, evt_timer,
  evt_notify_signal, tpl_application, tpl_high_level, timer_cancel, timer_periodic, timer_relative,
}
use efi_wrapper.Event.Queue.{efi_add_event_queue}
use efi_wrapper.Event.Services.{is_signaled, no_deadline, efi_timer_run}

-- The first event of an array that is signaled, by its index.
unfoldable pub first_signaled : List Event → List ℕ → ℕ → Option (ℕ × ℕ)
first_signaled store [] i = none
first_signaled store (a ∷ wanted) i =
    if is_signaled (find a store) then some (i, a) else first_signaled store wanted (suc i)

-- Whether an event can be waited for.
abbrev pub waitable : Option Event → Bool
waitable none = false
waitable (some e) = not (e.type == 0 || not (bit_and e.type evt_notify_signal == 0))

abbrev pub level : ℕ → ℕ
level tpl = if ltb tpl_high_level tpl then tpl_high_level else tpl

module _ {World : Type 0} (call : ℕ → ℕ → ℕ → Ctx World → Ctx World) (node_ok : Ctx World → Bool)
    -- gettimeofday, in microseconds, and usleep
    (clock : World → ℕ) (usleep : ℕ → World → World) where
  -- The first loop of efi_wait_for_event_impl: `false` if an event cannot be waited for.
  unfoldable pub queue_wanted : ℕ → List ℕ → Ctx World → Option (Bool × Ctx World)
  queue_wanted fuel [] ctx = some (true, ctx)
  queue_wanted fuel (a ∷ wanted) ctx =
      if not (waitable (find a ctx.store))
      then some (false, ctx)
      else if is_signaled (find a ctx.store)
      then queue_wanted fuel wanted ctx
      else elim (efi_add_event_queue call node_ok fuel a ctx) [
        | none ↦ none
        | some next ↦ queue_wanted fuel wanted next
      ]

  abbrev pub woken :
      (Ctx World → Option (ℕ × Ctx World)) → Option (Ctx World) → Option (ℕ × Ctx World)
  woken again none = none
  woken again (some ctx) = again ctx

  -- The body of the loop, by the event that is signaled, if any.
  abbrev pub wait_found :
      (Ctx World → Option (ℕ × Ctx World)) → ℕ → Ctx World → Option (ℕ × ℕ) → Option (ℕ × Ctx World)
  wait_found again fuel ctx (some (i, a)) =
      some (i, with_store (update a (with_signaled false) ctx.store) ctx)
  wait_found again fuel ctx none =
      let slept = with_world (usleep 10000 ctx.world) ctx in
      woken again (efi_timer_run call node_ok fuel (clock slept.world) slept)

  -- `while(true)`: the index that is written, and the context.
  unfoldable pub wait_loop : ℕ → List ℕ → Ctx World → Option (ℕ × Ctx World)
  wait_loop zero wanted ctx = none
  wait_loop (suc fuel) wanted ctx =
      wait_found (wait_loop fuel wanted) fuel ctx (first_signaled ctx.store wanted 0)

  abbrev pub Waited : Type 0
  Waited = EfiStatus × ℕ × Ctx World

  abbrev pub waited : Option (ℕ × Ctx World) → Option Waited
  waited none = none
  waited (some (i, ctx)) = some (success, i, ctx)

  abbrev pub wait_queued : ℕ → List ℕ → Option (Bool × Ctx World) → Option Waited
  wait_queued fuel wanted none = none
  wait_queued fuel wanted (some (false, ctx)) = some (invalid_parameter, 0, ctx)
  wait_queued fuel wanted (some (true, ctx)) = waited (wait_loop fuel wanted ctx)

  -- The status, `*index`, and the context; `none` while it still waits.
  unfoldable pub efi_wait_for_event_impl : Bool → ℕ → List ℕ → Ctx World → Option Waited
  efi_wait_for_event_impl false fuel wanted ctx = some (not_ready, 0, ctx)
  efi_wait_for_event_impl true fuel [] ctx = some (invalid_parameter, 0, ctx)
  efi_wait_for_event_impl true fuel (a ∷ wanted) ctx =
      if not (ctx.tpl == tpl_application)
      then some (unsupported, 0, ctx)
      else wait_queued fuel (a ∷ wanted) (queue_wanted fuel (a ∷ wanted) ctx)

  -- With a current context the test at the head returns; without one the body reads through the
  -- null context, which has no result.
  unfoldable pub efi_close_event_impl : Bool → ℕ → Ctx World → Option (EfiStatus × Ctx World)
  efi_close_event_impl true a ctx = some (not_ready, ctx)
  efi_close_event_impl false a ctx = elim (find a ctx.store) [
    | none ↦ some (invalid_parameter, ctx)
    | some e ↦ none
  ]

  unfoldable pub efi_check_event_impl : Bool → ℕ → Ctx World → Option (EfiStatus × Ctx World)
  efi_check_event_impl true a ctx = some (not_ready, ctx)
  efi_check_event_impl false a ctx = elim (find a ctx.store) [
    | none ↦ some (invalid_parameter, ctx)
    | some e ↦
        if not (bit_and e.type evt_notify_signal == 0)
        then some (invalid_parameter, ctx)
        else if e.signaled
        then some (success, with_store (update a (with_signaled false) ctx.store) ctx)
        else none
  ]

  unfoldable pub efi_set_timer_impl : Bool → ℕ → ℕ → ℕ → Ctx World → EfiStatus × Ctx World
  efi_set_timer_impl true a type time ctx = (not_ready, ctx)
  efi_set_timer_impl false a type time ctx = elim (find a ctx.store) [
    | none ↦ (invalid_parameter, ctx)
    | some e ↦
        if bit_and e.type evt_timer == 0
        then (invalid_parameter, ctx)
        else if type == timer_cancel
        then (
          success,
          with_store (update a (with_timer no_deadline (time / 10) type false) ctx.store) ctx,
        )
        else if type == timer_periodic || type == timer_relative
        then (
          success,
          with_store
              (update a (with_timer ((clock ctx.world + time / 10) % 2 ^ 64) (time / 10) type false)
                ctx.store)
              ctx,
        )
        else (invalid_parameter, ctx)
  ]

  unfoldable pub efi_raise_tpl_impl : Bool → ℕ → Ctx World → ℕ × Ctx World
  efi_raise_tpl_impl false new_tpl ctx = (0, ctx)
  efi_raise_tpl_impl true new_tpl ctx = (ctx.tpl, with_tpl (level new_tpl) ctx)

  unfoldable pub efi_restore_tpl_impl : Bool → ℕ → ℕ → Ctx World → Option (Ctx World)
  efi_restore_tpl_impl false fuel old_tpl ctx = some ctx
  efi_restore_tpl_impl true fuel old_tpl ctx =
      efi_timer_run call node_ok fuel (clock ctx.world) (with_tpl (level old_tpl) ctx)

  -- `protocol` is `none` for a null pointer; the registration is known by its place.
  unfoldable pub efi_register_protocol_notify_impl :
      Bool → Bool → Option ℕ → ℕ → Bool → Ctx World → EfiStatus × Ctx World
  efi_register_protocol_notify_impl false mem_ok protocol a has_registration ctx = (not_ready, ctx)
  efi_register_protocol_notify_impl true mem_ok none a has_registration ctx =
      (invalid_parameter, ctx)
  efi_register_protocol_notify_impl true mem_ok (some guid) a has_registration ctx =
      elim (find a ctx.store) [
        | none ↦ (invalid_parameter, ctx)
        | some e ↦
            if not has_registration
            then (invalid_parameter, ctx)
            else if not mem_ok
            then (out_of_resources, ctx)
            else (
              success,
              record {
                store = ctx.store;
                events = ctx.events;
                event_queue = ctx.event_queue;
                notifies =
                    if node_ok ctx
                    then ctx.notifies ++ record { protocol = guid; event = a; handles = [] } ∷ []
                    else ctx.notifies;
                tpl = ctx.tpl;
                timer = ctx.timer;
                world = ctx.world;
              },
            )
      ]

  -- Without a context efi_timer_run returns at once.
  unfoldable pub efi_stall_impl : Bool → ℕ → ℕ → Ctx World → Option (EfiStatus × Ctx World)
  efi_stall_impl ready fuel microseconds ctx =
      let slept = with_world (usleep microseconds ctx.world) ctx in
      if ready
      then elim (efi_timer_run call node_ok fuel (clock slept.world) slept) [
        | none ↦ none
        | some next ↦ some (success, next)
      ]
      else some (success, slept)
