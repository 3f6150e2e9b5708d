-- ===== src/Event/Queue.antt =====
-- efi-wrapper/efi/tables/event.c: putting an event into the queue, and running the queue.
use efi_wrapper.Prelude.{
  ℕ, zero, suc, Bool, false, not, ◌||◌, ◌==◌, leb, Option, none, some, List, [], ◌∷◌, if◌then◌else◌,
}
use efi_wrapper.Event.{
  Event, Ctx, find, update, with_signaled, member, next_after, list_first, remove, with_queue,
  with_tpl, evt_notify_signal,
}

-- The level of the event at an address.
abbrev pub tpl_at : ℕ → List Event → ℕ
tpl_at a [] = 0
tpl_at a (e ∷ store) = if a == e.addr then e.tpl else tpl_at a store

-- The loop of efi_add_event_queue: before the first event of a lower level, else at the end.
unfoldable pub insert_by_tpl : List Event → ℕ → List ℕ → List ℕ
insert_by_tpl store a [] = a ∷ []
insert_by_tpl store a (i ∷ queue) =
    let rest = insert_by_tpl store a queue in
    if leb (tpl_at a store) (tpl_at i store) then i ∷ rest else a ∷ i ∷ queue

module _ {World : Type 0}
    -- A call of the function `func` on an event and its context.
    (call : ℕ → ℕ → ℕ → Ctx World → Ctx World)
    -- Whether list_new gets memory.
    (node_ok : Ctx World → Bool) where
  -- After the call: the level goes back unless the function changed it, a signaled event leaves
  -- the queue, and one of the plain type is no longer signaled. `none` if the event is gone.
  unfoldable pub after_call : ℕ → ℕ → Ctx World → Option Event → Option (Ctx World)
  after_call old_tpl a ctx none = none
  after_call old_tpl a ctx (some e) =
      let back = if ctx.tpl == e.tpl then with_tpl old_tpl ctx else ctx in
      let queue = if e.signaled then remove a ctx.event_queue else ctx.event_queue in
      let store =
        if e.type == evt_notify_signal
        then update a (with_signaled false) ctx.store
        else ctx.store in
      some (with_queue queue store back)

  unfoldable pub notify_event : ℕ → Event → Ctx World → Option (Ctx World)
  notify_event a e ctx =
      let called = call e.func a e.context (with_tpl e.tpl ctx) in
      after_call ctx.tpl a called (find a called.store)

  abbrev pub continue_with :
      (Option ℕ → Ctx World → Option (Ctx World))
      → Option ℕ
      → Option (Ctx World)
      → Option (Ctx World)
  continue_with again n none = none
  continue_with again n (some ctx) = again n ctx

  -- The body of the loop at one node of the queue; `n` is the next node, read before.
  abbrev pub run_found :
      (Option ℕ → Ctx World → Option (Ctx World))
      → ℕ
      → Option ℕ
      → Ctx World
      → Option Event
      → Option (Ctx World)
  run_found again a n ctx none = again n ctx
  run_found again a n ctx (some e) =
      if leb e.tpl ctx.tpl then some ctx else continue_with again n (notify_event a e ctx)

  -- A node that a function took out of the queue is freed: `none`.
  abbrev pub run_step :
      (Option ℕ → Ctx World → Option (Ctx World)) → Option ℕ → Ctx World → Option (Ctx World)
  run_step again none ctx = some ctx
  run_step again (some a) ctx =
      if member a ctx.event_queue
      then run_found again a (next_after a ctx.event_queue) ctx (find a ctx.store)
      else none

  unfoldable pub run_from : ℕ → Option ℕ → Ctx World → Option (Ctx World)
  run_from zero l ctx = none
  run_from (suc fuel) l ctx = run_step (run_from fuel) l ctx

  unfoldable pub efi_run_event_queue : ℕ → Ctx World → Option (Ctx World)
  unfolding run_from
  efi_run_event_queue fuel ctx = run_from fuel (list_first ctx.event_queue) ctx

  abbrev pub add_found : ℕ → ℕ → Ctx World → Option Event → Option (Ctx World)
  add_found fuel a ctx none = some ctx
  add_found fuel a ctx (some e) =
      if e.func == 0 || (member a ctx.event_queue || not (node_ok ctx))
      then some ctx
      else efi_run_event_queue fuel
          (with_queue (insert_by_tpl ctx.store a ctx.event_queue) ctx.store ctx)

  unfoldable pub efi_add_event_queue : ℕ → ℕ → Ctx World → Option (Ctx World)
  efi_add_event_queue fuel a ctx = add_found fuel a ctx (find a ctx.store)
