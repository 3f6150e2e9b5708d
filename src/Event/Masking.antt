-- ===== src/Event/Masking.antt =====
-- Which events a run of the queue notifies (efi-wrapper/efi/tables/event.c, efi_run_event_queue), for
-- notification functions that leave the context's own fields alone.
use efi_wrapper.Prelude.{
  ℕ, zero, suc, ◌<◌, ◌≤◌, ◌≡◌, refl, ap, Bool, true, false, ◌==◌, leb, Option, none, some, List, [],
  ◌∷◌, ◌++◌, if◌then◌else◌, arith, Bool-cases, inl, inr, ◌∙◌, length, eq_of_some,
}
use efi_wrapper.Event.{
  Event, Ctx, find, update, member, next_after, list_first, with_signaled, with_queue, with_world,
  evt_notify_signal,
}
use efi_wrapper.Event.Queue.{
  after_call, notify_event, run_found, continue_with, run_from, efi_run_event_queue,
}

-- The event at the address is signaled and above the level.
abbrev pub IsReady : List Event → ℕ → ℕ → Type 0
IsReady store tpl a = (e : Event) × (find a store ≡ some e) × (e.signaled ≡ true) × (tpl < e.tpl)

abbrev pub AllReady : List Event → ℕ → List ℕ → Type 0
AllReady store tpl [] = Unit
AllReady store tpl (a ∷ queue) =
    IsReady store tpl a × (member a queue ≡ false) × AllReady store tpl queue

-- The first event of the queue, if any, is not above the level.
abbrev pub IsHeld : List Event → ℕ → List ℕ → Type 0
IsHeld store tpl [] = Unit
IsHeld store tpl (a ∷ queue) = (e : Event) × (find a store ≡ some e) × (e.tpl ≤ tpl)

-- The events after the notification of one.
abbrev pub settled_found : ℕ → List Event → Option Event → List Event
settled_found a store none = store
settled_found a store (some e) =
    if e.type == evt_notify_signal then update a (with_signaled false) store else store

abbrev pub settled : List ℕ → List Event → List Event
settled [] store = store
settled (a ∷ queue) store = settled queue (settled_found a store (find a store))

next_after_head : (a : ℕ) (queue : List ℕ) → next_after a (a ∷ queue) ≡ list_first queue
next_after_head a [] = refl
next_after_head a (b ∷ queue) = ground arith

find-update_ne :
    (a b : ℕ) (store : List Event)
    → (b == a) ≡ false
    → find b (update a (with_signaled false) store) ≡ find b store
find-update_ne a b [] h = refl
find-update_ne a b (e ∷ store) h = ground (arith, find-update_ne a b store h)

find-update_tpl :
    (a b : ℕ) (store : List Event) (e : Event)
    → find b store ≡ some e
    → (f : Event) × (find b (update a (with_signaled false) store) ≡ some f) × (f.tpl ≡ e.tpl)
find-update_tpl a b [] e h = absurd (ground (arith, h))
find-update_tpl a b (x ∷ store) e h = elim (Bool-cases (a == x.addr)) [
  | inl p ↦ elim (Bool-cases (b == x.addr)) [
    | inl q ↦
        let same : x ≡ e = eq_of_some (ground (arith, h, q)) in
        simp (p, q) (with_signaled false x, refl, ap (λ y. y.tpl) same)
    | inr q ↦ simp (p, q) (find-update_tpl a b store e (ground (arith, h, q)))
  ]
  | inr p ↦ elim (Bool-cases (b == x.addr)) [
    | inl q ↦
        let same : x ≡ e = eq_of_some (ground (arith, h, q)) in
        simp (p, q) (x, refl, ap (λ y. y.tpl) same)
    | inr q ↦ simp (p, q) (find-update_tpl a b store e (ground (arith, h, q)))
  ]
]

update-AllReady :
    (a tpl : ℕ) (store : List Event) (queue : List ℕ)
    → member a queue ≡ false
    → AllReady store tpl queue
    → AllReady (update a (with_signaled false) store) tpl queue
update-AllReady a tpl store [] h all = tt
update-AllReady a tpl store (b ∷ queue) h ((e, found, on, high), once, all) =
    let ne : (b == a) ≡ false = ground (arith, h) in
    let later : member a queue ≡ false = ground (arith, h) in
    (
      (e, find-update_ne a b store ne ∙ found, on, high),
      once,
      update-AllReady a tpl store queue later all,
    )

update-IsHeld :
    (a tpl : ℕ) (store : List Event) (queue : List ℕ)
    → IsHeld store tpl queue
    → IsHeld (update a (with_signaled false) store) tpl queue
update-IsHeld a tpl store [] h = tt
update-IsHeld a tpl store (b ∷ queue) (e, found, low) =
    let (f, still, same) = find-update_tpl a b store e found in (f, still, omega (arith, same))

settled-keeps :
    (a tpl : ℕ) (store : List Event) (o : Option Event) (ready held : List ℕ)
    → member a ready ≡ false
    → AllReady store tpl ready
    → IsHeld store tpl held
    → AllReady (settled_found a store o) tpl ready × IsHeld (settled_found a store o) tpl held
settled-keeps a tpl store none ready held once all low = (all, low)
settled-keeps a tpl store (some e) ready held once all low =
    elim (Bool-cases (e.type == evt_notify_signal)) [
      | inl p ↦
          rw p (update-AllReady a tpl store ready once all, update-IsHeld a tpl store held low)
      | inr p ↦ rw p (all, low)
    ]

module _ {World : Type 0} (act : ℕ → ℕ → ℕ → World → World) where
  abbrev pub act_found : ℕ → Option Event → World → World
  act_found a none w = w
  act_found a (some e) w = act e.func a e.context w

  -- The functions of the events, called in the order of the queue.
  abbrev pub acted : List ℕ → List Event → World → World
  acted [] store w = w
  acted (a ∷ queue) store w =
      acted queue (settled_found a store (find a store)) (act_found a (find a store) w)

  -- The context with another queue, other events and another world.
  abbrev pub state : List ℕ → List Event → World → Ctx World → Ctx World
  state queue store w ctx = with_queue queue store (with_world w ctx)

  module _ (node_ok : Ctx World → Bool) (call : ℕ → ℕ → ℕ → Ctx World → Ctx World)
      (quiet : (f a c : ℕ) (ctx : Ctx World)
        → call f a c ctx ≡ with_world (act f a c ctx.world) ctx) where
    notify_event_lem :
        (a : ℕ) (queue : List ℕ) (store : List Event) (w : World) (ctx : Ctx World) (e : Event)
        → find a store ≡ some e
        → e.signaled ≡ true
        → notify_event call node_ok a e (state (a ∷ queue) store w ctx)
          ≡ some (
              state queue (settled_found a store (find a store)) (act_found a (find a store) w) ctx)
    unfolding notify_event after_call
    notify_event_lem a queue store w ctx e found on =
        let same : (a == a) ≡ true = ground arith in
        let level : (e.tpl == e.tpl) ≡ true = ground arith in
        rw (quiet, found) (simp (on, same, level) refl)

    run_from_held :
        (fuel : ℕ) (held : List ℕ) (ctx : Ctx World)
        → ctx.event_queue ≡ held
        → IsHeld ctx.store ctx.tpl held
        → run_from call node_ok (suc fuel) (list_first held) ctx ≡ some ctx
    unfolding run_from
    run_from_held fuel [] ctx h low = refl
    run_from_held fuel (a ∷ held) ctx h (e, found, low) =
        let here : member a (a ∷ held) ≡ true = ground arith in
        let masked : leb e.tpl ctx.tpl ≡ true = ground (arith, low) in
        rw (h, here, found, masked) refl

    run_step_found :
        (again : Option ℕ → Ctx World → Option (Ctx World)) (a : ℕ) (rest : List ℕ) (n : Option ℕ)
        (ctx : Ctx World) (e : Event)
        → find a ctx.store ≡ some e
        → ctx.tpl < e.tpl
        → (if member a (a ∷ rest)
            then run_found call node_ok again a n ctx (find a ctx.store)
            else none)
          ≡ continue_with call node_ok again n (notify_event call node_ok a e ctx)
    run_step_found again a rest n ctx e found high =
        let unmasked : leb e.tpl ctx.tpl ≡ false = ground (arith, high) in
        let here : member a (a ∷ rest) ≡ true = ground arith in rw (found, here, unmasked) refl

    run_from_ready :
        (ready held : List ℕ) (store : List Event) (w : World) (ctx : Ctx World) (fuel : ℕ)
        → AllReady store ctx.tpl ready
        → IsHeld store ctx.tpl held
        → length ready < fuel
        → run_from call node_ok fuel
            (list_first (ready ++ held))
            (state (ready ++ held) store w ctx)
          ≡ some (state held (settled ready store) (acted ready store w) ctx)
    unfolding run_from
    run_from_ready [] held store w ctx zero all low f = absurd (omega arith)
    run_from_ready [] held store w ctx (suc fuel) all low f =
        run_from_held fuel held (state held store w ctx) refl low
    run_from_ready (a ∷ ready) held store w ctx zero all low f = absurd (omega arith)
    run_from_ready (a ∷ ready) held store w ctx (suc fuel) ((e, found, on, high), once, all) low f =
        let rest = ready ++ held in
        let now = state (a ∷ rest) store w ctx in
        let (all_next, low_next) =
          settled-keeps a ctx.tpl store (find a store) ready held once all low in
        let again = run_from call node_ok fuel in
        run_step_found again a rest (next_after a (a ∷ rest)) now e found high
        ∙ ap (continue_with call node_ok again (next_after a (a ∷ rest)))
            (notify_event_lem a rest store w ctx e found on)
        ∙ ap
            (λ n. again n (
              state rest (settled_found a store (find a store)) (act_found a (find a store) w) ctx))
            (next_after_head a rest)
        ∙ run_from_ready ready held (settled_found a store (find a store))
            (act_found a (find a store) w) ctx fuel all_next low_next (omega arith)

    -- A run of the queue with notification functions that change nothing but the world. If the
    -- queue starts with valid events that are signaled, above the current level and all
    -- different, and the next event, if any, is valid and not above the level, then those first
    -- events are called once each in their order, they leave the queue, those of the plain type
    -- are no longer signaled, and nothing else of the context changes. Fuel for one more than
    -- the notified events is enough.
    pub efi_run_event_queue_lem :
        (ready held : List ℕ) (ctx : Ctx World) (fuel : ℕ)
        → AllReady ctx.store ctx.tpl ready
        → IsHeld ctx.store ctx.tpl held
        → ctx.event_queue ≡ ready ++ held
        → length ready < fuel
        → efi_run_event_queue call node_ok fuel ctx
          ≡ some (state held (settled ready ctx.store) (acted ready ctx.store ctx.world) ctx)
    unfolding efi_run_event_queue
    efi_run_event_queue_lem ready held ctx fuel all low h f =
        ap (λ q. run_from call node_ok fuel (list_first q) (state q ctx.store ctx.world ctx)) h
        ∙ run_from_ready ready held ctx.store ctx.world ctx fuel all low f
