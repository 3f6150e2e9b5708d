-- ===== src/Event/Waiting.antt =====
-- The results of efi_wait_for_event_impl (efi-wrapper/efi/tables/event.c).
use efi_wrapper.Prelude.{
  ℕ, zero, suc, ◌+◌, ◌-◌, ◌<◌, ◌≤◌, ◌≡◌, refl, ap, ◌∙◌, sym, Bool, true, false, ◌==◌, Option, none,
  some, List, [], ◌∷◌, arith, Bool-cases, inl, inr, length, take, eq_of_some,
}
use mathlib.Core.Path.{subst}
use efi_wrapper.Status.{success}
use efi_wrapper.Event.{
  Event, Ctx, find, update, with_signaled, with_store, with_world, tpl_application,
}
use efi_wrapper.Event.Services.{is_signaled, efi_timer_run}
use efi_wrapper.Event.Wait.{
  first_signaled, waitable, queue_wanted, woken, wait_found, wait_loop, waited, wait_queued,
  efi_wait_for_event_impl,
}

cleared_self :
    (a : ℕ) (store : List Event)
    → is_signaled (find a (update a (with_signaled false) store)) ≡ false
cleared_self a [] = refl
cleared_self a (e ∷ store) = ground (arith, cleared_self a store)

cleared_other :
    (a b : ℕ) (store : List Event)
    → is_signaled (find b store) ≡ false
    → is_signaled (find b (update a (with_signaled false) store)) ≡ false
cleared_other a b [] h = refl
cleared_other a b (e ∷ store) h = ground (arith, cleared_other a b store)

some_pair : (i j b a : ℕ) → ◌≡◌ {A = Option (ℕ × ℕ)} (some (i, b)) (some (j, a)) → (i ≡ j) × (b ≡ a)
some_pair i j b a h = (ap (λ r. r.0) (eq_of_some h), ap (λ r. r.1) (eq_of_some h))

first_signaled_lem :
    (store : List Event) (wanted : List ℕ) (i j a : ℕ)
    → first_signaled store wanted i ≡ some (j, a)
    → (i ≤ j)
      × (j < i + length wanted)
      × (first_signaled (update a (with_signaled false) store) (take (suc (j - i)) wanted) i ≡ none)
unfolding first_signaled
first_signaled_lem store [] i j a h = absurd (ground (arith, h))
first_signaled_lem store (b ∷ wanted) i j a h = elim (Bool-cases (is_signaled (find b store))) [
  | inl e ↦
      let (here, it) = some_pair i j b a (ground (arith, h, e)) in
      let off : is_signaled (find b (update a (with_signaled false) store)) ≡ false =
        ap (λ x. is_signaled (find b (update x (with_signaled false) store))) (sym it)
        ∙ cleared_self b store in
      let none_before : j - i ≡ 0 = omega (arith, here) in
      (omega (arith, here), omega (arith, here), rw (off, none_before) refl)
  | inr e ↦
      let later : first_signaled store wanted (suc i) ≡ some (j, a) = ground (arith, h, e) in
      let (low, high, clear) = first_signaled_lem store wanted (suc i) j a later in
      let off = cleared_other a b store e in
      let count : j - i ≡ suc (j - suc i) = omega arith in
      (omega arith, omega arith, rw (off, count) clear)
]

module _ {World : Type 0} (call : ℕ → ℕ → ℕ → Ctx World → Ctx World) (node_ok : Ctx World → Bool)
    (clock : World → ℕ) (usleep : ℕ → World → World) where
  -- The index is one of the array, and no event up to it is signaled.
  abbrev pub Done : List ℕ → ℕ × Ctx World → Type 0
  Done wanted r =
      (r.0 < length wanted) × (first_signaled r.1.store (take (suc r.0) wanted) 0 ≡ none)

  woken-Done :
      (again : Ctx World → Option (ℕ × Ctx World)) (wanted : List ℕ) (o : Option (Ctx World))
      (r : ℕ × Ctx World)
      → ((next : Ctx World) → again next ≡ some r → Done wanted r)
      → woken call node_ok clock usleep again o ≡ some r
      → Done wanted r
  woken-Done again wanted none r later h = absurd (ground (arith, h))
  woken-Done again wanted (some next) r later h = later next h

  wait_found-Done :
      (again : Ctx World → Option (ℕ × Ctx World)) (fuel : ℕ) (wanted : List ℕ) (ctx : Ctx World)
      (o : Option (ℕ × ℕ)) (r : ℕ × Ctx World)
      → first_signaled ctx.store wanted 0 ≡ o
      → ((next : Ctx World) → again next ≡ some r → Done wanted r)
      → wait_found call node_ok clock usleep again fuel ctx o ≡ some r
      → Done wanted r
  wait_found-Done again fuel wanted ctx (some (i, a)) r e later h =
      let (low, high, clear) = first_signaled_lem ctx.store wanted 0 i a e in
      let start : i - 0 ≡ i = omega arith in
      let store = update a (with_signaled false) ctx.store in
      subst (Done wanted) (eq_of_some h)
        (omega arith, ap (λ k. first_signaled store (take (suc k) wanted) 0) (sym start) ∙ clear)
  wait_found-Done again fuel wanted ctx none r e later h =
      woken-Done again wanted
        (efi_timer_run call node_ok fuel (clock (usleep 10000 ctx.world))
          (with_world (usleep 10000 ctx.world) ctx))
        r later h

  wait_loop-Done :
      (fuel : ℕ) (wanted : List ℕ) (ctx : Ctx World) (r : ℕ × Ctx World)
      → wait_loop call node_ok clock usleep fuel wanted ctx ≡ some r
      → Done wanted r
  unfolding wait_loop
  wait_loop-Done zero wanted ctx r h = absurd (ground (arith, h))
  wait_loop-Done (suc fuel) wanted ctx r h =
      wait_found-Done (wait_loop call node_ok clock usleep fuel wanted) fuel wanted ctx
        (first_signaled ctx.store wanted 0) r refl (λ next k. wait_loop-Done fuel wanted next r k) h

  waited-Done :
      (wanted : List ℕ) (o : Option (ℕ × Ctx World)) (i : ℕ) (after : Ctx World)
      → ((r : ℕ × Ctx World) → o ≡ some r → Done wanted r)
      → waited call node_ok clock usleep o ≡ some (success, i, after)
      → Done wanted (i, after)
  waited-Done wanted none i after all h = absurd (ground (arith, h))
  waited-Done wanted (some r) i after all h =
      let same : ◌≡◌ {A = ℕ × Ctx World} r (i, after) = ap (λ x. (x.1, x.2)) (eq_of_some h) in
      subst (Done wanted) same (all r refl)

  wait_queued-Done :
      (fuel : ℕ) (wanted : List ℕ) (o : Option (Bool × Ctx World)) (i : ℕ) (after : Ctx World)
      → wait_queued call node_ok clock usleep fuel wanted o ≡ some (success, i, after)
      → Done wanted (i, after)
  wait_queued-Done fuel wanted none i after h = absurd (ground (arith, h))
  wait_queued-Done fuel wanted (some (false, ctx)) i after h =
      absurd (ground (arith, ap (λ x. x.0) (eq_of_some h)))
  wait_queued-Done fuel wanted (some (true, ctx)) i after h =
      waited-Done wanted (wait_loop call node_ok clock usleep fuel wanted ctx) i after
        (λ r k. wait_loop-Done fuel wanted ctx r k) h

  -- When a wait succeeds, the index that it gives is one of the array, and afterwards no event of
  -- the array up to that index is signaled.
  pub wait_for_event-Done :
      (fuel : ℕ) (wanted : List ℕ) (ctx : Ctx World) (i : ℕ) (after : Ctx World)
      → efi_wait_for_event_impl call node_ok clock usleep true fuel wanted ctx
        ≡ some (success, i, after)
      → (i < length wanted) × (first_signaled after.store (take (suc i) wanted) 0 ≡ none)
  unfolding efi_wait_for_event_impl
  wait_for_event-Done fuel [] ctx i after h = absurd (ground (arith, ap (λ x. x.0) (eq_of_some h)))
  wait_for_event-Done fuel (a ∷ wanted) ctx i after h =
      elim (Bool-cases (ctx.tpl == tpl_application)) [
        | inl e ↦
            wait_queued-Done fuel (a ∷ wanted)
              (queue_wanted call node_ok clock usleep fuel (a ∷ wanted) ctx) i after (rw e at h)
        | inr e ↦ absurd (ground (arith, ap (λ x. x.0) (eq_of_some (rw e at h))))
      ]

  -- Every event of the array can be waited for and is signaled.
  abbrev pub AllSignaled : List Event → List ℕ → Type 0
  AllSignaled store [] = Unit
  AllSignaled store (a ∷ wanted) =
      (waitable (find a store) ≡ true)
      × (is_signaled (find a store) ≡ true)
      × AllSignaled store wanted

  queue_wanted_none :
      (fuel : ℕ) (wanted : List ℕ) (ctx : Ctx World)
      → AllSignaled ctx.store wanted
      → queue_wanted call node_ok clock usleep fuel wanted ctx ≡ some (true, ctx)
  unfolding queue_wanted
  queue_wanted_none fuel [] ctx all = refl
  queue_wanted_none fuel (a ∷ wanted) ctx (can, on, all) =
      rw (can, on) (queue_wanted_none fuel wanted ctx all)

  -- A wait at the level of applications for events that can all be waited for and are all signaled
  -- ends at once: it gives the index 0, clears the first event and changes nothing else.
  pub wait_for_event_first :
      (fuel a : ℕ) (wanted : List ℕ) (ctx : Ctx World)
      → ctx.tpl ≡ tpl_application
      → AllSignaled ctx.store (a ∷ wanted)
      → efi_wait_for_event_impl call node_ok clock usleep true (suc fuel) (a ∷ wanted) ctx
        ≡ some (success, 0, with_store (update a (with_signaled false) ctx.store) ctx)
  unfolding efi_wait_for_event_impl wait_loop first_signaled
  wait_for_event_first fuel a wanted ctx level all =
      let base : (ctx.tpl == tpl_application) ≡ true = ground (arith, level) in
      rw (base, queue_wanted_none (suc fuel) (a ∷ wanted) ctx all, all.1) refl
