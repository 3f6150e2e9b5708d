-- ===== src/Event/Order.antt =====
-- The order of the queue that efi_add_event_queue keeps (efi-wrapper/efi/tables/event.c).
use efi_wrapper.Prelude.{
  ℕ, ◌<◌, ◌≤◌, ◌≡◌, refl, ◌==◌, leb, List, [], ◌∷◌, ◌++◌, if◌then◌else◌, arith, Bool-cases, inl,
  inr, sym, append-nil,
}
use efi_wrapper.Event.{Event}
use efi_wrapper.Event.Queue.{tpl_at, insert_by_tpl}

-- No event of the queue has a level above that bound.
abbrev pub AllBelow : List Event → ℕ → List ℕ → Type 0
AllBelow store bound [] = Unit
AllBelow store bound (a ∷ queue) = (tpl_at a store ≤ bound) × AllBelow store bound queue

-- The levels do not rise along the queue.
abbrev pub IsSorted : List Event → List ℕ → Type 0
IsSorted store [] = Unit
IsSorted store (a ∷ queue) = AllBelow store (tpl_at a store) queue × IsSorted store queue

-- The events of a queue that have a level, in their order.
abbrev pub at_level : List Event → ℕ → List ℕ → List ℕ
at_level store tpl [] = []
at_level store tpl (a ∷ queue) =
    if tpl_at a store == tpl then a ∷ at_level store tpl queue else at_level store tpl queue

below_mono :
    (store : List Event) (b c : ℕ) (queue : List ℕ)
    → b ≤ c
    → AllBelow store b queue
    → AllBelow store c queue
below_mono store b c [] h all = tt
below_mono store b c (a ∷ queue) h (first, rest) = (omega arith, below_mono store b c queue h rest)

insert-AllBelow :
    (store : List Event) (bound a : ℕ) (queue : List ℕ)
    → tpl_at a store ≤ bound
    → AllBelow store bound queue
    → AllBelow store bound (insert_by_tpl store a queue)
unfolding insert_by_tpl
insert-AllBelow store bound a [] h all = (h, tt)
insert-AllBelow store bound a (i ∷ queue) h (first, rest) =
    elim (Bool-cases (leb (tpl_at a store) (tpl_at i store))) [
      | inl e ↦ rw e (first, insert-AllBelow store bound a queue h rest)
      | inr e ↦ rw e (h, (first, rest))
    ]

insert-IsSorted :
    (store : List Event) (a : ℕ) (queue : List ℕ)
    → IsSorted store queue
    → IsSorted store (insert_by_tpl store a queue)
unfolding insert_by_tpl
insert-IsSorted store a [] sorted = (tt, tt)
insert-IsSorted store a (i ∷ queue) (all, sorted) =
    elim (Bool-cases (leb (tpl_at a store) (tpl_at i store))) [
      | inl e ↦
          let h : tpl_at a store ≤ tpl_at i store = ground (arith, e) in
          rw e (
            insert-AllBelow store (tpl_at i store) a queue h all,
            insert-IsSorted store a queue sorted,
          )
      | inr e ↦
          let h : tpl_at i store ≤ tpl_at a store = ground (arith, e) in
          rw e ((h, below_mono store (tpl_at i store) (tpl_at a store) queue h all), (all, sorted))
    ]

at_level_none :
    (store : List Event) (bound tpl : ℕ) (queue : List ℕ)
    → bound < tpl
    → AllBelow store bound queue
    → at_level store tpl queue ≡ []
at_level_none store bound tpl [] h all = refl
at_level_none store bound tpl (a ∷ queue) h (first, rest) =
    ground (arith, at_level_none store bound tpl queue h rest)

at_level-insert :
    (store : List Event) (a tpl : ℕ) (queue : List ℕ)
    → IsSorted store queue
    → at_level store tpl (insert_by_tpl store a queue)
      ≡ at_level store tpl queue ++ at_level store tpl (a ∷ [])
unfolding insert_by_tpl
at_level-insert store a tpl [] sorted = refl
at_level-insert store a tpl (i ∷ queue) (all, sorted) =
    elim (Bool-cases (leb (tpl_at a store) (tpl_at i store))) [
      | inl e ↦ rw e (elim (Bool-cases (tpl_at i store == tpl)) [
        | inl f ↦ rw (f, at_level-insert store a tpl queue sorted) refl
        | inr f ↦ rw (f, at_level-insert store a tpl queue sorted) refl
      ])
      | inr e ↦
          let h : tpl_at i store < tpl_at a store = ground (arith, e) in
          rw e (elim (Bool-cases (tpl_at a store == tpl)) [
            | inl f ↦
                let g : tpl_at i store < tpl = ground (arith, h, f) in
                let none_there =
                  at_level_none store (tpl_at i store) tpl (i ∷ queue) g (omega arith, all) in
                rw (f, none_there) refl
            | inr f ↦ rw f (sym (append-nil (at_level store tpl (i ∷ queue))))
          ])
    ]

-- Putting an event into a queue with falling levels keeps the levels falling, and the events of
-- each level are those from before in their order, with the new one behind them if it has it.
pub insert_by_tpl_lem :
    (store : List Event) (a tpl : ℕ) (queue : List ℕ)
    → IsSorted store queue
    → IsSorted store (insert_by_tpl store a queue)
      × (at_level store tpl (insert_by_tpl store a queue)
          ≡ at_level store tpl queue ++ at_level store tpl (a ∷ []))
insert_by_tpl_lem store a tpl queue sorted =
    (insert-IsSorted store a queue sorted, at_level-insert store a tpl queue sorted)
