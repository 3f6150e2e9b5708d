-- ===== src/Event/Create.antt =====
-- What efi_create_event_ex_impl makes (efi-wrapper/efi/tables/event.c).
use efi_wrapper.Prelude.{
  ℕ, ◌≡◌, Bool, true, false, ◌||◌, ◌==◌, Option, none, some, List, [], ◌∷◌, bit_and, arith,
  Bool-cases, inl, inr,
}
use efi_wrapper.Event.{Event, Ctx, check_tpl, check_event_type, tpl_callback, tpl_notify}
use efi_wrapper.Event.Services.{
  create_refused, group_of, event_record, create_in, efi_create_event_ex_impl,
}

-- The type is one that the service knows, and an event with a notification has a function and one
-- of the two levels for notifications.
abbrev pub IsEvent : Event → Type 0
IsEvent e =
    (check_event_type e.type ≡ true)
    × ((bit_and e.type 0x300 == 0) ≡ false
        → ((e.func == 0) ≡ false) × ((e.tpl == tpl_callback || e.tpl == tpl_notify) ≡ true))

abbrev pub AllEvents : List Event → Type 0
AllEvents [] = Unit
AllEvents (e ∷ store) = IsEvent e × AllEvents store

accepted-IsEvent :
    (has_event : Bool) (type tpl func : ℕ)
    → create_refused has_event type tpl func ≡ false
    → (check_event_type type ≡ true)
      × ((bit_and type 0x300 == 0) ≡ false
          → ((func == 0) ≡ false) × ((tpl == tpl_callback || tpl == tpl_notify) ≡ true))
unfolding create_refused check_tpl
accepted-IsEvent has_event type tpl func h =
    (ground (arith, h), λ n. (ground (arith, h, n), ground (arith, h, n)))

module _ {World : Type 0} (call : ℕ → ℕ → ℕ → Ctx World → Ctx World)
    (node_ok : Ctx World → Bool) where
  create_in-AllEvents :
      (address : Option ℕ) (type tpl func context : ℕ) (group : Option (Option ℕ)) (ctx : Ctx World)
      → ((a : ℕ) (g : Option ℕ) → IsEvent (event_record call node_ok a type tpl func context g))
      → AllEvents ctx.store
      → AllEvents (create_in call node_ok address type tpl func context group ctx).2.store
  create_in-AllEvents address type tpl func context none ctx ok all = all
  create_in-AllEvents none type tpl func context (some g) ctx ok all = all
  create_in-AllEvents (some a) type tpl func context (some g) ctx ok all =
      elim (Bool-cases (node_ok ctx)) [ inl e ↦ simp e (ok a g, all) | inr e ↦ simp e all ]

  -- Whatever the arguments, creating an event keeps it true that every event has a known type,
  -- and, if the type has a notification, a function and one of the levels 8 and 16.
  pub create_event-AllEvents :
      (ready : Bool) (address : Option ℕ) (type tpl func context : ℕ) (group : Option ℕ)
      (has_event : Bool) (ctx : Ctx World)
      → AllEvents ctx.store
      → AllEvents
          (efi_create_event_ex_impl call node_ok ready address type tpl func context group has_event
            ctx).2.store
  unfolding efi_create_event_ex_impl
  create_event-AllEvents ready address type tpl func context group has_event ctx all =
      elim (Bool-cases ready) [
        | inr r ↦ rw r all
        | inl r ↦ elim (Bool-cases (create_refused has_event type tpl func)) [
          | inl c ↦ rw (r, c) all
          | inr c ↦
              rw (r, c)
                (create_in-AllEvents address type tpl func context (group_of type group) ctx
                  (λ a g. accepted-IsEvent has_event type tpl func c) all)
        ]
      ]
