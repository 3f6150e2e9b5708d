-- ===== src/Protocol/OneHolder.antt =====
-- The openings of a protocol (efi-wrapper/efi/tables/protocol.c): who holds it for itself.
use mathlib.Core.Path.{subst}
use efi_wrapper.Prelude.{
  ℕ, zero, suc, ◌≤◌, ◌≡◌, ◌⊎◌, inl, inr, refl, Bool, true, false, not, ◌&&◌, ◌==◌, Option, none,
  some, List, [], ◌∷◌, ◌++◌, if◌then◌else◌, arith, Bool-cases,
}
use efi_wrapper.Status.{EfiStatus, success, invalid_parameter, efi_error}
use efi_wrapper.Event.{Ctx}
use efi_wrapper.Protocol.{OpenInfo, InterfaceEntry, Handle, efi_get_protocol}
use efi_wrapper.Protocol.Open.{
  Outcome, done, no_fuel, reads_freed, aborts, test_protocol, by_driver, exclusive, has_bit,
  is_valid, scan, refused, is_open, new_open, count_up, infos_at, with_infos, record_open,
  exclusive_loop, open_scanned, open_found, Opened, open_protocol, accepted, as_unsupported,
}
use efi_wrapper.Protocol.Disconnect.{efi_open_protocol_impl, efi_disconnect_controller_impl}
use efi_wrapper.Protocol.OpenLaws.{
  is_held, held, has_driver, get-with, or-false, held-append, held-count_up, free-held,
}

module _ {W : Type 0} (mem_ok node_ok : Ctx (List Handle × W) → Bool) where
  infos-with :
      (s : Ctx (List Handle × W)) (h guid : ℕ) (f : List OpenInfo → List OpenInfo)
      (e : InterfaceEntry)
      → efi_get_protocol s.world.0 h (some guid) true ≡ (success, some e)
      → infos_at mem_ok node_ok (with_infos mem_ok node_ok f h guid s) h guid ≡ f e.open_list
  infos-with s h guid f e p = rw (get-with s.world.0 h guid f e p) refl

  -- What the last part of an opening does to the count.
  held-record_open :
      (s : Ctx (List Handle × W)) (h guid intf agent controller attrs : ℕ) (e : InterfaceEntry)
      → efi_get_protocol s.world.0 h (some guid) true ≡ (success, some e)
      → held e.open_list ≤ 1
      → (is_held (new_open agent controller attrs) ≡ true → held e.open_list ≡ 0)
      → held (
          infos_at mem_ok node_ok
            ((record_open mem_ok node_ok s h guid intf agent controller attrs).2)
            h
            guid)
        ≤ 1
  unfolding record_open
  held-record_open s h guid intf agent controller attrs e p le free =
      let item = new_open agent controller attrs in
      elim (Bool-cases (is_open agent controller attrs (infos_at mem_ok node_ok s h guid))) [
        | inl q ↦
            rw
              (
                q,
                infos-with s h guid (count_up agent controller attrs) e p,
                held-count_up agent controller attrs e.open_list,
              )
              le
        | inr q ↦ elim (Bool-cases (mem_ok s)) [
          | inr m ↦ rw (q, m, p) le
          | inl m ↦ elim (Bool-cases (node_ok s)) [
            | inr k ↦ rw (q, m, k, p) le
            | inl k ↦
                rw
                  (
                    q,
                    m,
                    k,
                    infos-with s h guid (λ infos. infos ++ item ∷ []) e p,
                    held-append e.open_list (item ∷ []),
                  )
                  (elim (Bool-cases (is_held item)) [
                    | inl t ↦ rw t (omega (arith, free t))
                    | inr t ↦ rw t (omega (arith, le))
                  ])
          ]
        ]
      ]

  exclusive-idle :
      (disconnect : ℕ → ℕ → ℕ → Ctx (List Handle × W) → Outcome (EfiStatus × Ctx (List Handle × W)))
      (fuel h guid : ℕ) (infos : List OpenInfo) (s : Ctx (List Handle × W))
      → has_driver infos ≡ false
      → (exclusive_loop mem_ok node_ok disconnect fuel h guid false infos s ≡ no_fuel)
        ⊎ (exclusive_loop mem_ok node_ok disconnect fuel h guid false infos s ≡ done (false, s))
  unfolding exclusive_loop
  exclusive-idle disconnect zero h guid infos s n = inl refl
  exclusive-idle disconnect (suc fuel) h guid [] s n = inr refl
  exclusive-idle disconnect (suc fuel) h guid (i ∷ infos) s n =
      let (n0, rest) = or-false (i.attrs == by_driver) (has_driver infos) n in
      elim (exclusive-idle disconnect fuel h guid infos s rest) [
        | inl e ↦ inl (ground (arith, n0, e))
        | inr e ↦ inr (ground (arith, n0, e))
      ]

  -- The count after an opening.
  abbrev Kept : ℕ → ℕ → Outcome (Opened mem_ok node_ok) → Type 0
  Kept h guid (done (st, intf, s)) = held (infos_at mem_ok node_ok s h guid) ≤ 1
  Kept h guid no_fuel = Unit
  Kept h guid reads_freed = Unit
  Kept h guid aborts = Unit

  Kept-if :
      (h guid : ℕ) (b : Bool) (x y : Outcome (Opened mem_ok node_ok))
      → (b ≡ true → Kept h guid x)
      → (b ≡ false → Kept h guid y)
      → Kept h guid (if b then x else y)
  Kept-if h guid true x y f g = f refl
  Kept-if h guid false x y f g = g refl

  module _
      (disconnect : ℕ → ℕ → ℕ → Ctx (List Handle × W) → Outcome (EfiStatus × Ctx (List Handle × W)))
      (s : Ctx (List Handle × W)) (h guid : ℕ) (e : InterfaceEntry)
      (p : efi_get_protocol s.world.0 h (some guid) true ≡ (success, some e))
      (le : held e.open_list ≤ 1) where
    same : held (infos_at mem_ok node_ok s h guid) ≤ 1
    same = rw p le

    Kept-scanned :
        (fuel intf agent controller attrs : ℕ) (scanned : Option (Bool × Bool))
        → (has_bit attrs exclusive ≡ true → has_driver e.open_list ≡ false)
        → ((excluded : Bool) (driven : Bool)
            → scanned ≡ some (driven, excluded)
            → refused attrs driven excluded ≡ false
            → is_held (new_open agent controller attrs) ≡ true
            → held e.open_list ≡ 0)
        → Kept h guid (
            open_scanned mem_ok node_ok disconnect fuel s h guid intf agent controller attrs
              scanned)
    Kept-scanned fuel intf agent controller attrs none idle free = same
    Kept-scanned fuel intf agent controller attrs (some (driven, excluded)) idle free =
        Kept-if h guid (refused attrs driven excluded) _ _ (λ r. same)
          (λ r.
            Kept-if h guid (has_bit attrs exclusive) _ _
              (λ x.
                elim (exclusive-idle disconnect fuel h guid (infos_at mem_ok node_ok s h guid) s
                  (rw p (idle x))) [
                    | inl q ↦ rw q tt
                    | inr q ↦ rw q (
                        held-record_open s h guid intf agent controller attrs e p le
                          (free excluded driven refl r))
                  ])
              (λ x.
                held-record_open s h guid intf agent controller attrs e p le
                  (free excluded driven refl r)))

    Kept-found :
        (fuel : ℕ) (has_intf : Bool) (agent controller attrs : ℕ)
        → (has_bit attrs exclusive ≡ true → has_driver e.open_list ≡ false)
        → (not (attrs == test_protocol) && not has_intf) ≡ false
        → Kept h guid (
            open_found mem_ok node_ok disconnect fuel s h guid has_intf agent controller attrs
              (success, some e))
    unfolding efi_error as_unsupported
    Kept-found fuel has_intf agent controller attrs idle there =
        Kept-if h guid (agent == 0) _ _ (λ z. same)
          (λ z. Kept-scanned fuel _ agent controller attrs _ idle (λ excluded driven q r t.
            free-held agent controller attrs e.open_list driven excluded
              (scanned has_intf excluded driven there q t) r t idle))
      where
        scanned :
            (has_intf excluded driven : Bool)
            → (not (attrs == test_protocol) && not has_intf) ≡ false
            → (if has_intf then scan agent attrs false false e.open_list else some (false, false))
              ≡ some (driven, excluded)
            → is_held (new_open agent controller attrs) ≡ true
            → scan agent attrs false false e.open_list ≡ some (driven, excluded)
        scanned true excluded driven there q t = q
        scanned false excluded driven there q t = absurd (ground (arith, there, t))

    Kept-open :
        (fuel : ℕ) (has_intf : Bool) (agent controller attrs : ℕ)
        → (has_bit attrs exclusive ≡ true → has_driver e.open_list ≡ false)
        → Kept h guid (
            open_protocol mem_ok node_ok disconnect fuel true s h
              (some guid)
              has_intf
              agent
              controller
              attrs)
    unfolding open_protocol
    Kept-open fuel has_intf agent controller attrs idle =
        let bad : Outcome (Opened mem_ok node_ok) = done (invalid_parameter, 0, s) in
        let found : Outcome (Opened mem_ok node_ok) =
          open_found mem_ok node_ok disconnect fuel s h guid has_intf agent controller attrs
            (efi_get_protocol s.world.0 h (some guid) true) in
        let no_pointer : Bool = not (attrs == test_protocol) && not has_intf in
        let third : Outcome (Opened mem_ok node_ok) =
          if not (accepted s.world.0 agent controller attrs) then bad else found in
        Kept-if h guid (not (is_valid h s.world.0)) bad (if no_pointer then bad else third)
          (λ a. same)
          (λ a.
            Kept-if h guid no_pointer bad third (λ b. same)
              (λ there.
                Kept-if h guid (not (accepted s.world.0 agent controller attrs)) bad found
                  (λ c. same)
                  (λ c. rw p (Kept-found fuel has_intf agent controller attrs idle there))))

  -- If at most one opening of a protocol is for a driver or exclusive, this is so after every
  -- opening, accepted or refused, that is not exclusive, and after every exclusive one where no
  -- driver has to be disconnected first; whatever memory there is.
  pub efi_open_protocol_impl-one_holder :
      (stop : ℕ → ℕ → List ℕ → Ctx (List Handle × W) → EfiStatus × Ctx (List Handle × W)) (fuel : ℕ)
      (s : Ctx (List Handle × W)) (h guid : ℕ) (e : InterfaceEntry) (has_intf : Bool)
      (agent controller attrs : ℕ) (st : EfiStatus) (intf : ℕ) (after : Ctx (List Handle × W))
      → efi_get_protocol s.world.0 h (some guid) true ≡ (success, some e)
      → held e.open_list ≤ 1
      → (has_bit attrs exclusive ≡ true → has_driver e.open_list ≡ false)
      → efi_open_protocol_impl mem_ok node_ok stop fuel true s h
          (some guid)
          has_intf
          agent
          controller
          attrs
        ≡ done (st, intf, after)
      → held (infos_at mem_ok node_ok after h guid) ≤ 1
  unfolding efi_open_protocol_impl
  efi_open_protocol_impl-one_holder stop fuel s h guid e has_intf agent controller attrs st intf
        after p le idle r =
      subst (Kept h guid) r (
        Kept-open (efi_disconnect_controller_impl mem_ok node_ok stop fuel true) s h guid e p le
          fuel has_intf agent controller attrs idle)
