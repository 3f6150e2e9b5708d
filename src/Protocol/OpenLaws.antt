-- ===== src/Protocol/OpenLaws.antt =====
-- The openings of a protocol (efi-wrapper/efi/tables/protocol.c) that are for a driver or exclusive,
-- and what the scan before an opening finds of them.
use mathlib.Core.Path.{subst}
use efi_wrapper.Prelude.{
  ℕ, zero, suc, ◌+◌, ◌≡◌, inl, inr, refl, sym, ap, ◌∙◌, Bool, true, false, not, ◌&&◌, ◌||◌, ◌==◌,
  Option, none, some, List, [], ◌∷◌, ◌++◌, if◌then◌else◌, arith, Bool-cases, Option-cases,
  eq_of_some,
}
use efi_wrapper.Status.{success}
use efi_wrapper.Protocol.{
  OpenInfo, InterfaceEntry, Handle, efi_valid_handle, find_entry, efi_get_protocol, handle_at,
  update_handle, update_entry,
}
use efi_wrapper.Protocol.Entries.{handle_at-update_self}
use efi_wrapper.Protocol.Open.{
  by_driver, exclusive, has_bit, scan, refused, same_open, is_open, new_open, count_up,
}

abbrev pub is_held : OpenInfo → Bool
is_held i = i.attrs == by_driver || i.attrs == exclusive || i.attrs == by_driver + exclusive

abbrev pub held : List OpenInfo → ℕ
held [] = 0
held (i ∷ infos) = (if is_held i then 1 else 0) + held infos

-- The openings for a driver that is not exclusive.
abbrev pub has_driver : List OpenInfo → Bool
has_driver [] = false
has_driver (i ∷ infos) = i.attrs == by_driver || has_driver infos

find_entry-update :
    (guid : ℕ) (f : List OpenInfo → List OpenInfo) (entries : List InterfaceEntry)
    (e : InterfaceEntry)
    → find_entry guid entries ≡ some e
    → find_entry guid (update_entry guid f entries)
      ≡ some (record { guid = e.guid; interface = e.interface; open_list = f e.open_list })
unfolding find_entry
find_entry-update guid f [] e h = cc
find_entry-update guid f (x ∷ entries) e h = elim (Bool-cases (x.interface == 0)) [
  | inl p ↦ rw (p, p) (find_entry-update guid f entries e (ground (arith, h, p)))
  | inr p ↦ elim (Bool-cases (guid == x.guid)) [
    | inl q ↦
        let same : x ≡ e = eq_of_some (ground (arith, h, p, q)) in
        rw (p, q, p, q)
          (ap
            (λ z.
              some (record { guid = z.guid; interface = z.interface; open_list = f z.open_list }))
            same)
    | inr q ↦ rw (p, q, p, q) (find_entry-update guid f entries e (ground (arith, h, p, q)))
  ]
]

pub get-with :
    (handles : List Handle) (h guid : ℕ) (f : List OpenInfo → List OpenInfo) (e : InterfaceEntry)
    → efi_get_protocol handles h (some guid) true ≡ (success, some e)
    → efi_get_protocol (update_handle h (update_entry guid f) handles) h (some guid) true ≡ (
      success,
      some (record { guid = e.guid; interface = e.interface; open_list = f e.open_list }),
    )
unfolding efi_get_protocol efi_valid_handle
get-with handles zero guid f e p = cc
get-with handles (suc h) guid f e p = elim (Option-cases (handle_at (suc h) handles)) [
  | inl n ↦ absurd (ground (arith, p, n))
  | inr (x, at) ↦
      let there : find_entry guid x.entries ≡ some e =
        elim (Option-cases (find_entry guid x.entries)) [
          | inl n ↦ absurd (ground (arith, p, at, n))
          | inr (y, q) ↦ ground (arith, p, at, q)
        ] in
      rw
        (
          handle_at-update_self (suc h) (update_entry guid f) handles x at,
          find_entry-update guid f x.entries e there,
        )
        refl
]

bit_at : (a b bit : ℕ) → (a == b) ≡ true → has_bit b bit ≡ true → has_bit a bit ≡ true
bit_at a b bit e h =
    let same : a ≡ b = ground (arith, e) in subst (λ x. has_bit x bit ≡ true) (sym same) h

abbrev pub is_exclusive : OpenInfo → Bool
is_exclusive i = i.attrs == exclusive || i.attrs == by_driver + exclusive

not-exclusive : (i : OpenInfo) → has_bit i.attrs exclusive ≡ false → is_exclusive i ≡ false
not-exclusive i h = elim (Bool-cases (i.attrs == exclusive)) [
  | inl e ↦ absurd (cc (bit_at i.attrs exclusive exclusive e refl, h))
  | inr e ↦ elim (Bool-cases (i.attrs == by_driver + exclusive)) [
    | inl e' ↦ absurd (cc (bit_at i.attrs 48 exclusive e' refl, h))
    | inr e' ↦ rw (e, e') refl
  ]
]

pub or-false : (a b : Bool) → (a || b) ≡ false → (a ≡ false) × (b ≡ false)
or-false true b h = cc
or-false false b h = (refl, h)

unheld :
    (i : OpenInfo) (infos : List OpenInfo)
    → (i.attrs == by_driver) ≡ false
    → has_bit i.attrs exclusive ≡ false
    → held infos ≡ 0
    → held (i ∷ infos) ≡ 0
unheld i infos n x h =
    let (e, e') =
      or-false (i.attrs == exclusive) (i.attrs == by_driver + exclusive) (not-exclusive i x) in
    rw (n, e, e') (omega (arith, h))

abbrev pub fst_of : Option (Bool × Bool) → Bool
fst_of none = true
fst_of (some p) = p.0

abbrev pub snd_of : Option (Bool × Bool) → Bool
snd_of none = true
snd_of (some p) = p.1

scan-step :
    (agent attrs : ℕ) (driven excluded : Bool) (i : OpenInfo) (infos : List OpenInfo)
    (r : Bool × Bool)
    → scan agent attrs driven excluded (i ∷ infos) ≡ some r
    → ((i.agent == agent && has_bit attrs by_driver && i.attrs == attrs) ≡ false)
      × (scan agent attrs
            (driven || (not (i.agent == agent) && has_bit i.attrs by_driver))
            (excluded || has_bit i.attrs exclusive)
            infos
          ≡ some r)
unfolding scan
scan-step agent attrs driven excluded i infos r e =
    elim (Bool-cases (i.agent == agent && has_bit attrs by_driver && i.attrs == attrs)) [
      | inl p ↦ absurd (
          cc (
            ap
              (λ b.
                if b
                then none
                else scan agent attrs
                    (driven || (not (i.agent == agent) && has_bit i.attrs by_driver))
                    (excluded || has_bit i.attrs exclusive) infos)
              (sym p)
            ∙ e))
      | inr p ↦ (
        p,
        ap
              (λ b.
                if b
                then none
                else scan agent attrs
                    (driven || (not (i.agent == agent) && has_bit i.attrs by_driver))
                    (excluded || has_bit i.attrs exclusive) infos)
              (sym p)
            ∙ e,
      )
    ]

-- No exclusive item has been met if the scan finds none.
scan-excluded :
    (agent attrs : ℕ) (driven excluded d : Bool) (infos : List OpenInfo)
    → scan agent attrs driven excluded infos ≡ some (d, false)
    → has_driver infos ≡ false
    → (excluded ≡ false) × (held infos ≡ 0)
unfolding scan
scan-excluded agent attrs driven excluded d [] e n = (ap (λ o. snd_of o) e, refl)
scan-excluded agent attrs driven excluded d (i ∷ infos) e n =
    let (_, rest) = scan-step agent attrs driven excluded i infos (d, false) e in
    let (n0, none_driver) = or-false (i.attrs == by_driver) (has_driver infos) n in
    let (x, h) =
      scan-excluded agent attrs (driven || (not (i.agent == agent) && has_bit i.attrs by_driver))
        (excluded || has_bit i.attrs exclusive) d infos rest none_driver in
    let (x0, x1) = or-false excluded (has_bit i.attrs exclusive) x in (x0, unheld i infos n0 x1 h)

scan-free :
    (agent : ℕ) (driven excluded : Bool) (infos : List OpenInfo)
    → scan agent by_driver driven excluded infos ≡ some (false, false)
    → (driven ≡ false) × (excluded ≡ false) × (held infos ≡ 0)
unfolding scan
scan-free agent driven excluded [] e = (ap fst_of e, ap snd_of e, refl)
scan-free agent driven excluded (i ∷ infos) e =
    let (p, rest) = scan-step agent by_driver driven excluded i infos (false, false) e in
    let (d, x, h) =
      scan-free agent (driven || (not (i.agent == agent) && has_bit i.attrs by_driver))
        (excluded || has_bit i.attrs exclusive) infos rest in
    let (x0, x1) = or-false excluded (has_bit i.attrs exclusive) x in
    let (d0, d1) = or-false driven (not (i.agent == agent) && has_bit i.attrs by_driver) d in
    let n0 : (i.attrs == by_driver) ≡ false = elim (Bool-cases (i.attrs == by_driver)) [
      | inr q ↦ q
      | inl q ↦ absurd (ground (arith, p, d1, q, bit_at i.attrs by_driver by_driver q refl))
    ] in
    (d0, x0, unheld i infos n0 x1 h)

pub held-append : (a b : List OpenInfo) → held (a ++ b) ≡ held a + held b
held-append [] b = omega arith
held-append (i ∷ a) b = omega (arith, held-append a b)

pub held-count_up :
    (agent controller attrs : ℕ) (infos : List OpenInfo)
    → held (count_up agent controller attrs infos) ≡ held infos
unfolding count_up
held-count_up agent controller attrs [] = refl
held-count_up agent controller attrs (i ∷ infos) =
    elim (Bool-cases
      (same_open agent controller attrs i && not (is_open agent controller attrs infos))) [
        | inl e ↦ rw e refl
        | inr e ↦ rw e (
            ap (λ n. (if is_held i then 1 else 0) + n) (held-count_up agent controller attrs infos))
      ]

free-driver :
    (agent : ℕ) (infos : List OpenInfo) (driven excluded : Bool)
    → scan agent by_driver false false infos ≡ some (driven, excluded)
    → refused by_driver driven excluded ≡ false
    → held infos ≡ 0
free-driver agent infos true true e r = cc
free-driver agent infos true false e r = cc
free-driver agent infos false true e r = cc
free-driver agent infos false false e r = (scan-free agent false false infos e).2

free-exclusive :
    (agent attrs : ℕ) (infos : List OpenInfo) (driven excluded : Bool)
    → has_bit attrs exclusive ≡ true
    → scan agent attrs false false infos ≡ some (driven, excluded)
    → refused attrs driven excluded ≡ false
    → has_driver infos ≡ false
    → held infos ≡ 0
free-exclusive agent attrs infos driven true b e r n = absurd (ground (arith, b, r))
free-exclusive agent attrs infos driven false b e r n =
    (scan-excluded agent attrs false false driven infos e n).1

-- Where an opening for a driver or an exclusive one gets past the scan, nobody holds the protocol.
pub free-held :
    (agent controller attrs : ℕ) (infos : List OpenInfo) (driven excluded : Bool)
    → scan agent attrs false false infos ≡ some (driven, excluded)
    → refused attrs driven excluded ≡ false
    → is_held (new_open agent controller attrs) ≡ true
    → (has_bit attrs exclusive ≡ true → has_driver infos ≡ false)
    → held infos ≡ 0
free-held agent controller attrs infos driven excluded e r t n =
    elim (Bool-cases (attrs == by_driver)) [
      | inl q ↦
          let same : attrs ≡ by_driver = ground (arith, q) in
          free-driver agent infos driven excluded
            (subst (λ a. scan agent a false false infos ≡ some (driven, excluded)) same e)
            (subst (λ a. refused a driven excluded ≡ false) same r)
      | inr q ↦ elim (Bool-cases (has_bit attrs exclusive)) [
        | inl b ↦ free-exclusive agent attrs infos driven excluded b e r (n b)
        | inr b ↦
            let (x, y) =
              or-false (attrs == exclusive) (attrs == by_driver + exclusive)
                (not-exclusive (new_open agent controller attrs) b) in
            absurd (ground (arith, t, q, x, y))
      ]
    ]
