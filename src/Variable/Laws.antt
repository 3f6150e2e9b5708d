-- ===== src/Variable/Laws.antt =====
-- The well-formed variable stores, and what the searches find in them
-- (efi-wrapper/efi/tables/variable.c).
use efi_wrapper.Prelude.{
  ℕ, ◌<◌, ◌≡◌, inl, inr, refl, true, false, none, some, List, [], ◌∷◌, ◌++◌, length, arith,
  Bool-cases, eq_of_some, sym, ap, ◌∙◌,
}
use efi_wrapper.Ustr.{Ustr, IsUstr}
use efi_wrapper.Variable.Store.{Variable, find, replace_first, remove_first, var_cmp, var_cmp_iff}

-- Names are strings, no two variables have one name and one guid, and none is without data.
pub record IsItem (v : Variable) (rest : List Variable) : Type 0 where
  pub named : IsUstr v.name
  pub unique : find v.name v.guid rest ≡ none
  pub filled : 0 < length v.bytes

abbrev pub IsValid : List Variable → Type 0
IsValid [] = Unit
IsValid (v ∷ vars) = IsItem v vars × IsValid vars

-- A variable with the same key is matched by the same searches.
pub var_cmp-same :
    (name : Ustr) (guid : ℕ) (v u : Variable)
    → u.name ≡ v.name
    → u.guid ≡ v.guid
    → var_cmp name guid u ≡ var_cmp name guid v
unfolding var_cmp
var_cmp-same name guid v u e f = rw (e, f)

pub find-remove_first_self :
    (name : Ustr) (guid : ℕ) (vars : List Variable)
    → IsUstr name
    → IsValid vars
    → find name guid (remove_first name guid vars) ≡ none
unfolding find remove_first
find-remove_first_self name guid [] hn valid = refl
find-remove_first_self name guid (v ∷ vars) hn (item, valid) =
    elim (Bool-cases (var_cmp name guid v)) [
      | inl e ↦
          let (same_name, same_guid) = (var_cmp_iff name guid v hn item.named).0 e in
          rw e (rw (same_name, same_guid) item.unique)
      | inr e ↦ rw e (rw e (find-remove_first_self name guid vars hn valid))
    ]

-- Two keys that match one variable are one key.
abbrev pub Differ : Ustr → ℕ → Ustr → ℕ → Type 0
Differ name guid other other_guid = ¬ ((name ≡ other) × (guid ≡ other_guid))

match_one :
    (name other : Ustr) (guid other_guid : ℕ) (v : Variable)
    → IsUstr name
    → IsUstr other
    → IsUstr v.name
    → Differ name guid other other_guid
    → var_cmp name guid v ≡ true
    → var_cmp other other_guid v ≡ false
match_one name other guid other_guid v hn ho hv differ e =
    elim (Bool-cases (var_cmp other other_guid v)) [
      | inl f ↦
          let (n1, g1) = (var_cmp_iff name guid v hn hv).0 e in
          let (n2, g2) = (var_cmp_iff other other_guid v ho hv).0 f in
          absurd (differ (n1 ∙ sym n2, g1 ∙ sym g2))
      | inr f ↦ f
    ]

module _ (name other : Ustr) (guid other_guid : ℕ) (hn : IsUstr name) (ho : IsUstr other)
    (differ : Differ name guid other other_guid) where
  pub find-remove_first_ne :
      (vars : List Variable)
      → IsValid vars
      → find other other_guid (remove_first name guid vars) ≡ find other other_guid vars
  unfolding find remove_first
  find-remove_first_ne [] valid = refl
  find-remove_first_ne (v ∷ vars) (item, valid) = ground (
    arith,
    match_one name other guid other_guid v hn ho item.named differ,
    find-remove_first_ne vars valid,
  )

  pub find-replace_first_ne :
      (new : Variable) (vars : List Variable)
      → new.name ≡ name
      → new.guid ≡ guid
      → IsValid vars
      → find other other_guid (replace_first name guid new vars) ≡ find other other_guid vars
  unfolding find replace_first
  find-replace_first_ne new [] e f valid = refl
  find-replace_first_ne new (v ∷ vars) e f (item, valid) = ground (
    arith,
    match_one name other guid other_guid v hn ho item.named differ,
    match_one name other guid other_guid new hn ho (rw e hn) differ
        ((var_cmp_iff name guid new hn (rw e hn)).1 (sym e, sym f)),
    find-replace_first_ne new vars e f valid,
  )

  pub find-append_ne :
      (new : Variable) (vars : List Variable)
      → new.name ≡ name
      → new.guid ≡ guid
      → find other other_guid (vars ++ new ∷ []) ≡ find other other_guid vars
  unfolding find
  find-append_ne new [] e f = rw (
      match_one name other guid other_guid new hn ho (rw e hn) differ
        ((var_cmp_iff name guid new hn (rw e hn)).1 (sym e, sym f)))
  find-append_ne new (v ∷ vars) e f = ground (arith, find-append_ne new vars e f)

module _ (name : Ustr) (guid : ℕ) (hn : IsUstr name) where
  -- What a search finds has the key.
  pub find_key :
      (vars : List Variable) {v : Variable}
      → IsValid vars
      → find name guid vars ≡ some v
      → (v.name ≡ name) × (v.guid ≡ guid)
  unfolding find
  find_key [] valid e = cc
  find_key (u ∷ vars) {v} (item, valid) e = elim (Bool-cases (var_cmp name guid u)) [
    | inl h ↦
        let (n, g) = (var_cmp_iff name guid u hn item.named).0 h in
        let same : u ≡ v = eq_of_some (rw h at e) in
        (ap (λ x. x.name) (sym same) ∙ sym n, ap (λ x. x.guid) (sym same) ∙ sym g)
    | inr h ↦ find_key vars valid (rw h at e)
  ]

  pub find-replace_first_self :
      (new : Variable) (vars : List Variable) {v : Variable}
      → new.name ≡ name
      → new.guid ≡ guid
      → find name guid vars ≡ some v
      → find name guid (replace_first name guid new vars) ≡ some new
  unfolding find replace_first
  find-replace_first_self new [] e f h = cc
  find-replace_first_self new (u ∷ vars) {v} e f h = ground (
    arith,
    (var_cmp_iff name guid new hn (rw e hn)).1 (sym e, sym f),
    find-replace_first_self new vars {v = v} e f,
  )

  pub find-append_self :
      (new : Variable) (vars : List Variable)
      → new.name ≡ name
      → new.guid ≡ guid
      → find name guid vars ≡ none
      → find name guid (vars ++ new ∷ []) ≡ some new
  unfolding find
  find-append_self new [] e f h = rw ((var_cmp_iff name guid new hn (rw e hn)).1 (sym e, sym f))
  find-append_self new (u ∷ vars) e f h = ground (arith, find-append_self new vars e f)
