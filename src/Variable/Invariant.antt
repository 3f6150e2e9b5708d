-- ===== src/Variable/Invariant.antt =====
-- The variable store stays well-formed: proper names, one variable for each key, none without data.
use efi_wrapper.Prelude.{
  ℕ, ◌<◌, ◌≡◌, inl, inr, refl, sym, ◌∙◌, Bool, true, false, Option, none, some, List, [], ◌∷◌, ◌++◌,
  length, arith, Bool-cases, Option-cases,
}
use efi_wrapper.Ustr.{Ustr, IsUstr}
use efi_wrapper.Variable.{item, Memory, store_found, store_value, efi_set_var_impl}
use efi_wrapper.Variable.Store.{Variable, find, replace_first, remove_first, var_cmp, var_cmp_iff}
use efi_wrapper.Variable.Laws.{IsValid, find_key, var_cmp-same}

-- A search that fails goes on failing in a list with less, or other data under the same keys.
find-none-remove_first :
    (other : Ustr) (other_guid : ℕ) (name : Ustr) (guid : ℕ) (vars : List Variable)
    → find other other_guid vars ≡ none
    → find other other_guid (remove_first name guid vars) ≡ none
unfolding find remove_first
find-none-remove_first other other_guid name guid [] h = refl
find-none-remove_first other other_guid name guid (v ∷ vars) h =
    ground (arith, find-none-remove_first other other_guid name guid vars)

find-none_cons :
    (name : Ustr) (guid : ℕ) (v : Variable) (vars : List Variable)
    → find name guid (v ∷ vars) ≡ none
    → (var_cmp name guid v ≡ false) × (find name guid vars ≡ none)
unfolding find
find-none_cons name guid v vars h = ground arith

remove_first-IsValid :
    (name : Ustr) (guid : ℕ) (vars : List Variable)
    → IsValid vars
    → IsValid (remove_first name guid vars)
unfolding remove_first
remove_first-IsValid name guid [] valid = tt
remove_first-IsValid name guid (v ∷ vars) (it, valid) = elim (Bool-cases (var_cmp name guid v)) [
  | inl e ↦ rw e valid
  | inr e ↦ rw e (
    record {
      named = it.named;
      unique = find-none-remove_first v.name v.guid name guid vars it.unique;
      filled = it.filled;
    },
    remove_first-IsValid name guid vars valid,
  )
]

module _ (name : Ustr) (guid : ℕ) (new : Variable) (hn : IsUstr name) (e : new.name ≡ name)
    (f : new.guid ≡ guid) (filled : 0 < length new.bytes) where
  new_named : IsUstr new.name
  new_named = rw e hn

  new_matches :
      (other : Ustr) (other_guid : ℕ) (v : Variable)
      → IsUstr v.name
      → var_cmp name guid v ≡ true
      → var_cmp other other_guid new ≡ var_cmp other other_guid v
  new_matches other other_guid v hv h =
      let (same_name, same_guid) = (var_cmp_iff name guid v hn hv).0 h in
      var_cmp-same other other_guid v new (e ∙ same_name) (f ∙ same_guid)

  find-none-replace_first :
      (other : Ustr) (other_guid : ℕ) (vars : List Variable)
      → IsValid vars
      → find other other_guid vars ≡ none
      → find other other_guid (replace_first name guid new vars) ≡ none
  unfolding find replace_first
  find-none-replace_first other other_guid [] valid h = refl
  find-none-replace_first other other_guid (v ∷ vars) (it, valid) h = ground (
    arith,
    new_matches other other_guid v it.named,
    find-none-replace_first other other_guid vars valid,
  )

  replace_first-IsValid :
      (vars : List Variable) → IsValid vars → IsValid (replace_first name guid new vars)
  unfolding replace_first
  replace_first-IsValid [] valid = tt
  replace_first-IsValid (v ∷ vars) (it, valid) = elim (Bool-cases (var_cmp name guid v)) [
    | inl h ↦
        let (same_name, same_guid) = (var_cmp_iff name guid v hn it.named).0 h in
        rw h (
          record {
            named = new_named;
            unique = rw (e, f, same_name, same_guid) it.unique;
            filled = filled;
          },
          valid,
        )
    | inr h ↦ rw h (
      record {
        named = it.named;
        unique = find-none-replace_first v.name v.guid vars valid it.unique;
        filled = it.filled;
      },
      replace_first-IsValid vars valid,
    )
  ]

  find-none-append :
      (other : Ustr) (other_guid : ℕ) (vars : List Variable)
      → find other other_guid vars ≡ none
      → var_cmp other other_guid new ≡ false
      → find other other_guid (vars ++ new ∷ []) ≡ none
  unfolding find
  find-none-append other other_guid [] h k = rw k
  find-none-append other other_guid (v ∷ vars) h k =
      ground (arith, find-none-append other other_guid vars)

  new_differs :
      (v : Variable)
      → IsUstr v.name
      → var_cmp name guid v ≡ false
      → var_cmp v.name v.guid new ≡ false
  new_differs v hv h = elim (Bool-cases (var_cmp v.name v.guid new)) [
    | inl k ↦
        let (n, g) = (var_cmp_iff v.name v.guid new hv new_named).0 k in
        let back = (var_cmp_iff name guid v hn hv).1 (sym e ∙ sym n, sym f ∙ sym g) in cc
    | inr k ↦ k
  ]

  append-IsValid :
      (vars : List Variable)
      → IsValid vars
      → find name guid vars ≡ none
      → IsValid (vars ++ new ∷ [])
  append-IsValid [] valid h =
      (record { named = new_named; unique = unfold find in refl; filled = filled }, tt)
  append-IsValid (v ∷ vars) (it, valid) h =
      let (missed, later) = find-none_cons name guid v vars h in
      (
        record {
          named = it.named;
          unique = find-none-append v.name v.guid vars it.unique (new_differs v it.named missed);
          filled = it.filled;
        },
        append-IsValid vars valid later,
      )

add-IsValid :
    (m : Memory) (vars : List Variable) (name : Ustr) (guid attrs b : ℕ) (bytes : List ℕ)
    → IsUstr name
    → IsValid vars
    → find name guid vars ≡ none
    → IsValid (store_found m vars name guid attrs (b ∷ bytes) none).1
unfolding store_found
add-IsValid m vars name guid attrs b bytes hn valid e = elim (Bool-cases m.name_ok) [
  | inr n ↦ rw n valid
  | inl n ↦ elim (Bool-cases m.item_ok) [
    | inr i ↦ rw (n, i) valid
    | inl i ↦
        rw (n, i)
          (append-IsValid name guid (item guid name attrs (b ∷ bytes)) hn refl refl (omega arith)
            vars valid e)
  ]
]

store_value-IsValid :
    (m : Memory) (vars : List Variable) (name : Ustr) (guid attrs : ℕ) (bytes : List ℕ)
    → IsUstr name
    → IsValid vars
    → IsValid (store_value m vars name guid attrs bytes).1
unfolding store_value
store_value-IsValid m vars name guid attrs [] hn valid = elim (Option-cases (find name guid vars)) [
  | inl e ↦ rw e valid
  | inr (v, e) ↦ rw e (remove_first-IsValid name guid vars valid)
]
store_value-IsValid m vars name guid attrs (b ∷ bytes) hn valid =
    elim (Option-cases (find name guid vars)) [
      | inl e ↦ rw e (add-IsValid m vars name guid attrs b bytes hn valid e)
      | inr (v, e) ↦ rw e (
          replace_first-IsValid name guid (item guid v.name attrs (b ∷ bytes)) hn
            (find_key name guid hn vars valid e).0 refl (omega arith) vars valid)
    ]

-- Whatever is set or deleted and whatever memory there is, a well-formed store stays so.
pub set_var-IsValid :
    (ready : Bool) (m : Memory) (vars : List Variable) (name : Ustr) (guid : Option ℕ) (attrs : ℕ)
    (value : Option (List ℕ))
    → IsUstr name
    → IsValid vars
    → IsValid (efi_set_var_impl ready m vars (some name) guid attrs value).1
unfolding efi_set_var_impl
set_var-IsValid false m vars name guid attrs value hn valid = valid
set_var-IsValid true m vars [] guid attrs value hn valid = valid
set_var-IsValid true m vars (c ∷ name) none attrs value hn valid = valid
set_var-IsValid true m vars (c ∷ name) (some guid) attrs none hn valid =
    store_value-IsValid m vars (c ∷ name) guid attrs [] hn valid
set_var-IsValid true m vars (c ∷ name) (some guid) attrs (some []) hn valid =
    store_value-IsValid m vars (c ∷ name) guid attrs [] hn valid
set_var-IsValid true m vars (c ∷ name) (some guid) attrs (some (b ∷ bytes)) hn valid =
    elim (Bool-cases m.data_ok) [
      | inl e ↦ rw e (store_value-IsValid m vars (c ∷ name) guid attrs (b ∷ bytes) hn valid)
      | inr e ↦ rw e valid
    ]
