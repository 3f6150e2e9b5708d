-- ===== src/Variable/Services.antt =====
-- What the variable services read after they set and delete
-- (efi-wrapper/efi/tables/variable.c).
use efi_wrapper.Prelude.{
  ℕ, ◌≤◌, ◌≡◌, ◌⊎◌, inl, inr, refl, Bool, true, false, Option, none, some, List, [], ◌∷◌, length,
  arith, Option-cases,
}
use efi_wrapper.Status.{success, not_found}
use efi_wrapper.Ustr.{Ustr, IsUstr}
use efi_wrapper.Variable.{item, Memory, get_found, store_value, efi_get_var_impl, efi_set_var_impl}
use efi_wrapper.Variable.Store.{Variable, find}
use efi_wrapper.Variable.Laws.{
  IsValid, Differ, find-remove_first_self, find-remove_first_ne, find-replace_first_ne,
  find-append_ne, find_key, find-replace_first_self, find-append_self,
}

-- All allocations succeed.
abbrev pub HasMemory : Memory → Type 0
HasMemory m = (m.data_ok ≡ true) × (m.name_ok ≡ true) × (m.item_ok ≡ true)

module _ (m : Memory) (vars : List Variable) (name : Ustr) (guid attrs : ℕ) (hn : IsUstr name)
    (valid : IsValid vars) where
  store_value-find :
      (b : ℕ) (bytes : List ℕ)
      → HasMemory m
      → ((store_value m vars name guid attrs (b ∷ bytes)).0 ≡ success)
        × ((v : Variable) × (find name guid (store_value m vars name guid attrs (b ∷ bytes)).1
              ≡ some v)
            × (v.bytes ≡ b ∷ bytes))
  unfolding store_value
  store_value-find b bytes (_, ok_name, ok_item) = elim (Option-cases (find name guid vars)) [
    | inl e ↦
        let new = item guid name attrs (b ∷ bytes) in
        rw (e, ok_name, ok_item)
          (refl, (new, find-append_self name guid hn new vars refl refl e, refl))
    | inr (v, e) ↦
        let new = item guid v.name attrs (b ∷ bytes) in
        let same = (find_key name guid hn vars valid e).0 in
        rw e (refl, (new, find-replace_first_self name guid hn new vars {v = v} same refl e, refl))
  ]

  store_value_gone :
      ((find name guid vars ≡ none) × ((store_value m vars name guid attrs []).0 ≡ not_found))
      ⊎ (((v : Variable) × (find name guid vars ≡ some v))
          × ((store_value m vars name guid attrs []).0 ≡ success))
  unfolding store_value
  store_value_gone = elim (Option-cases (find name guid vars)) [
    | inl e ↦ inl (e, rw e)
    | inr (v, e) ↦ inr ((v, e), rw e)
  ]

  store_value-none : find name guid (store_value m vars name guid attrs []).1 ≡ none
  unfolding store_value
  store_value-none = elim (Option-cases (find name guid vars)) [
    | inl e ↦ rw e e
    | inr (v, e) ↦ rw e (find-remove_first_self name guid vars hn valid)
  ]

  store_value_other :
      (other : Ustr) (other_guid : ℕ) (bytes : List ℕ)
      → IsUstr other
      → Differ name guid other other_guid
      → find other other_guid (store_value m vars name guid attrs bytes).1
        ≡ find other other_guid vars
  unfolding store_value
  store_value_other other other_guid [] ho differ = elim (Option-cases (find name guid vars)) [
    | inl e ↦ rw e
    | inr (v, e) ↦ rw e (find-remove_first_ne name other guid other_guid hn ho differ vars valid)
  ]
  store_value_other other other_guid (b ∷ bytes) ho differ =
      elim (Option-cases (find name guid vars)) [
        | inl e ↦
            let new = item guid name attrs (b ∷ bytes) in
            ground
              (arith, e, find-append_ne name other guid other_guid hn ho differ new vars refl refl)
        | inr (v, e) ↦
            let new = item guid v.name attrs (b ∷ bytes) in
            rw e (
              find-replace_first_ne name other guid other_guid hn ho differ new vars
                (find_key name guid hn vars valid e).0 refl valid)
      ]

-- A search result with data, read through a buffer that is large enough.
get_found-some :
    (o : Option Variable) (v : Variable) (b : ℕ) (bytes : List ℕ) (size : ℕ)
    → o ≡ some v
    → v.bytes ≡ b ∷ bytes
    → length (b ∷ bytes) ≤ size
    → get_found o size true ≡ (success, none, some (b ∷ bytes))
unfolding get_found
get_found-some o v b bytes size e f room = rw (e, f) (ground arith)

-- A variable that was set with some data and enough memory reads back as that data, through a
-- buffer that is large enough.
pub get-set_self :
    (m : Memory) (vars : List Variable) (c : ℕ) (name : Ustr) (guid attrs b : ℕ) (bytes : List ℕ)
    (size : ℕ)
    → IsUstr (c ∷ name)
    → IsValid vars
    → HasMemory m
    → length (b ∷ bytes) ≤ size
    → let (st, vars') =
        efi_set_var_impl true m vars (some (c ∷ name)) (some guid) attrs (some (b ∷ bytes)) in
      (st ≡ success)
      × (efi_get_var_impl true vars' (some (c ∷ name)) (some guid) (some size) true
          ≡ (success, none, some (b ∷ bytes)))
unfolding efi_set_var_impl efi_get_var_impl
get-set_self m vars c name guid attrs b bytes size hn valid ok room =
    let (done, (v, found, e)) = store_value-find m vars (c ∷ name) guid attrs hn valid b bytes ok in
    rw ok.0 (done, get_found-some _ v b bytes size found e room)

set_other :
    (m : Memory) (vars : List Variable) (name other : Ustr) (guid other_guid attrs : ℕ)
    (value : Option (List ℕ))
    → IsUstr name
    → IsUstr other
    → IsValid vars
    → Differ name guid other other_guid
    → find other other_guid (efi_set_var_impl true m vars (some name) (some guid) attrs value).1
      ≡ find other other_guid vars
unfolding efi_set_var_impl
set_other m vars [] other guid other_guid attrs value hn ho valid differ = refl
set_other m vars (c ∷ name) other guid other_guid attrs none hn ho valid differ =
    store_value_other m vars (c ∷ name) guid attrs hn valid other other_guid [] ho differ
set_other m vars (c ∷ name) other guid other_guid attrs (some []) hn ho valid differ =
    store_value_other m vars (c ∷ name) guid attrs hn valid other other_guid [] ho differ
set_other m vars (c ∷ name) other guid other_guid attrs (some (b ∷ bytes)) hn ho valid differ =
    ground (
      arith,
      store_value_other m vars (c ∷ name) guid attrs hn valid other other_guid (b ∷ bytes) ho
          differ,
    )

-- A variable under another name or guid reads as before, whatever is set or deleted and
-- whatever memory there is.
pub get-set_ne :
    (m : Memory) (vars : List Variable) (name other : Ustr) (guid other_guid attrs : ℕ)
    (value : Option (List ℕ)) (size : ℕ) (has_data : Bool)
    → IsUstr name
    → IsUstr other
    → IsValid vars
    → Differ name guid other other_guid
    → efi_get_var_impl true
        (efi_set_var_impl true m vars (some name) (some guid) attrs value).1
        (some other)
        (some other_guid)
        (some size)
        has_data
      ≡ efi_get_var_impl true vars (some other) (some other_guid) (some size) has_data
unfolding efi_get_var_impl
get-set_ne m vars name other guid other_guid attrs value size has_data hn ho valid differ =
    rw (set_other m vars name other guid other_guid attrs value hn ho valid differ)

-- Setting no data deletes the variable: it succeeds exactly if the variable was there, answers
-- that it was not found otherwise, and afterwards the variable is not found.
pub delete_var :
    (m : Memory) (vars : List Variable) (c : ℕ) (name : Ustr) (guid attrs size : ℕ)
    → IsUstr (c ∷ name)
    → IsValid vars
    → let (st, vars') = efi_set_var_impl true m vars (some (c ∷ name)) (some guid) attrs none in
      (((find (c ∷ name) guid vars ≡ none) × (st ≡ not_found))
        ⊎ (((v : Variable) × (find (c ∷ name) guid vars ≡ some v)) × (st ≡ success)))
      × (efi_get_var_impl true vars' (some (c ∷ name)) (some guid) (some size) true
          ≡ (not_found, none, none))
unfolding efi_set_var_impl efi_get_var_impl
delete_var m vars c name guid attrs size hn valid = (
  store_value_gone m vars (c ∷ name) guid attrs hn valid,
  rw (store_value-none m vars (c ∷ name) guid attrs hn valid),
)

-- Without memory for the list item a new variable is reported as set, and is not there.
pub set_lost :
    (m : Memory) (vars : List Variable) (c : ℕ) (name : Ustr) (guid attrs b : ℕ) (bytes : List ℕ)
    → m.data_ok ≡ true
    → m.name_ok ≡ true
    → m.item_ok ≡ false
    → find (c ∷ name) guid vars ≡ none
    → efi_set_var_impl true m vars (some (c ∷ name)) (some guid) attrs (some (b ∷ bytes))
      ≡ (success, vars)
unfolding efi_set_var_impl
set_lost m vars c name guid attrs b bytes d n i e = rw (d, n, i, e)
