-- ===== src/Configuration/Laws.antt =====
-- What installing, replacing and removing configuration tables do to a lookup.
use efi_wrapper.Prelude.{
  ℕ, zero, suc, ◌-◌, ◌*◌, ◌<◌, ◌≤◌, ◌≡◌, refl, ap, false, ◌==◌, Option, none, some, List, [], ◌∷◌,
  ◌++◌, length, set, if◌then◌else◌, arith, Bool-cases, ==_iff, inl, inr, ◌⊎◌, ◌∙◌,
}
use efi_wrapper.Configuration.{
  Entry, entry, entry_size, CfgTable, find_slot, shift_down, remove_slot,
}

-- The value that a reader of the first n slots finds.
abbrev pub lookup : ℕ → List Entry → ℕ → Option ℕ
lookup guid slots zero = none
lookup guid [] (suc n) = none
lookup guid (e ∷ slots) (suc n) = if guid == e.guid then some e.value else lookup guid slots n

abbrev pub installed_value : ℕ → CfgTable → Option ℕ
installed_value guid t = lookup guid t.slots t.entries

-- No guid twice.
abbrev pub Distinct : List Entry → ℕ → Type 0
Distinct slots zero = Unit
Distinct [] (suc n) = Unit
Distinct (e ∷ slots) (suc n) = (lookup e.guid slots n ≡ none) × Distinct slots n

-- The block holds the entries, its size is recorded, and no guid stands twice.
pub record IsTable (t : CfgTable) : Type 0 where
  pub room : t.entries ≤ length t.slots
  pub sized : t.cfg_table_size ≡ length t.slots * entry_size
  pub distinct : Distinct t.slots t.entries

-- The search finds a slot exactly if a reader finds a value.
pub find_slot_lem :
    (guid : ℕ) (slots : List Entry) (n : ℕ)
    → n ≤ length slots
    → ((find_slot guid slots n < n) × ((v : ℕ) × (lookup guid slots n ≡ some v)))
      ⊎ ((find_slot guid slots n ≡ n) × (lookup guid slots n ≡ none))
unfolding find_slot
find_slot_lem guid slots zero h = inr (refl, refl)
find_slot_lem guid [] (suc n) h = absurd (omega arith)
find_slot_lem guid (e ∷ slots) (suc n) h = elim (Bool-cases (guid == e.guid)) [
  | inl q ↦ inl (rw q (omega arith), rw q (e.value, refl))
  | inr q ↦ elim (find_slot_lem guid slots n (omega arith)) [
    | inl (k, (v, f)) ↦ inl (rw q (omega arith), rw q (v, f))
    | inr (k, f) ↦ inr (rw q (ap suc k), rw q f)
  ]
]

-- Replacing the slot that the search finds.
pub replace_self :
    (guid v : ℕ) (slots : List Entry) (n : ℕ)
    → n ≤ length slots
    → find_slot guid slots n < n
    → lookup guid (set slots (find_slot guid slots n) (entry guid v)) n ≡ some v
unfolding find_slot
replace_self guid v slots zero h k = absurd (omega arith)
replace_self guid v [] (suc n) h k = absurd (omega arith)
replace_self guid v (e ∷ slots) (suc n) h k = elim (Bool-cases (guid == e.guid)) [
  | inl q ↦ rw q (ground arith)
  | inr q ↦ rw (q, q) (replace_self guid v slots n (omega arith) (ground (arith, k, q)))
]

pub replace_ne :
    (guid v other : ℕ) (slots : List Entry) (n : ℕ)
    → (other == guid) ≡ false
    → n ≤ length slots
    → find_slot guid slots n < n
    → lookup other (set slots (find_slot guid slots n) (entry guid v)) n ≡ lookup other slots n
unfolding find_slot
replace_ne guid v other slots zero d h k = absurd (omega arith)
replace_ne guid v other [] (suc n) d h k = absurd (omega arith)
replace_ne guid v other (e ∷ slots) (suc n) d h k = elim (Bool-cases (guid == e.guid)) [
  | inl q ↦ rw q (ground (arith, q, d))
  | inr q ↦
      let again = replace_ne guid v other slots n d (omega arith) (ground (arith, k, q)) in
      rw q (ground (arith, again))
]

-- A new entry behind the others.
pub append_self :
    (guid v : ℕ) (slots : List Entry)
    → lookup guid slots (length slots) ≡ none
    → lookup guid
        (set (slots ++ entry guid v ∷ []) (length slots) (entry guid v))
        (suc (length slots))
      ≡ some v
append_self guid v [] h = ground arith
append_self guid v (e ∷ slots) h = elim (Bool-cases (guid == e.guid)) [
  | inl q ↦ absurd (ground (arith, q, h))
  | inr q ↦ rw q (append_self guid v slots (ground (arith, q, h)))
]

pub append_ne :
    (guid v other : ℕ) (slots : List Entry)
    → (other == guid) ≡ false
    → lookup other
        (set (slots ++ entry guid v ∷ []) (length slots) (entry guid v))
        (suc (length slots))
      ≡ lookup other slots (length slots)
append_ne guid v other [] d = rw d refl
append_ne guid v other (e ∷ slots) d = ground (arith, append_ne guid v other slots d)

-- Removing the slot that the search finds.
shift_down_lem :
    (guid : ℕ) (e : Entry) (slots : List Entry) (n : ℕ)
    → n ≤ length slots
    → lookup guid (shift_down (e ∷ slots) n) n ≡ lookup guid slots n
unfolding shift_down
shift_down_lem guid e slots zero h = refl
shift_down_lem guid e [] (suc n) h = absurd (omega arith)
shift_down_lem guid e (f ∷ slots) (suc n) h =
    ground (arith, shift_down_lem guid f slots n (omega arith))

remove_lem :
    (guid other : ℕ) (slots : List Entry) (n : ℕ)
    → suc n ≤ length slots
    → Distinct slots (suc n)
    → find_slot guid slots (suc n) < suc n
    → (lookup guid
          (remove_slot slots (find_slot guid slots (suc n)) (n - find_slot guid slots (suc n)))
          n
        ≡ none)
      × ((other == guid) ≡ false
          → lookup other
              (remove_slot slots (find_slot guid slots (suc n)) (n - find_slot guid slots (suc n)))
              n
            ≡ lookup other slots (suc n))
unfolding find_slot remove_slot
remove_lem guid other [] n h d k = absurd (omega arith)
remove_lem guid other (e ∷ slots) zero h d k = elim (Bool-cases (guid == e.guid)) [
  | inl q ↦ (refl, λ r. ground (arith, q, r))
  | inr q ↦ absurd (ground (arith, k, q))
]
remove_lem guid other (e ∷ slots) (suc n) h (d, ds) k = elim (Bool-cases (guid == e.guid)) [
  | inl q ↦
      let same = (==_iff guid e.guid).0 q in
      let gone = ap (λ g. lookup g slots (suc n)) same ∙ d in
      let all : suc n - 0 ≡ suc n = omega arith in
      rw (q, all)
        (
          shift_down_lem guid e slots (suc n) (omega arith) ∙ gone,
          λ r. shift_down_lem other e slots (suc n) (omega arith) ∙ ground (arith, q, r),
        )
  | inr q ↦
      let found : find_slot guid slots (suc n) < suc n = ground (arith, k, q) in
      let (gone, others) = remove_lem guid other slots n (omega arith) ds found in
      let count : suc n - suc (find_slot guid slots (suc n)) ≡ n - find_slot guid slots (suc n) =
        omega arith in
      rw (q, count, q) (gone, λ r. ground (arith, others r))
]

-- A write behind the entries that a reader sees.
pub set_behind :
    (guid id : ℕ) (new : Entry) (slots : List Entry) (n : ℕ)
    → n ≤ id
    → lookup guid (set slots id new) n ≡ lookup guid slots n
set_behind guid id new slots zero h = refl
set_behind guid id new [] (suc n) h = refl
set_behind guid zero new (e ∷ slots) (suc n) h = absurd (omega arith)
set_behind guid (suc id) new (e ∷ slots) (suc n) h =
    ground (arith, set_behind guid id new slots n (omega arith))

-- The same by the number of the entries before.
pub remove_lem_count :
    (guid other : ℕ) (slots : List Entry) (n : ℕ)
    → n ≤ length slots
    → Distinct slots n
    → find_slot guid slots n < n
    → (lookup guid
          (remove_slot slots (find_slot guid slots n) (n - 1 - find_slot guid slots n))
          (n - 1)
        ≡ none)
      × ((other == guid) ≡ false
          → lookup other
              (remove_slot slots (find_slot guid slots n) (n - 1 - find_slot guid slots n))
              (n - 1)
            ≡ lookup other slots n)
remove_lem_count guid other slots zero h d k = absurd (omega arith)
remove_lem_count guid other slots (suc n) h d k =
    let e : suc n - 1 ≡ n = omega arith in rw e (remove_lem guid other slots n h d k)
