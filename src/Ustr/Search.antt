-- ===== src/Ustr/Search.antt =====
-- lib/efi/char16.c: ustrstr, ustrcasestr, ustrchrnul, and ustrchr of include/efi/efi_string.h.
use efi_wrapper.Prelude.{
  ℕ, zero, suc, ◌<◌, ◌≤◌, ◌≡◌, ◌⊎◌, inl, inr, refl, sym, ap, ◌∙◌, Bool, true, false, ◌&&◌, ◌==◌,
  ltb, Option, none, some, [], ◌∷◌, length, if◌then◌else◌, arith, Bool-cases,
}
use efi_wrapper.Prelude.Int.{ℤ, pos, negsuc}
use efi_wrapper.Ustr.{Ustr, IsUstr, unit_at, ustrlen}
use efi_wrapper.Ustr.Compare.{ustrncasecmp}

-- `while(*str==*tmp&&*str)str++,tmp++;`: what is left of both.
skip_common : Ustr → Ustr → Ustr × Ustr
skip_common (a ∷ s) (b ∷ t) = if a == b then skip_common s t else (a ∷ s, b ∷ t)
skip_common s t = (s, t)

-- What the body of the loop does at one match position, given the result of the later rounds.
str_round : Ustr → Ustr × Ustr → Option Ustr → Option Ustr
str_round here (rest, []) later = some here
str_round here ([], b ∷ t) later = none
str_round here (a ∷ s, b ∷ t) later = later

str_loop : Ustr → Ustr → Option Ustr
str_loop [] key = none
str_loop (c ∷ s) key =
    let later = str_loop s key in str_round (c ∷ s) (skip_common (c ∷ s) key) later

str_from : Ustr → Ustr → Option Ustr
unfolding str_loop skip_common str_round
str_from [] key = some []
str_from (c ∷ s) [] = some (c ∷ s)
str_from (c ∷ s) (k ∷ key) = str_loop (c ∷ s) (k ∷ key)

unfoldable pub ustrstr : Option Ustr → Option Ustr → Option Ustr
unfolding str_from
ustrstr none key = none
ustrstr (some s) none = none
ustrstr (some s) (some key) = str_from s key

is_pos_zero : ℤ → Bool
is_pos_zero (pos zero) = true
is_pos_zero (pos (suc n)) = false
is_pos_zero (negsuc n) = false

casestr_loop : Ustr → Option Ustr → ℕ → Option Ustr
casestr_loop [] key len = none
casestr_loop (c ∷ s) key len =
    if is_pos_zero (ustrncasecmp (some (c ∷ s)) key len)
    then some (c ∷ s)
    else casestr_loop s key len

unfoldable pub ustrcasestr : Ustr → Option Ustr → Option Ustr
unfolding casestr_loop is_pos_zero
ustrcasestr s key = casestr_loop s key (ustrlen key)

-- `*(uchar16*)str!=c` with a signed `c`: from 0x8000 on `c` is negative and differs from all.
same_unit : ℕ → ℕ → Bool
same_unit u c = ltb c 0x8000 && u == c

chr_loop : Ustr → ℕ → Ustr
chr_loop [] c = []
chr_loop (u ∷ s) c = if same_unit u c then u ∷ s else chr_loop s c

unfoldable pub ustrchrnul : Ustr → ℕ → Ustr
unfolding chr_loop same_unit
ustrchrnul s c = if c == 0 then [] else chr_loop s c

unfoldable pub ustrchr : Ustr → ℕ → Option Ustr
unfolding ustrchrnul
ustrchr s c = let r = ustrchrnul s c in if unit_at r == c then some r else none

-- The specification: `key` is a prefix of `s`, and the first rest of `s` that has it.
abbrev pub is_prefix : Ustr → Ustr → Bool
is_prefix [] s = true
is_prefix (k ∷ key) [] = false
is_prefix (k ∷ key) (c ∷ s) = c == k && is_prefix key s

abbrev pub first_match : Ustr → Ustr → Option Ustr
first_match key [] = none
first_match key (c ∷ s) = if is_prefix key (c ∷ s) then some (c ∷ s) else first_match key s

skip_common_found :
    (s key here : Ustr) (later : Option Ustr)
    → is_prefix key s ≡ true
    → str_round here (skip_common s key) later ≡ some here
unfolding skip_common str_round
skip_common_found [] [] here later h = refl
skip_common_found (c ∷ s) [] here later h = refl
skip_common_found [] (k ∷ key) here later h = cc
skip_common_found (c ∷ s) (k ∷ key) here later h =
    ground (arith, skip_common_found s key here later)

abbrev Missed : Ustr → Ustr → Option Ustr → Option Ustr → Type 0
Missed s key later r = (r ≡ later) ⊎ ((r ≡ none) × (length s < length key))

skip_common-Missed :
    (s key here : Ustr) (later : Option Ustr)
    → is_prefix key s ≡ false
    → Missed s key later (str_round here (skip_common s key) later)
unfolding skip_common str_round
skip_common-Missed [] [] here later h = cc
skip_common-Missed (c ∷ s) [] here later h = cc
skip_common-Missed [] (k ∷ key) here later h = inr (refl, omega arith)
skip_common-Missed (c ∷ s) (k ∷ key) here later h =
    ground (arith, skip_common-Missed s key here later)

is_prefix_short : (key s : Ustr) → length s < length key → is_prefix key s ≡ false
is_prefix_short [] s h = absurd (omega arith)
is_prefix_short (k ∷ key) [] h = refl
is_prefix_short (k ∷ key) (c ∷ s) h = ground (arith, is_prefix_short key s (omega arith))

first_match_short : (key s : Ustr) → length s < length key → first_match key s ≡ none
first_match_short key [] h = refl
first_match_short key (c ∷ s) h =
    rw (is_prefix_short key (c ∷ s) h) (first_match_short key s (omega arith))

eq_of_Missed :
    (c : ℕ) (s key : Ustr) {later r : Option Ustr}
    → Missed (c ∷ s) key later r
    → later ≡ first_match key s
    → r ≡ first_match key s
eq_of_Missed c s key (inl e) ih = e ∙ ih
eq_of_Missed c s key (inr (e, short)) ih = e ∙ sym (first_match_short key s (omega arith))

str_loop-eq-first_match :
    (s : Ustr) (k : ℕ) (key : Ustr) → str_loop s (k ∷ key) ≡ first_match (k ∷ key) s
unfolding str_loop
str_loop-eq-first_match [] k key = refl
str_loop-eq-first_match (c ∷ s) k key = elim (Bool-cases (is_prefix (k ∷ key) (c ∷ s))) [
  | inl e ↦ rw e (skip_common_found (c ∷ s) (k ∷ key) (c ∷ s) (str_loop s (k ∷ key)) e)
  | inr e ↦ rw e (
      eq_of_Missed c s (k ∷ key)
        (skip_common-Missed (c ∷ s) (k ∷ key) (c ∷ s) (str_loop s (k ∷ key)) e)
        (str_loop-eq-first_match s k key))
]

-- On a string that is not empty, `ustrstr` gives what a search place by place gives: the first
-- place where the key stands, or null if it stands nowhere.
pub ustrstr-eq-first_match :
    (c : ℕ) (s key : Ustr) → ustrstr (some (c ∷ s)) (some key) ≡ first_match key (c ∷ s)
unfolding ustrstr
ustrstr-eq-first_match c s [] = refl
ustrstr-eq-first_match c s (k ∷ key) = str_loop-eq-first_match (c ∷ s) k key

-- In the empty string every key is found, also one that is not empty.
ustrstr_of_empty : (key : Ustr) → ustrstr (some []) (some key) ≡ some []
unfolding ustrstr
ustrstr_of_empty [] = refl
ustrstr_of_empty (k ∷ key) = refl

-- The specification of `ustrchr`: the rest of the string from the first `c` on.
abbrev pub first_unit : Ustr → ℕ → Option Ustr
first_unit [] c = none
first_unit (u ∷ s) c = if u == c then some (u ∷ s) else first_unit s c

ustrchr_ranges :
    (s : Ustr) (c : ℕ)
    → IsUstr s
    → (0 < c → c < 0x8000 → ustrchr s c ≡ first_unit s c)
      × (ustrchr s 0 ≡ some [])
      × (0x8000 ≤ c → ustrchr s c ≡ none)
unfolding ustrchr
ustrchr_ranges [] c u = (ground arith, ground arith, ground arith)
ustrchr_ranges (x ∷ s) c u =
    let (low, nul, high) = ustrchr_ranges s c u.2 in (ground arith, ground arith, ground arith)

-- `ustrchr` finds the first unit that is `c`, for a `c` from 1 to 0x7fff; for c = 0 it finds the
-- terminator; and from 0x8000 on it finds nothing, also where the string has the unit.
pub ustrchr_by_range :
    (s : Ustr) (c : ℕ)
    → IsUstr s
    → ustrchr s c ≡ (if c == 0 then some [] else if ltb c 0x8000 then first_unit s c else none)
ustrchr_by_range s c u = elim (Bool-cases (c == 0)) [
  | inl z ↦
      let zero_unit : c ≡ 0 = ground (arith, z) in
      rw z (ap (ustrchr s) zero_unit ∙ (ustrchr_ranges s c u).1)
  | inr z ↦ elim (Bool-cases (ltb c 0x8000)) [
    | inl l ↦ rw (z, l) ((ustrchr_ranges s c u).0 (ground (arith, z)) (ground (arith, l)))
    | inr l ↦ rw (z, l) ((ustrchr_ranges s c u).2 (ground (arith, l)))
  ]
]
