-- ===== src/Ustr/Compare.antt =====
-- lib/efi/char16.c: ustrcmp, ustrncmp, ustrcasecmp, ustrncasecmp.
use efi_wrapper.Prelude.{
  ℕ, zero, suc, ◌<◌, ◌≡◌, ◌↔◌, refl, ap, ◌==◌, Option, some, List, [], ◌∷◌, map, take,
  if◌then◌else◌, arith,
}
use efi_wrapper.Prelude.Int.{ℤ, pos, negsuc}
use efi_wrapper.Ustr.{Ustr, IsUstr, unit_at, int16_sub}
use efi_wrapper.Ustr.Class.{utoupper}

-- The loop `while(*str1&&*str2&&f(*str1)==f(*str2))` and the difference after it.
module _ (f : ℕ → ℕ) where
  pub cmp_loop : Ustr → Ustr → ℤ
  cmp_loop (a ∷ s) (b ∷ t) = if f a == f b then cmp_loop s t else int16_sub (f a) (f b)
  cmp_loop s t = int16_sub (f (unit_at s)) (f (unit_at t))

  -- The same loop with `&&len>1` and `len--`; the first argument is len - 1.
  pub ncmp_loop : ℕ → Ustr → Ustr → ℤ
  ncmp_loop k [] t = int16_sub (f 0) (f (unit_at t))
  ncmp_loop k (a ∷ s) [] = int16_sub (f a) (f 0)
  ncmp_loop zero (a ∷ s) (b ∷ t) = int16_sub (f a) (f b)
  ncmp_loop (suc k) (a ∷ s) (b ∷ t) = if f a == f b then ncmp_loop k s t else int16_sub (f a) (f b)

-- `ustrsize` is 0 for a null pointer alone.
unfoldable pub ustrcmp : Option Ustr → Option Ustr → ℤ
ustrcmp (some s) (some t) = cmp_loop (λ c. c) s t
ustrcmp str1 str2 = negsuc 0

unfoldable pub ustrncmp : Option Ustr → Option Ustr → ℕ → ℤ
ustrncmp str1 str2 zero = pos 0
ustrncmp (some s) (some t) (suc k) = ncmp_loop (λ c. c) k s t
ustrncmp str1 str2 (suc k) = negsuc 0

unfoldable pub ustrcasecmp : Option Ustr → Option Ustr → ℤ
ustrcasecmp (some s) (some t) = cmp_loop utoupper s t
ustrcasecmp str1 str2 = negsuc 0

unfoldable pub ustrncasecmp : Option Ustr → Option Ustr → ℕ → ℤ
ustrncasecmp str1 str2 zero = pos 0
ustrncasecmp (some s) (some t) (suc k) = ncmp_loop utoupper k s t
ustrncasecmp str1 str2 (suc k) = negsuc 0

int16_sub-eq-zero : (a b : ℕ) → a < 0x10000 → b < 0x10000 → (int16_sub a b ≡ pos 0) ↔ (a ≡ b)
unfolding int16_sub
int16_sub-eq-zero a b ha hb = ground arith

-- A map of units keeps a string a string.
abbrev KeepsUnits : (ℕ → ℕ) → Type 0
KeepsUnits f = (f 0 ≡ 0) × ((c : ℕ) → 0 < c → c < 0x10000 → (0 < f c) × (f c < 0x10000))

module _ (f : ℕ → ℕ) (keeps : KeepsUnits f) where
  cmp_loop-eq-zero :
      (s t : Ustr) → IsUstr s → IsUstr t → (cmp_loop f s t ≡ pos 0) ↔ (map f s ≡ map f t)
  unfolding cmp_loop
  cmp_loop-eq-zero [] [] hs ht = ground (arith, int16_sub-eq-zero (f 0) (f 0), keeps.0)
  cmp_loop-eq-zero [] (b ∷ t) hs ht =
      ground (arith, int16_sub-eq-zero (f 0) (f b), keeps.0, keeps.1 b ht.0 ht.1)
  cmp_loop-eq-zero (a ∷ s) [] hs ht =
      ground (arith, int16_sub-eq-zero (f a) (f 0), keeps.0, keeps.1 a hs.0 hs.1)
  cmp_loop-eq-zero (a ∷ s) (b ∷ t) hs ht = ground (
    arith,
    int16_sub-eq-zero (f a) (f b),
    keeps.1 a hs.0 hs.1,
    keeps.1 b ht.0 ht.1,
    cmp_loop-eq-zero s t hs.2 ht.2,
  )

  ncmp_loop-eq-zero :
      (k : ℕ) (s t : Ustr)
      → IsUstr s
      → IsUstr t
      → (ncmp_loop f k s t ≡ pos 0) ↔ (map f (take (suc k) s) ≡ map f (take (suc k) t))
  unfolding ncmp_loop
  ncmp_loop-eq-zero zero [] [] hs ht = ground (arith, int16_sub-eq-zero (f 0) (f 0), keeps.0)
  ncmp_loop-eq-zero k [] [] hs ht = ground (arith, int16_sub-eq-zero (f 0) (f 0), keeps.0)
  ncmp_loop-eq-zero k [] (b ∷ t) hs ht =
      ground (arith, int16_sub-eq-zero (f 0) (f b), keeps.0, keeps.1 b ht.0 ht.1)
  ncmp_loop-eq-zero k (a ∷ s) [] hs ht =
      ground (arith, int16_sub-eq-zero (f a) (f 0), keeps.0, keeps.1 a hs.0 hs.1)
  ncmp_loop-eq-zero zero (a ∷ s) (b ∷ t) hs ht =
      ground (arith, int16_sub-eq-zero (f a) (f b), keeps.1 a hs.0 hs.1, keeps.1 b ht.0 ht.1)
  ncmp_loop-eq-zero (suc k) (a ∷ s) (b ∷ t) hs ht = ground (
    arith,
    int16_sub-eq-zero (f a) (f b),
    keeps.1 a hs.0 hs.1,
    keeps.1 b ht.0 ht.1,
    ncmp_loop-eq-zero k s t hs.2 ht.2,
  )

utoupper-keeps : KeepsUnits utoupper
unfolding utoupper
utoupper-keeps = (refl, λ c h k. (ground arith, ground arith))

map_self : (s : List ℕ) → map (λ c. c) s ≡ s
map_self [] = refl
map_self (c ∷ s) = ap (◌∷◌ c) (map_self s)

self-keeps : KeepsUnits (λ c. c)
self-keeps = (refl, λ c h k. (h, k))

-- Two strings compare as equal exactly if they are the same string; so `ustrncmp` of their
-- first n units, for n above 0.
pub ustrcmp_iff :
    (s t : Ustr) (n : ℕ)
    → IsUstr s
    → IsUstr t
    → 0 < n
    → ((ustrcmp (some s) (some t) ≡ pos 0) ↔ (s ≡ t))
      × ((ustrncmp (some s) (some t) n ≡ pos 0) ↔ (take n s ≡ take n t))
unfolding ustrcmp ustrncmp
ustrcmp_iff s t zero hs ht h = absurd (omega arith)
ustrcmp_iff s t (suc k) hs ht h = (
  rw (map_self s, map_self t) at (cmp_loop-eq-zero (λ c. c) self-keeps s t hs ht),
  rw (map_self (take (suc k) s), map_self (take (suc k) t)) at
      (ncmp_loop-eq-zero (λ c. c) self-keeps k s t hs ht),
)

-- The comparisons without case do so after the change to upper case.
pub ustrcasecmp_iff :
    (s t : Ustr) (n : ℕ)
    → IsUstr s
    → IsUstr t
    → 0 < n
    → ((ustrcasecmp (some s) (some t) ≡ pos 0) ↔ (map utoupper s ≡ map utoupper t))
      × ((ustrncasecmp (some s) (some t) n ≡ pos 0)
          ↔ (map utoupper (take n s) ≡ map utoupper (take n t)))
unfolding ustrcasecmp ustrncasecmp
ustrcasecmp_iff s t zero hs ht h = absurd (omega arith)
ustrcasecmp_iff s t (suc k) hs ht h = (
  cmp_loop-eq-zero utoupper utoupper-keeps s t hs ht,
  ncmp_loop-eq-zero utoupper utoupper-keeps k s t hs ht,
)
