-- ===== src/Ustr/Copy.antt =====
-- lib/efi/char16.c and include/efi/efi_string.h: copying and joining strings. A buffer is seen as
-- the string that it holds; what stands behind the terminator is not modelled.
use efi_wrapper.Prelude.{
  ℕ, zero, suc, ◌+◌, ◌-◌, ◌<◌, ◌≤◌, ◌≡◌, ◌↔◌, refl, ap, ◌∙◌, ◌==◌, some, [], ◌∷◌, ◌++◌, take,
  length, length-take, if◌then◌else◌, arith, min, ltb, Bool-cases, inl, inr,
}
use efi_wrapper.Ustr.{Ustr, ustrlen, ustrnlen}

-- The loop `for(;n&&(*dest=*src);n--,src++,dest++);`: what was written, and the rest of `src`.
copy_loop : Ustr → ℕ → Ustr × Ustr
copy_loop s zero = ([], s)
copy_loop [] (suc n) = ([], [])
copy_loop (c ∷ s) (suc n) = let (written, rest) = copy_loop s n in (c ∷ written, rest)

-- The string in `dest` afterwards, and the result.
unfoldable pub ustrlcpy : Ustr → Ustr → ℕ → Ustr × ℕ
unfolding copy_loop ustrlen
ustrlcpy dest src zero = (dest, ustrlen (some src))
ustrlcpy dest src (suc n) =
    let (written, rest) = copy_loop src n in (written, length written + ustrlen (some rest))

-- The buffer at `dest+l` holds the empty string before the copy, since l is the length of `dest`.
unfoldable pub ustrlcat : Ustr → Ustr → ℕ → Ustr × ℕ
ustrlcat dest src n =
    let l = ustrnlen (some dest) n in
    let (added, r) = ustrlcpy [] src (n - l) in
    if l == n then (dest, l + ustrlen (some src)) else (dest ++ added, l + r)

-- `while(n&&*src)n--,*dest++=*src++;` at the end of `dest`.
unfoldable pub ustrncat : Ustr → Ustr → ℕ → Ustr
unfolding copy_loop
ustrncat dest src n = dest ++ (copy_loop src n).0

unfoldable pub ustrcpy : Ustr → Ustr
ustrcpy [] = []
ustrcpy (c ∷ s) = c ∷ ustrcpy s

unfoldable pub ustrcat : Ustr → Ustr → Ustr
unfolding ustrcpy
ustrcat dest src = dest ++ ustrcpy src

copy_loop_lem :
    (s : Ustr) (n : ℕ)
    → ((copy_loop s n).0 ≡ take n s)
      × (length (copy_loop s n).0 + length (copy_loop s n).1 ≡ length s)
unfolding copy_loop
copy_loop_lem s zero = (refl, omega arith)
copy_loop_lem [] (suc n) = (refl, refl)
copy_loop_lem (c ∷ s) (suc n) =
    (ap (◌∷◌ c) (copy_loop_lem s n).0, omega (arith, (copy_loop_lem s n).1))

take_all : (n : ℕ) (s : Ustr) → length s ≤ n → take n s ≡ s
take_all zero [] h = refl
take_all zero (c ∷ s) h = absurd (omega arith)
take_all (suc n) [] h = refl
take_all (suc n) (c ∷ s) h = ap (◌∷◌ c) (take_all n s (omega arith))

-- With room for n units and the terminator the copy is the first n units of the source, and the
-- result is the length of the source: it is below the size exactly if nothing was cut off.
pub ustrlcpy_lem :
    (dest src : Ustr) (n : ℕ)
    → ((ustrlcpy dest src (suc n)).0 ≡ take n src)
      × ((ustrlcpy dest src (suc n)).1 ≡ length src)
      × (((ustrlcpy dest src (suc n)).1 < suc n) ↔ ((ustrlcpy dest src (suc n)).0 ≡ src))
      × (ustrlcpy dest src 0 ≡ (dest, length src))
unfolding ustrlcpy
ustrlcpy_lem dest src n =
    let (copied, total) = copy_loop_lem src n in
    (
      copied,
      total,
      (
        λ h. copied ∙ take_all n src (omega arith),
        λ e. omega (arith, ap length copied, ap length e, length-take n src),
      ),
      refl,
    )

ustrnlen_lem : (s : Ustr) (n : ℕ) → ustrnlen (some s) n ≡ min n (length s)
unfolding ustrnlen
ustrnlen_lem [] n = omega arith
ustrnlen_lem (c ∷ s) zero = omega arith
ustrnlen_lem (c ∷ s) (suc n) = omega (arith, ustrnlen_lem s n)

ustrlcat_fits :
    (dest src : Ustr) (n : ℕ)
    → length dest < n
    → ustrlcat dest src n ≡ (dest ++ take (n - length dest - 1) src, length dest + length src)
unfolding ustrlcat
ustrlcat_fits dest src n h =
    let e : ustrnlen (some dest) n ≡ length dest = omega (arith, ustrnlen_lem dest n) in
    let room = n - length dest - 1 in
    let f : n - length dest ≡ suc room = omega arith in
    let (copied, total, _, _) = ustrlcpy_lem [] src room in rw (e, f, copied, total) (ground arith)

ustrlcat_full :
    (dest src : Ustr) (n : ℕ) → n ≤ length dest → ustrlcat dest src n ≡ (dest, n + length src)
unfolding ustrlcat ustrlen
ustrlcat_full dest src n h = ground (arith, ustrnlen_lem dest n)

-- Where the string at the buffer leaves room for a terminator, joining keeps it, adds what fits of
-- the source, and returns the length of the whole string that it tried to make; a buffer that is
-- full is left alone, and the result is its size and the length of the source.
pub ustrlcat_lem :
    (dest src : Ustr) (n : ℕ)
    → ustrlcat dest src n ≡ (
        if ltb (length dest) n
        then (dest ++ take (n - length dest - 1) src, length dest + length src)
        else (dest, n + length src))
ustrlcat_lem dest src n = elim (Bool-cases (ltb (length dest) n)) [
  | inl e ↦ rw e (ustrlcat_fits dest src n (ground (arith, e)))
  | inr e ↦ rw e (ustrlcat_full dest src n (ground (arith, e)))
]
