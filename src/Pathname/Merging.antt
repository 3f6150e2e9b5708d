-- ===== src/Pathname/Merging.antt =====
-- path_merge (lib/general/path.c) reads nothing outside its local buffer.
use efi_wrapper.Prelude.{
  ℕ, zero, suc, ◌+◌, ◌-◌, ◌≤◌, ◌≡◌, refl, ap, Bool, true, false, ◌&&◌, ◌||◌, ◌==◌, ltb, none, some,
  List, [], ◌∷◌, ◌++◌, length, length-take, take, replicate, if◌then◌else◌, arith, Bool-cases, inl,
  inr,
}
use efi_wrapper.Pathname.{
  slash, dot, is_sep, Output, at_start, put, leave, after_dot, after_dots, Round, ends, outside,
  passes, resolve_round, resolve_loop, path_merge, text_of, strlcat, joined, joined_size,
}

-- No null byte.
abbrev IsText : List ℕ → Type 0
IsText [] = Unit
IsText (c ∷ text) = ((c == 0) ≡ false) × IsText text

abbrev padded : List ℕ → ℕ → List ℕ
padded text padding = text ++ replicate (suc (suc padding)) 0

-- A round passes over no more than some number of bytes.
abbrev Within : ℕ → Round → Type 0
Within bound ends = Unit
Within bound outside = ⊥
Within bound (passes skip out) = skip ≤ bound

Within-if :
    (b : Bool) (bound : ℕ) (x y : Round)
    → Within bound x
    → Within bound y
    → Within bound (if b then x else y)
Within-if true bound x y v w = v
Within-if false bound x y v w = w

Within-after_dots :
    (sep padding : ℕ) (out : Output) (text : List ℕ)
    → IsText text
    → Within (length text + 2) (after_dots sep out (padded text padding))
Within-after_dots sep padding out [] v =
    Within-if (is_sep 0 || 0 == 0) 2 _ _ (omega arith) (omega arith)
Within-after_dots sep padding out (e ∷ text) v =
    Within-if (is_sep e || e == 0) _ (passes 2 (leave sep out)) (passes 0 (put dot out))
      (omega arith) (omega arith)

Within-after_dot :
    (sep padding : ℕ) (out : Output) (text : List ℕ)
    → IsText text
    → Within (length text + 1) (after_dot sep out (padded text padding))
Within-after_dot sep padding out [] v =
    Within-if (is_sep 0 || 0 == 0) 1 _ _ (omega arith) (omega arith)
Within-after_dot sep padding out (d ∷ text) (e, v) =
    let bound : length text + 2 ≡ suc (length text) + 1 = omega arith in
    Within-if (is_sep d || d == 0) _ _ _ (omega arith) (
      Within-if (d == dot) _ _ _ (rw (← bound) (Within-after_dots sep padding out text v))
        (omega arith))

Within-round :
    (sep padding : ℕ) (out : Output) (c : ℕ) (text : List ℕ)
    → IsText text
    → Within (length text + 1) (resolve_round sep out (c ∷ padded text padding))
unfolding resolve_round
Within-round sep padding out c text v = Within-if (out.size == 0 || c == 0) _ _ _ tt (
    Within-if (is_sep c) _ _ _ (omega arith) (
      Within-if (c == dot && at_start out.written) _ _ _ (Within-after_dot sep padding out text v)
        (omega arith)))

-- One step of the loop at a byte.
loop-round :
    (sep : ℕ) (out : Output) (c : ℕ) (path : List ℕ) (bound : ℕ)
    → Within bound (resolve_round sep out (c ∷ path))
    → ((skip : ℕ) (more : Output)
        → skip ≤ bound
        → (found : List ℕ) × (resolve_loop sep skip more path ≡ some found))
    → (found : List ℕ) × (resolve_loop sep 0 out (c ∷ path) ≡ some found)
unfolding resolve_loop
loop-round sep out c path bound w go = go_on (resolve_round sep out (c ∷ path)) w
  where
    go_on :
        (r : Round)
        → Within bound r
        → (found : List ℕ) × ((elim r [
          | ends ↦ some out.written
          | outside ↦ none
          | passes skip more ↦ resolve_loop sep skip more path
        ])
            ≡ some found)
    go_on ends h = (out.written, refl)
    go_on outside h = elim h [ ]
    go_on (passes skip more) h = go skip more h

loop-padded :
    (sep padding : ℕ) (text : List ℕ) (skip : ℕ) (out : Output)
    → IsText text
    → skip ≤ length text + 1
    → (found : List ℕ) × (resolve_loop sep skip out (padded text padding) ≡ some found)
unfolding resolve_loop resolve_round
loop-padded sep padding [] zero out v h = elim (Bool-cases (out.size == 0)) [
  | inl e ↦ (out.written, ground (arith, e))
  | inr e ↦ (out.written, ground (arith, e))
]
loop-padded sep padding [] (suc zero) out v h = elim (Bool-cases (out.size == 0)) [
  | inl e ↦ (out.written, ground (arith, e))
  | inr e ↦ (out.written, ground (arith, e))
]
loop-padded sep padding [] (suc (suc skip)) out v h = absurd (omega (arith, h))
loop-padded sep padding (c ∷ text) (suc skip) out (e, v) h =
    loop-padded sep padding text skip out v (omega (arith, h))
loop-padded sep padding (c ∷ text) zero out (e, v) h =
    loop-round sep out c (padded text padding) (length text + 1)
      (Within-round sep padding out c text v)
      (λ skip more le. loop-padded sep padding text skip more v le)

IsText-text_of : (path : List ℕ) → IsText (text_of path)
unfolding text_of
IsText-text_of [] = tt
IsText-text_of (c ∷ path) = elim (Bool-cases (c == 0)) [
  | inl e ↦ rw e tt
  | inr e ↦ rw e (e, IsText-text_of path)
]

IsText-append : (a b : List ℕ) → IsText a → IsText b → IsText (a ++ b)
IsText-append [] b v w = w
IsText-append (c ∷ a) b (e, v) w = (e, IsText-append a b v w)

IsText-take : (n : ℕ) (a : List ℕ) → IsText a → IsText (take n a)
IsText-take zero a v = tt
IsText-take (suc n) [] v = tt
IsText-take (suc n) (c ∷ a) (e, v) = (e, IsText-take n a v)

strlcat_lem :
    (n : ℕ) (dst src : List ℕ)
    → IsText dst
    → IsText src
    → length dst ≤ n
    → IsText (strlcat (suc n) dst src) × (length (strlcat (suc n) dst src) ≤ n)
strlcat_lem n dst src v w h =
    let e : ltb (length dst) (suc n) ≡ true = ground (arith, h) in
    let same : suc n - 1 ≡ n = omega arith in
    rw (e, same)
      (
        IsText-take n (dst ++ src) (IsText-append dst src v w),
        omega (arith, length-take n (dst ++ src)),
      )

joined-padded :
    (path1 path2 : List ℕ)
    → (text : List ℕ) × (padding : ℕ) × (joined path1 path2 ≡ padded text padding) × IsText text
unfolding joined
joined-padded path1 path2 =
    let one = strlcat_lem 8190 [] (text_of path1) tt (IsText-text_of path1) (omega arith) in
    let two =
      strlcat_lem 8190 (strlcat 8191 [] (text_of path1)) (slash ∷ []) one.0 (refl, tt) one.1 in
    let dst = strlcat 8191 (strlcat 8191 [] (text_of path1)) (slash ∷ []) in
    let three = strlcat_lem 8190 dst (text_of path2) two.0 (IsText-text_of path2) two.1 in
    let text = strlcat 8191 dst (text_of path2) in
    let room : joined_size - length text ≡ suc (suc (8190 - length text)) =
      omega (arith, three.1) in
    (text, 8190 - length text, ap (λ k. text ++ replicate k 0) room, three.0)

-- Merging two paths gives a text whatever they hold, for every buffer and every separator: the
-- merged bytes are never read behind their end.
pub path_merge-inside :
    (size sep : ℕ) (path1 path2 : List ℕ)
    → (found : List ℕ) × (path_merge size sep (some path1) (some path2) ≡ some found)
path_merge-inside size sep path1 path2 = elim (Bool-cases (size == 0)) [
  | inl e ↦ ([], rw e refl)
  | inr e ↦
      let (text, padding, same, v) = joined-padded path1 path2 in
      let (found, r) =
        loop-padded (if sep == 0 then slash else sep) padding text 0
          (record { written = []; size = size }) v (omega arith) in
      (found, rw (e, same) r)
]
