-- ===== src/Linked/Inversions.antt =====
-- What a pass of list_sort (lib/general/list.c) does to the order of a sequence.
use mathlib.Core.List.{Perm}
use mathlib.Core.List.Perm
use efi_wrapper.Prelude.{
  ℕ, suc, ◌+◌, ◌≤◌, ◌≡◌, refl, ◌∙◌, Bool, true, false, inl, inr, [], ◌∷◌, length, if◌then◌else◌,
  arith, Bool-cases,
}
use efi_wrapper.Linked.Shape.{Cells, is_in}
use efi_wrapper.Linked.Passes.{bubble, moves, bubble_keep, bubble_swap, bubble_swap_last}

module _ (sorter : ℕ → ℕ → Bool) where
  -- How many of some nodes the sorter puts before the payload `d`.
  abbrev pub misplaced : ℕ → Cells → ℕ
  misplaced d [] = 0
  misplaced d ((q, k) ∷ xs) = (if sorter d k then 1 else 0) + misplaced d xs

  -- The pairs of nodes that stand in the wrong order.
  abbrev pub inversions : Cells → ℕ
  inversions [] = 0
  inversions ((p, d) ∷ xs) = misplaced d xs + inversions xs

  -- No node stands before one that the sorter puts before it, among neighbours.
  abbrev pub IsOrdered : Cells → Type 0
  IsOrdered [] = Unit
  IsOrdered ((p, d) ∷ []) = Unit
  IsOrdered ((p, d) ∷ (q, k) ∷ xs) = (sorter d k ≡ false) × IsOrdered ((q, k) ∷ xs)

  pub bubble-perm : (p d : ℕ) (xs : Cells) → Perm (bubble sorter p d xs) ((p, d) ∷ xs)
  unfolding bubble
  bubble-perm p d [] = Perm.rfl
  bubble-perm p d ((q, k) ∷ []) = elim (Bool-cases (sorter d k)) [
    | inl e ↦ rw e (Perm.swap (p, d) (q, k) [])
    | inr e ↦ rw e Perm.rfl
  ]
  bubble-perm p d ((q, k) ∷ (s, j) ∷ xs) = elim (Bool-cases (sorter d k)) [
    | inl e ↦ rw e (
        Perm.trans (Perm.cons (q, k) (Perm.cons (p, d) (bubble-perm s j xs)))
          (Perm.swap (p, d) (q, k) ((s, j) ∷ xs)))
    | inr e ↦ rw e (Perm.cons (p, d) (bubble-perm q k ((s, j) ∷ xs)))
  ]

  misplaced-bubble :
      (x p d : ℕ) (xs : Cells) → misplaced x (bubble sorter p d xs) ≡ misplaced x ((p, d) ∷ xs)
  unfolding bubble
  misplaced-bubble x p d [] = refl
  misplaced-bubble x p d ((q, k) ∷ []) = elim (Bool-cases (sorter d k)) [
    | inl e ↦ rw e (omega arith)
    | inr e ↦ rw e
  ]
  misplaced-bubble x p d ((q, k) ∷ (s, j) ∷ xs) = elim (Bool-cases (sorter d k)) [
    | inl e ↦ rw e (omega (arith, misplaced-bubble x s j xs))
    | inr e ↦ rw e (omega (arith, misplaced-bubble x q k ((s, j) ∷ xs)))
  ]

  pub is_in-bubble :
      (a p d : ℕ) (xs : Cells) → is_in a (bubble sorter p d xs) ≡ is_in a ((p, d) ∷ xs)
  unfolding bubble
  is_in-bubble a p d [] = refl
  is_in-bubble a p d ((q, k) ∷ []) = ground arith
  is_in-bubble a p d ((q, k) ∷ (s, j) ∷ xs) = elim (Bool-cases (sorter d k)) [
    | inl e ↦ rw (e, is_in-bubble a s j xs) (ground arith)
    | inr e ↦ rw (e, is_in-bubble a q k ((s, j) ∷ xs))
  ]

  pub length-bubble : (p d : ℕ) (xs : Cells) → length (bubble sorter p d xs) ≡ suc (length xs)
  unfolding bubble
  length-bubble p d [] = refl
  length-bubble p d ((q, k) ∷ []) = ground arith
  length-bubble p d ((q, k) ∷ (s, j) ∷ xs) =
      ground (arith, length-bubble s j xs, length-bubble q k ((s, j) ∷ xs))

  pub still-bubble :
      (p d : ℕ) (xs : Cells) → moves sorter d xs ≡ false → bubble sorter p d xs ≡ (p, d) ∷ xs
  unfolding bubble
  still-bubble p d [] still = refl
  still-bubble p d ((q, k) ∷ []) still = ground arith
  still-bubble p d ((q, k) ∷ (s, j) ∷ xs) still = ground (arith, still-bubble q k ((s, j) ∷ xs))

  pub still-IsOrdered : (p d : ℕ) (xs : Cells) → moves sorter d xs ≡ false → IsOrdered ((p, d) ∷ xs)
  still-IsOrdered p d [] still = tt
  still-IsOrdered p d ((q, k) ∷ xs) still = elim (Bool-cases (sorter d k)) [
    | inl e ↦ cc
    | inr e ↦ (e, still-IsOrdered q k xs (ground (arith, e)))
  ]

  module _ (asym : (a b : ℕ) → sorter a b ≡ true → sorter b a ≡ false) where
    pub inversions-bubble :
        (p d : ℕ) (xs : Cells)
        → inversions (bubble sorter p d xs) + (if moves sorter d xs then 1 else 0)
          ≤ inversions ((p, d) ∷ xs)
    inversions-bubble p d [] = unfold bubble in omega arith
    inversions-bubble p d ((q, k) ∷ []) = elim (Bool-cases (sorter d k)) [
      | inl e ↦ rw (bubble_swap_last sorter p d q k e, e, asym d k e) (omega arith)
      | inr e ↦ unfold bubble in ground (arith, e)
    ]
    inversions-bubble p d ((q, k) ∷ (s, j) ∷ xs) = elim (Bool-cases (sorter d k)) [
      | inl e ↦
          rw (bubble_swap sorter p d q k s j xs e, e, asym d k e)
            (omega (
              arith,
              inversions-bubble s j xs,
              misplaced-bubble d s j xs,
              misplaced-bubble k s j xs,
            ))
      | inr e ↦
          let same : misplaced d (bubble sorter q k ((s, j) ∷ xs)) ≡ misplaced d ((s, j) ∷ xs) =
            misplaced-bubble d q k ((s, j) ∷ xs) ∙ rw e (omega arith) in
          rw (bubble_keep sorter p d q k ((s, j) ∷ xs) e, e)
            (omega (arith, inversions-bubble q k ((s, j) ∷ xs), same))
    ]
