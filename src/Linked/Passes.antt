-- ===== src/Linked/Passes.antt =====
-- One pass of list_sort (lib/general/list.c), on the sequence that a list stands for.
use mathlib.Core.List.{reverse_aux}
use mathlib.Core.Bool.{or-false, or-true}
use efi_wrapper.Prelude.{
  ℕ, zero, suc, ◌≤◌, ◌<◌, ◌≡◌, refl, Bool, true, false, ◌||◌, ◌==◌, inl, inr, [], ◌∷◌, length,
  if◌then◌else◌, arith, Bool-cases,
}
use efi_wrapper.Linked.{Heap, done, pure}
use efi_wrapper.Linked.Sort.{pass_loop}
use efi_wrapper.Linked.Shape.{Cells, head_addr, IsList, IsAt, focus, load-Points}
use efi_wrapper.Linked.WalkLaws.{not_null}
use efi_wrapper.Linked.SwapLaws.{swapped, swapped-IsList, list_swap_neighbor-run}

module _ (sorter : ℕ → ℕ → Bool) where
  -- After a swap the pass goes on behind both nodes.
  unfoldable pub bubble : ℕ → ℕ → Cells → Cells
  bubble p d [] = (p, d) ∷ []
  bubble p d ((q, k) ∷ []) = if sorter d k then (q, k) ∷ (p, d) ∷ [] else (p, d) ∷ (q, k) ∷ []
  bubble p d ((q, k) ∷ (s, j) ∷ right) =
      let swapped = (q, k) ∷ (p, d) ∷ bubble s j right in
      let kept = (p, d) ∷ bubble q k ((s, j) ∷ right) in if sorter d k then swapped else kept

  -- Whether some neighbours are out of order.
  abbrev pub moves : ℕ → Cells → Bool
  moves d [] = false
  moves d ((q, k) ∷ right) = sorter d k || moves k right

  pub bubble_keep :
      (p d q k : ℕ) (right : Cells)
      → sorter d k ≡ false
      → bubble p d ((q, k) ∷ right) ≡ (p, d) ∷ bubble q k right
  unfolding bubble
  bubble_keep p d q k [] e = rw e
  bubble_keep p d q k ((s, j) ∷ right) e = rw e

  pub bubble_swap_last :
      (p d q k : ℕ) → sorter d k ≡ true → bubble p d ((q, k) ∷ []) ≡ (q, k) ∷ (p, d) ∷ []
  unfolding bubble
  bubble_swap_last p d q k e = rw e

  pub bubble_swap :
      (p d q k s j : ℕ) (right : Cells)
      → sorter d k ≡ true
      → bubble p d ((q, k) ∷ (s, j) ∷ right) ≡ (q, k) ∷ (p, d) ∷ bubble s j right
  unfolding bubble
  bubble_swap p d q k s j right e = rw e

  module _ (h : Heap) (fuel : ℕ) (changed : Bool) (left : Cells) (p d q k : ℕ) (right : Cells)
      (l : IsList h (reverse_aux left ((p, d) ∷ (q, k) ∷ right))) where
    step_keep :
        sorter d k ≡ false
        → pass_loop sorter (suc fuel) changed p h ≡ pass_loop sorter fuel changed q h
    unfolding pass_loop
    step_keep e =
        let z : IsAt h left p d ((q, k) ∷ right) = focus l in
        rw (load-Points h z.here, not_null q z.ahead.0.0, load-Points h z.ahead.0, e)

    swap_IsList :
        IsList (swapped h left p d q k right (focus l)) (reverse_aux left ((q, k) ∷ (p, d) ∷ right))
    swap_IsList = swapped-IsList h left p d q k right (focus l)

    step_swap :
        sorter d k ≡ true
        → let g = swapped h left p d q k right (focus l) in
          pass_loop sorter (suc fuel) changed p h
          ≡ (if head_addr right == 0
                then pure true
                else pass_loop sorter fuel true (head_addr right))
              g
    unfolding pass_loop
    step_swap e =
        let z : IsAt h left p d ((q, k) ∷ right) = focus l in
        let g = swapped h left p d q k right z in
        let z' : IsAt g ((q, k) ∷ left) p d right = focus swap_IsList in
        rw
          (
            load-Points h z.here,
            not_null q z.ahead.0.0,
            load-Points h z.ahead.0,
            e,
            list_swap_neighbor-run h left p d q k right z,
            load-Points g z'.here,
          )
          refl

  -- The rest of a pass behind the nodes that were swapped.
  abbrev Rest : ℕ → Cells → Type 0
  Rest fuel [] = Unit
  Rest fuel ((s, j) ∷ right) =
      (h : Heap) (left : Cells)
      → IsList h (reverse_aux left ((s, j) ∷ right))
      → (g : Heap) × (pass_loop sorter fuel true s h ≡ done true g)
        × IsList g (reverse_aux left (bubble s j right))

  next_pass :
      (fuel : ℕ)
      → ((h : Heap) (left : Cells) (s j : ℕ) (xs : Cells)
          → IsList h (reverse_aux left ((s, j) ∷ xs))
          → length xs < fuel
          → (g : Heap) × (pass_loop sorter fuel true s h ≡ done true g)
            × IsList g (reverse_aux left (bubble s j xs)))
      → (xs : Cells) → length xs ≤ fuel
      → Rest fuel xs
  next_pass fuel again [] le = tt
  next_pass fuel again ((s, j) ∷ xs) le = λ h left l. again h left s j xs l (omega arith)

  pass_swap :
      (h : Heap) (fuel : ℕ) (changed : Bool) (left : Cells) (p d q k : ℕ) (right : Cells)
      → Rest fuel right
      → (l : IsList h (reverse_aux left ((p, d) ∷ (q, k) ∷ right))) → sorter d k ≡ true
      → (g : Heap) × (pass_loop sorter (suc fuel) changed p h
          ≡ done (changed || moves d ((q, k) ∷ right)) g)
        × IsList g (reverse_aux left (bubble p d ((q, k) ∷ right)))
  pass_swap h fuel changed left p d q k [] rest l e = (
    swapped h left p d q k [] (focus l),
    rw (e, or-true changed) (step_swap h fuel changed left p d q k [] l e),
    rw (bubble_swap_last p d q k e) (swap_IsList h fuel changed left p d q k [] l),
  )
  pass_swap h fuel changed left p d q k ((s, j) ∷ right) rest l e =
      let l' = swap_IsList h fuel changed left p d q k ((s, j) ∷ right) l in
      let z : IsAt h left p d ((q, k) ∷ (s, j) ∷ right) = focus l in
      let (g, run, l'') =
        rest (swapped h left p d q k ((s, j) ∷ right) z) ((p, d) ∷ (q, k) ∷ left) l' in
      (
        g,
        rw
            (
              e,
              or-true changed,
              step_swap h fuel changed left p d q k ((s, j) ∷ right) l e,
              not_null s z.ahead.1.0.0,
            )
            run,
        rw (bubble_swap p d q k s j right e) l'',
      )

  pub pass_loop-bubble :
      (h : Heap) (fuel : ℕ) (changed : Bool) (left : Cells) (p d : ℕ) (right : Cells)
      → IsList h (reverse_aux left ((p, d) ∷ right))
      → length right < fuel
      → (g : Heap) × (pass_loop sorter fuel changed p h ≡ done (changed || moves d right) g)
        × IsList g (reverse_aux left (bubble p d right))
  pass_loop-bubble h zero changed left p d right l f = absurd (omega arith)
  pass_loop-bubble h (suc fuel) changed left p d [] l f =
      let z : IsAt h left p d [] = focus l in
      (h, unfold pass_loop in rw (load-Points h z.here) (rw (or-false changed)), unfold bubble in l)
  pass_loop-bubble h (suc fuel) changed left p d ((q, k) ∷ right) l f =
      elim (Bool-cases (sorter d k)) [
        | inr e ↦
            let (g, run, l') =
              pass_loop-bubble h fuel changed ((p, d) ∷ left) q k right l (omega arith) in
            (
              g,
              rw (e, step_keep h fuel changed left p d q k right l e) run,
              rw (bubble_keep p d q k right e) l',
            )
        | inl e ↦
            pass_swap h fuel changed left p d q k right
              (next_pass fuel (λ h' left' s j xs. pass_loop-bubble h' fuel true left' s j xs) right
                (omega arith))
              l e
      ]
