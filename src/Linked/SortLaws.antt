-- ===== src/Linked/SortLaws.antt =====
-- list_sort of lib/general/list.c ends, and what it leaves.
use mathlib.Core.List.{reverse_aux, Perm}
use mathlib.Core.List.Perm
use mathlib.Core.Path.{subst}
use efi_wrapper.Prelude.{
  ℕ, zero, suc, ◌+◌, ◌≤◌, ◌<◌, ◌≡◌, ◌≢◌, refl, sym, ◌∙◌, ap, Bool, true, false, ◌==◌, inl, inr, [],
  ◌∷◌, length, arith, Bool-cases,
}
use efi_wrapper.Linked.{Heap, done, at}
use efi_wrapper.Linked.Walk.{list_first}
use efi_wrapper.Linked.Sort.{sort_loop, list_sort}
use efi_wrapper.Linked.Shape.{Cells, head_addr, is_in, IsList, focus}
use efi_wrapper.Linked.WalkLaws.{not_null, list_first-IsAt, last_addr, head-reverse_aux}
use efi_wrapper.Linked.Passes.{bubble, moves, pass_loop-bubble}
use efi_wrapper.Linked.Inversions.{
  inversions, IsOrdered, bubble-perm, is_in-bubble, length-bubble, still-bubble, still-IsOrdered,
  inversions-bubble,
}

-- A list seen from the node at `a`.
record SplitAt (a : ℕ) (left xs : Cells) : Type 0 where
  before : Cells
  payload : ℕ
  behind : Cells
  whole : reverse_aux left xs ≡ reverse_aux before ((a, payload) ∷ behind)
  count : length before + length behind + 1 ≡ length left + length xs

split_at : (a : ℕ) (left xs : Cells) → is_in a xs ≡ true → SplitAt a left xs
split_at a left [] i = cc
split_at a left ((p, d) ∷ xs) i = elim (Bool-cases (a == p)) [
  | inl e ↦
      let same : a ≡ p = ground (arith, e) in
      record { before = left; payload = d; behind = xs; whole = rw same refl; count = omega arith }
  | inr e ↦
      let s = split_at a ((p, d) ∷ left) xs (ground (arith, e)) in
      record {
        before = s.before;
        payload = s.payload;
        behind = s.behind;
        whole = s.whole;
        count = omega (arith, s.count);
      }
]

-- From any node of a list list_first finds the first one.
pub list_first-member :
    (h : Heap) (fuel a p d : ℕ) (xs : Cells)
    → IsList h ((p, d) ∷ xs)
    → is_in a ((p, d) ∷ xs) ≡ true
    → length xs < fuel
    → list_first fuel a h ≡ done (at p) h
list_first-member h fuel a p d xs l i f =
    let s = split_at a [] ((p, d) ∷ xs) i in
    let l' = subst (IsList h) s.whole l in
    let first : p ≡ last_addr a s.before =
      ap head_addr s.whole ∙ head-reverse_aux s.before a s.payload s.behind in
    rw (list_first-IsAt h fuel s.before (focus l') (omega (arith, s.count)), first)

record ConsView (ys : Cells) (n : ℕ) : Type 0 where
  first : ℕ
  payload : ℕ
  behind : Cells
  whole : ys ≡ (first, payload) ∷ behind
  count : length behind ≡ n

cons_view : (ys : Cells) (n : ℕ) → length ys ≡ suc n → ConsView ys n
cons_view [] n e = absurd (omega arith)
cons_view ((p, d) ∷ ys) n e = record {
  first = p;
  payload = d;
  behind = ys;
  whole = refl;
  count = omega arith;
}

-- A sorted list in the heap, and the passes that were counted.
pub record Sorted (sorter : ℕ → ℕ → Bool) (xs : Cells) (most : ℕ) (t : ℕ) (g : Heap) : Type 0 where
  pub cells : Cells
  pub list : IsList g cells
  pub perm : Perm cells xs
  pub ordered : IsOrdered sorter cells
  pub bounded : t ≤ most

module _ (sorter : ℕ → ℕ → Bool) (asym : (a b : ℕ) → sorter a b ≡ true → sorter b a ≡ false)
    (fuel lst : ℕ) where
  sort_loop-Sorted :
      (passes : ℕ) (h : Heap) (r p d : ℕ) (xs : Cells)
      → IsList h ((p, d) ∷ xs)
      → is_in lst ((p, d) ∷ xs) ≡ true
      → length xs < fuel
      → inversions sorter ((p, d) ∷ xs) < passes
      → (t : ℕ) × (g : Heap) × (sort_loop sorter fuel passes lst r h ≡ done t g)
        × Sorted sorter ((p, d) ∷ xs) (r + inversions sorter ((p, d) ∷ xs) + 1) t g
  unfolding sort_loop
  sort_loop-Sorted zero h r p d xs l i f m = absurd (omega arith)
  sort_loop-Sorted (suc passes) h r p d xs l i f m =
      let first = list_first-member h fuel lst p d xs l i f in
      let (g, run, l') = pass_loop-bubble sorter h fuel false [] p d xs l f in
      elim (Bool-cases (moves sorter d xs)) [
        | inr e ↦ (
          r + 1,
          g,
          rw (first, run, e),
          record {
            cells = (p, d) ∷ xs;
            list = subst (IsList g) (still-bubble sorter p d xs e) l';
            perm = Perm.rfl;
            ordered = still-IsOrdered sorter p d xs e;
            bounded = omega arith;
          },
        )
        | inl e ↦
            let v = cons_view (bubble sorter p d xs) (length xs) (length-bubble sorter p d xs) in
            let less = inversions-bubble sorter asym p d xs in
            let same = bubble-perm sorter p d xs in
            let (t, g', run', s) =
              sort_loop-Sorted passes g (r + 1) v.first v.payload v.behind
                (subst (IsList g) v.whole l')
                (ap (is_in lst) (sym v.whole) ∙ (is_in-bubble sorter lst p d xs ∙ i))
                (omega (arith, v.count))
                (ground (arith, less, e, ap (inversions sorter) v.whole)) in
            (
              t,
              g',
              rw (first, run, e) run',
              record {
                cells = s.cells;
                list = s.list;
                perm = Perm.trans s.perm (subst (λ ys. Perm ys ((p, d) ∷ xs)) v.whole same);
                ordered = s.ordered;
                bounded = ground (arith, s.bounded, less, e, ap (inversions sorter) v.whole);
              },
            )
      ]

  -- Where the sorter never wants two payloads both ways, list_sort ends, from any node of a list, with
  -- fuel for the nodes and for one pass more than pairs stand in the wrong order: it leaves the same
  -- nodes, none before a neighbour that the sorter wants before it, and counts at most so many
  -- passes.
  pub list_sort-Sorted :
      (passes : ℕ) (h : Heap) (p d : ℕ) (xs : Cells)
      → IsList h ((p, d) ∷ xs)
      → is_in lst ((p, d) ∷ xs) ≡ true
      → lst ≢ 0
      → length xs < fuel
      → inversions sorter ((p, d) ∷ xs) < passes
      → (t : ℕ) × (g : Heap) × (list_sort sorter fuel passes lst h ≡ done (inr t) g)
        × Sorted sorter ((p, d) ∷ xs) (inversions sorter ((p, d) ∷ xs) + 1) t g
  unfolding list_sort
  list_sort-Sorted passes h p d xs l i ne f m =
      let (t, g, run, s) = sort_loop-Sorted passes h 0 p d xs l i f m in
      (
        t,
        g,
        rw (not_null lst ne, run),
        record {
          cells = s.cells;
          list = s.list;
          perm = s.perm;
          ordered = s.ordered;
          bounded = omega (arith, s.bounded);
        },
      )
