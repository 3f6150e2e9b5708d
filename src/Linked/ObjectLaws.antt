-- ===== src/Linked/ObjectLaws.antt =====
-- list_obj_strip of lib/general/list.c, on a list held by a pointer to any of its nodes.
use mathlib.Core.List.{reverse_aux}
use efi_wrapper.Prelude.{
  ℕ, ◌≡◌, ◌≢◌, refl, ◌∙◌, true, false, ◌||◌, ◌==◌, none, some, [], ◌∷◌, inl, inr, arith, Bool-cases,
}
use efi_wrapper.Linked.{Heap, Run, Code, done}
use efi_wrapper.Linked.Walk.{list_is_alone}
use efi_wrapper.Linked.Object.{list_obj_strip, moved}
use efi_wrapper.Linked.Shape.{
  Cells, head_addr, is_in, Ahead, Behind, IsList, IsAt, focus, load-Points,
}
use efi_wrapper.Linked.WalkLaws.{not_null}
use efi_wrapper.Linked.LinkLaws.{Succeeds, succeeds}
use efi_wrapper.Linked.RemoveLaws.{Removed, NotAlone, list_remove_lem}

is_in-reverse_aux :
    (a : ℕ) (left xs : Cells) → is_in a (reverse_aux left xs) ≡ (is_in a left || is_in a xs)
is_in-reverse_aux a [] xs = refl
is_in-reverse_aux a ((q, k) ∷ left) xs = is_in-reverse_aux a left ((q, k) ∷ xs) ∙ ground arith

-- What list_remove left, with the equation of its run.
record RemovedRun (left : Cells) (p d : ℕ) (right : Cells) (r : Run Code) : Type 0 where
  heap : Heap
  run : r ≡ done none heap
  removed : Removed left p d right heap

removed_run :
    {left : Cells} {p d : ℕ} {right : Cells} {r : Run Code}
    → Succeeds (Removed left p d right) r
    → RemovedRun left p d right r
removed_run (succeeds {g} removed) = record { heap = g; run = refl; removed = removed }

-- A node with a neighbour is not alone.
alone-NotAlone :
    (h : Heap) {left : Cells} {p d : ℕ} {right : Cells}
    → IsAt h left p d right
    → NotAlone left right
    → list_is_alone p h ≡ done false h
unfolding list_is_alone
alone-NotAlone h {left = []} {right = []} z more = absurd more
alone-NotAlone h {left = []} {p} {right = (r, k) ∷ right} z more =
    rw (not_null p z.here.0, load-Points h z.here, not_null r z.ahead.0.0)
alone-NotAlone h {left = (q, e) ∷ left} {p} z more =
    rw (not_null p z.here.0, load-Points h z.here, not_null q z.behind.0.0)

-- The next node, or the previous one if there is no next.
moved-is_in :
    (lst : ℕ) (left : Cells) (right : Cells)
    → ((a : ℕ) → is_in a left ≡ true → a ≢ 0)
    → ((a : ℕ) → is_in a right ≡ true → a ≢ 0)
    → NotAlone left right
    → is_in (moved lst (head_addr left) (head_addr right)) (reverse_aux left right) ≡ true
moved-is_in lst [] [] l r more = absurd more
moved-is_in lst left ((b, k) ∷ right) l r more =
    rw (not_null b (r b (ground arith)), is_in-reverse_aux b left ((b, k) ∷ right)) (ground arith)
moved-is_in lst ((a, e) ∷ left) [] l r more =
    rw (not_null a (l a (ground arith)), is_in-reverse_aux a left ((a, e) ∷ [])) (ground arith)

Ahead-nonzero :
    (h : Heap) (prev : ℕ) (xs : Cells) → Ahead h prev xs → (a : ℕ) → is_in a xs ≡ true → a ≢ 0
Ahead-nonzero h prev [] nodes a i = cc
Ahead-nonzero h prev ((p, d) ∷ xs) (here, nodes) a i = elim (Bool-cases (a == p)) [
  | inl e ↦ ground (arith, e, here.0)
  | inr e ↦ Ahead-nonzero h p xs nodes a (ground (arith, e))
]

Behind-nonzero :
    (h : Heap) (next : ℕ) (xs : Cells) → Behind h next xs → (a : ℕ) → is_in a xs ≡ true → a ≢ 0
Behind-nonzero h next [] nodes a i = cc
Behind-nonzero h next ((p, d) ∷ xs) (here, nodes) a i = elim (Bool-cases (a == p)) [
  | inl e ↦ ground (arith, e, here.0)
  | inr e ↦ Behind-nonzero h p xs nodes a (ground (arith, e))
]

-- list_obj_strip takes the node that holds the list out of it, where that is not the only one: the
-- pointer then is at another node of the list, and the others keep their order.
list_obj_strip_lem :
    (h : Heap) (left : Cells) (p d : ℕ) (right : Cells)
    → IsList h (reverse_aux left ((p, d) ∷ right))
    → NotAlone left right
    → (g : Heap) × (lst : ℕ) × (list_obj_strip (some p) p h ≡ done (none, some lst) g)
      × (is_in lst (reverse_aux left right) ≡ true)
      × Removed left p d right g
unfolding list_obj_strip
list_obj_strip_lem h left p d right l more =
    let z : IsAt h left p d right = focus l in
    let r = removed_run (list_remove_lem h left p d right l more) in
    let same : (p == p) ≡ true = ground arith in
    (
      r.heap,
      moved p (head_addr left) (head_addr right),
      rw (not_null p z.here.0, alone-NotAlone h z more, load-Points h z.here, r.run, same),
      moved-is_in p left right (Behind-nonzero h p left z.behind) (Ahead-nonzero h p right z.ahead)
          more,
      r.removed,
    )
