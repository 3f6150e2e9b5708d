-- ===== src/Linked/SwapLaws.antt =====
-- list_swap_neighbor of lib/general/list.c: two neighbours change places.
use mathlib.Core.List.{reverse_aux}
use efi_wrapper.Prelude.{ℕ, ◌≡◌, refl, true, false, ◌==◌, none, some, [], ◌∷◌, arith}
use efi_wrapper.Linked.{Heap, node, put, done, set_next, set_prev}
use efi_wrapper.Linked.Link.{list_swap_neighbor, unless_null}
use efi_wrapper.Linked.Shape.{
  Cells, head_addr, is_in, Distinct, Apart, Points, Ahead, Behind, IsList, IsAt, focus, load-Points,
  set_next-Points, set_prev-Points, Ahead-frame, Behind-frame, Apart-tail, Apart-cons,
  Ahead-unfocus, Distinct-join,
}
use efi_wrapper.Linked.WalkLaws.{not_null}
use efi_wrapper.Linked.LinkLaws.{Succeeds, succeeds}

-- The node before gets a new next one, if there is a node before.
unfoldable pub with_next : Heap → ℕ → Cells → Heap
with_next h q [] = h
with_next h q ((a, e) ∷ left) = put h a (some (node (head_addr left) q e))

unfoldable pub with_prev : Heap → ℕ → Cells → Heap
with_prev h p [] = h
with_prev h p ((b, e) ∷ right) = put h b (some (node p (head_addr right) e))

set_next-head :
    (h : Heap) (q next : ℕ) (left : Cells)
    → Behind h next left
    → unless_null (head_addr left) (set_next (head_addr left) q) h ≡ done tt (with_next h q left)
unfolding with_next
set_next-head h q next [] b = refl
set_next-head h q next ((a, e) ∷ left) (here, b) = rw (not_null a here.0, set_next-Points h here q)

set_prev-head :
    (h : Heap) (p prev : ℕ) (right : Cells)
    → Ahead h prev right
    → unless_null (head_addr right) (set_prev (head_addr right) p) h ≡ done tt (with_prev h p right)
unfolding with_prev
set_prev-head h p prev [] b = refl
set_prev-head h p prev ((a, e) ∷ right) (here, b) = rw (not_null a here.0, set_prev-Points h here p)

with_next_other :
    (h : Heap) (q a : ℕ) (left : Cells) → is_in a left ≡ false → with_next h q left a ≡ h a
unfolding with_next put
with_next_other h q a [] out = refl
with_next_other h q a ((b, e) ∷ left) out = ground arith

with_prev_other :
    (h : Heap) (p a : ℕ) (right : Cells) → is_in a right ≡ false → with_prev h p right a ≡ h a
unfolding with_prev put
with_prev_other h p a [] out = refl
with_prev_other h p a ((b, e) ∷ right) out = ground arith

Behind-with_next :
    (h : Heap) (p q : ℕ) (left : Cells)
    → Distinct left
    → Behind h p left
    → Behind (with_next h q left) q left
unfolding with_next put
Behind-with_next h p q [] dist b = tt
Behind-with_next h p q ((a, e) ∷ left) (out, dist) ((ne, here), b) = (
  (ne, ground arith),
  Behind-frame h (with_next h q ((a, e) ∷ left)) a left b (λ x i. ground arith),
)

Ahead-with_prev :
    (h : Heap) (p q : ℕ) (right : Cells)
    → Distinct right
    → Ahead h q right
    → Ahead (with_prev h p right) p right
unfolding with_prev put
Ahead-with_prev h p q [] dist b = tt
Ahead-with_prev h p q ((a, e) ∷ right) (out, dist) ((ne, here), b) = (
  (ne, ground arith),
  Ahead-frame h (with_prev h p ((a, e) ∷ right)) a right b (λ x i. ground arith),
)

Apart-out_right : (a : ℕ) (xs ys : Cells) → Apart xs ys → is_in a ys ≡ true → is_in a xs ≡ false
Apart-out_right a [] ys apart i = refl
Apart-out_right a ((p, d) ∷ xs) ys (out, apart) i = ground (arith, Apart-out_right a xs ys apart)

Apart-out : (a : ℕ) (xs ys : Cells) → Apart xs ys → is_in a xs ≡ true → is_in a ys ≡ false
Apart-out a [] ys apart i = cc
Apart-out a ((p, d) ∷ xs) ys (out, apart) i = ground (arith, Apart-out a xs ys apart)

module _ (h : Heap) (left : Cells) (p d q k : ℕ) (right : Cells)
    (z : IsAt h left p d ((q, k) ∷ right)) where
  abbrev pub patched : Heap
  patched = with_prev (with_next h q left) p right

  abbrev pub swapped : Heap
  swapped =
      put
        (put
          (put (put patched p (some (node (head_addr left) (head_addr right) d))) q
            (some (node (head_addr left) (head_addr right) k)))
          p (some (node q (head_addr right) d)))
        q (some (node (head_addr left) p k))

  pub list_swap_neighbor-run : list_swap_neighbor p q h ≡ done none swapped
  unfolding list_swap_neighbor
  list_swap_neighbor-run =
      let (q_left, apart) = Apart-tail q k left right z.apart in
      let (q_right, dr) = z.distinct_right in
      let p_right : is_in p right ≡ false = ground (arith, z.not_right) in
      let pq : (p == q) ≡ false = ground (arith, z.not_right) in
      let h1 : Heap = with_next h q left in
      let q1 : Points h1 q (node p (head_addr right) k) =
        (z.ahead.0.0, rw (with_next_other h q q left q_left) z.ahead.0.1) in
      let p1 : Points h1 p (node (head_addr left) q d) =
        (z.here.0, rw (with_next_other h q p left z.not_left) z.here.1) in
      let ahead1 : Ahead h1 q right =
        Ahead-frame h h1 q right z.ahead.1
          (λ a i. with_next_other h q a left (Apart-out_right a left right apart i)) in
      let q2 : Points patched q (node p (head_addr right) k) =
        (z.ahead.0.0, rw (with_prev_other h1 p q right q_right) q1.1) in
      let p2 : Points patched p (node (head_addr left) q d) =
        (z.here.0, rw (with_prev_other h1 p p right p_right) p1.1) in
      let h3 : Heap = put patched p (some (node (head_addr left) (head_addr right) d)) in
      let p3 : Points h3 p (node (head_addr left) (head_addr right) d) =
        unfold put in (z.here.0, ground arith) in
      let q3 : Points h3 q (node p (head_addr right) k) =
        unfold put in (z.ahead.0.0, ground (arith, q2.1)) in
      let h4 : Heap = put h3 q (some (node (head_addr left) (head_addr right) k)) in
      let p4 : Points h4 p (node (head_addr left) (head_addr right) d) =
        unfold put in (z.here.0, ground arith) in
      let h5 : Heap = put h4 p (some (node q (head_addr right) d)) in
      let q5 : Points h5 q (node (head_addr left) (head_addr right) k) =
        unfold put in (z.ahead.0.0, ground arith) in
      rw (
        not_null p z.here.0,
        not_null q z.ahead.0.0,
        load-Points h z.here,
        set_next-head h q p left z.behind,
        load-Points h1 q1,
        set_prev-head h1 p q right ahead1,
        load-Points patched q2,
        set_next-Points patched p2 (head_addr right),
        load-Points h3 p3,
        set_prev-Points h3 q3 (head_addr left),
        set_prev-Points h4 p4 q,
        set_next-Points h5 q5 p,
      )

  pub swapped-IsList : IsList swapped (reverse_aux left ((q, k) ∷ (p, d) ∷ right))
  swapped-IsList =
      let (q_left, apart) = Apart-tail q k left right z.apart in
      let (q_right, dr) = z.distinct_right in
      let p_right : is_in p right ≡ false = ground (arith, z.not_right) in
      let h1 : Heap = with_next h q left in
      let ahead1 : Ahead h1 q right =
        Ahead-frame h h1 q right z.ahead.1
          (λ a i. with_next_other h q a left (Apart-out_right a left right apart i)) in
      let behind2 : Behind patched q left =
        Behind-frame h1 patched q left (Behind-with_next h p q left z.distinct_left z.behind)
          (λ a i. with_prev_other h1 p a right (Apart-out a left right apart i)) in
      let ahead2 : Ahead patched p right = Ahead-with_prev h1 p q right dr ahead1 in
      record {
        nodes =
            Ahead-unfocus swapped left q k ((p, d) ∷ right)
              (unfold put in (z.ahead.0.0, ground arith))
              (unfold put in
                Behind-frame patched swapped q left behind2 (λ a i. ground (arith, z.not_left)))
              (unfold put in
                (
                  (z.here.0, ground (arith, z.not_right)),
                  Ahead-frame patched swapped p right ahead2 (λ a i. ground arith),
                ));
        distinct =
            Distinct-join left ((q, k) ∷ (p, d) ∷ right) z.distinct_left
              (ground (arith, z.not_right), (p_right, dr))
              (Apart-cons q k left ((p, d) ∷ right) q_left
                (Apart-cons p d left right z.not_left apart));
      }

-- list_swap_neighbor exchanges a node and the one behind it, and the list keeps its other nodes.
list_swap_neighbor_lem :
    (h : Heap) (left : Cells) (p d q k : ℕ) (right : Cells)
    → IsList h (reverse_aux left ((p, d) ∷ (q, k) ∷ right))
    → Succeeds
        (λ g. IsList g (reverse_aux left ((q, k) ∷ (p, d) ∷ right)))
        (list_swap_neighbor p q h)
list_swap_neighbor_lem h left p d q k right l =
    let z : IsAt h left p d ((q, k) ∷ right) = focus l in
    rw (list_swap_neighbor-run h left p d q k right z)
      (succeeds (swapped-IsList h left p d q k right z))
