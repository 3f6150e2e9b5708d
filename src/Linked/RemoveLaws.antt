-- ===== src/Linked/RemoveLaws.antt =====
-- list_remove of lib/general/list.c: a node is taken out of its list.
use mathlib.Core.List.{reverse_aux}
use efi_wrapper.Prelude.{ℕ, some, [], ◌∷◌, arith}
use efi_wrapper.Linked.{Heap, node, put}
use efi_wrapper.Linked.Link.{list_remove, unlink}
use efi_wrapper.Linked.Shape.{
  Cells, head_addr, Points, IsList, IsAt, focus, load-Points, set_next-Points, set_prev-Points,
  Ahead-frame, Behind-frame, Apart-tail, Ahead-unfocus, Distinct-join,
}
use efi_wrapper.Linked.WalkLaws.{not_null}
use efi_wrapper.Linked.LinkLaws.{Succeeds, succeeds}

-- The node stands alone, and the others are a list.
pub record Removed (left : Cells) (p d : ℕ) (right : Cells) (g : Heap) : Type 0 where
  pub alone : Points g p (node 0 0 d)
  pub rest : IsList g (reverse_aux left right)

module _ (h : Heap) (p d : ℕ) where
  remove_both :
      (q e : ℕ) (left : Cells) (r k : ℕ) (right : Cells)
      → IsAt h ((q, e) ∷ left) p d ((r, k) ∷ right)
      → Succeeds (Removed ((q, e) ∷ left) p d ((r, k) ∷ right)) (list_remove p h)
  unfolding list_remove unlink
  remove_both q e left r k right z =
      let (q_left, dl) = z.distinct_left in
      let (q_out, apart) = z.apart in
      let (r_left, apart') = Apart-tail r k left right apart in
      let h1 : Heap = put h q (some (node (head_addr left) r e)) in
      let p1 : Points h1 p (node q r d) =
        unfold put in (z.here.0, ground (arith, z.here.1, z.not_left)) in
      let r1 : Points h1 r (node p (head_addr right) k) =
        unfold put in (z.ahead.0.0, ground (arith, z.ahead.0.1)) in
      let h2 : Heap = put h1 r (some (node q (head_addr right) k)) in
      let p2 : Points h2 p (node q r d) =
        unfold put in (z.here.0, ground (arith, p1.1, z.not_right)) in
      let h3 : Heap = put h2 p (some (node 0 r d)) in
      let p3 : Points h3 p (node 0 r d) = unfold put in (z.here.0, ground arith) in
      let g : Heap = put h3 p (some (node 0 0 d)) in
      rw
        (
          not_null p z.here.0,
          load-Points h z.here,
          not_null r z.ahead.0.0,
          not_null q z.behind.0.0,
          set_next-Points h z.behind.0 r,
          load-Points h1 p1,
          set_prev-Points h1 r1 q,
          set_prev-Points h2 p2 0,
          set_next-Points h3 p3 0,
        )
        (succeeds {g = g} (record {
          alone = unfold put in (z.here.0, ground arith);
          rest = record {
            nodes =
                Ahead-unfocus g left q e ((r, k) ∷ right)
                  (unfold put in (z.behind.0.0, ground arith))
                  (unfold put in Behind-frame h g q left z.behind.1 (λ a i. ground arith))
                  (unfold put in
                    (
                      (z.ahead.0.0, ground arith),
                      Ahead-frame h g r right z.ahead.1 (λ a i. ground arith),
                    ));
            distinct =
                Distinct-join ((q, e) ∷ left) ((r, k) ∷ right) z.distinct_left z.distinct_right
                  z.apart;
          };
        }))

  remove_first :
      (r k : ℕ) (right : Cells)
      → IsAt h [] p d ((r, k) ∷ right)
      → Succeeds (Removed [] p d ((r, k) ∷ right)) (list_remove p h)
  unfolding list_remove unlink
  remove_first r k right z =
      let h1 : Heap = put h r (some (node 0 (head_addr right) k)) in
      let p1 : Points h1 p (node 0 r d) =
        unfold put in (z.here.0, ground (arith, z.here.1, z.not_right)) in
      let h2 : Heap = put h1 p (some (node 0 r d)) in
      let p2 : Points h2 p (node 0 r d) = unfold put in (z.here.0, ground arith) in
      let g : Heap = put h2 p (some (node 0 0 d)) in
      rw
        (
          not_null p z.here.0,
          load-Points h z.here,
          not_null r z.ahead.0.0,
          set_prev-Points h z.ahead.0 0,
          set_prev-Points h1 p1 0,
          set_next-Points h2 p2 0,
        )
        (succeeds {g = g} (record {
          alone = unfold put in (z.here.0, ground arith);
          rest = record {
            nodes =
                unfold put in
                (
                  (z.ahead.0.0, ground (arith, z.not_right)),
                  Ahead-frame h g r right z.ahead.1 (λ a i. ground arith),
                );
            distinct = z.distinct_right;
          };
        }))

  remove_last :
      (q e : ℕ) (left : Cells)
      → IsAt h ((q, e) ∷ left) p d []
      → Succeeds (Removed ((q, e) ∷ left) p d []) (list_remove p h)
  unfolding list_remove unlink
  remove_last q e left z =
      let (q_left, dl) = z.distinct_left in
      let h1 : Heap = put h q (some (node (head_addr left) 0 e)) in
      let p1 : Points h1 p (node q 0 d) =
        unfold put in (z.here.0, ground (arith, z.here.1, z.not_left)) in
      let h2 : Heap = put h1 p (some (node 0 0 d)) in
      let p2 : Points h2 p (node 0 0 d) = unfold put in (z.here.0, ground arith) in
      let g : Heap = put h2 p (some (node 0 0 d)) in
      rw
        (
          not_null p z.here.0,
          load-Points h z.here,
          not_null q z.behind.0.0,
          set_next-Points h z.behind.0 0,
          set_prev-Points h1 p1 0,
          set_next-Points h2 p2 0,
        )
        (succeeds {g = g} (record {
          alone = unfold put in (z.here.0, ground arith);
          rest = record {
            nodes =
                Ahead-unfocus g left q e [] (unfold put in (z.behind.0.0, ground arith))
                  (unfold put in Behind-frame h g q left z.behind.1 (λ a i. ground arith)) tt;
            distinct = Distinct-join ((q, e) ∷ left) [] z.distinct_left tt z.apart;
          };
        }))

-- At least one other node.
abbrev pub NotAlone : Cells → Cells → Type 0
NotAlone [] [] = ⊥
NotAlone [] ((r, k) ∷ right) = Unit
NotAlone ((q, e) ∷ left) right = Unit

-- list_remove takes any node out of a list of more than one: the others keep their order, and the
-- node stands alone with its payload.
pub list_remove_lem :
    (h : Heap) (left : Cells) (p d : ℕ) (right : Cells)
    → IsList h (reverse_aux left ((p, d) ∷ right))
    → NotAlone left right
    → Succeeds (Removed left p d right) (list_remove p h)
list_remove_lem h [] p d [] l more = elim more [ ]
list_remove_lem h [] p d ((r, k) ∷ right) l more = remove_first h p d r k right (focus l)
list_remove_lem h ((q, e) ∷ left) p d [] l more = remove_last h p d q e left (focus l)
list_remove_lem h ((q, e) ∷ left) p d ((r, k) ∷ right) l more =
    remove_both h p d q e left r k right (focus l)
