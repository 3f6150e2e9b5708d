-- ===== src/Linked/Reversal.antt =====
-- list_reverse of lib/general/list.c.
use mathlib.Core.List.{reverse_aux}
use efi_wrapper.Prelude.{
  ℕ, zero, suc, ◌<◌, ◌≡◌, true, ◌==◌, some, [], ◌∷◌, length, if◌then◌else◌, arith,
}
use efi_wrapper.Linked.{Heap, node, put, done, pure}
use efi_wrapper.Linked.Link.{list_reverse, reverse_loop}
use efi_wrapper.Linked.Shape.{
  Cells, head_addr, is_in, Distinct, Points, Ahead, IsList, Apart-tail, load-Points,
  set_next-Points, set_prev-Points, Ahead-frame, Distinct-join, Distinct-split,
}
use efi_wrapper.Linked.InsertLaws.{Apart-none}
use efi_wrapper.Linked.WalkLaws.{not_null}
use efi_wrapper.Linked.SortLaws.{list_first-member}

-- `turned` are the nodes that were passed, the last one first: they are linked the other way. One
-- round turns the node `q` too.
module _ (h : Heap) (turned : Cells) (q k : ℕ) (xs : Cells) (back : Ahead h q turned)
    (nodes : Ahead h (head_addr turned) ((q, k) ∷ xs))
    (dist : Distinct (reverse_aux turned ((q, k) ∷ xs))) where
  abbrev once : Heap
  once = put h q (some (node (head_addr xs) (head_addr xs) k))

  abbrev twice : Heap
  twice = put once q (some (node (head_addr xs) (head_addr turned) k))

  turn_run :
      (fuel : ℕ)
      → reverse_loop (suc fuel) q h
        ≡ (if head_addr xs == 0 then pure tt else reverse_loop fuel (head_addr xs)) twice
  unfolding reverse_loop
  turn_run fuel =
      let q1 : Points once q (node (head_addr xs) (head_addr xs) k) =
        unfold put in (nodes.0.0, ground arith) in
      rw (
        load-Points h nodes.0,
        set_prev-Points h nodes.0 (head_addr xs),
        set_next-Points once q1 (head_addr turned),
      )

  turn_back : Ahead twice (head_addr xs) ((q, k) ∷ turned)
  unfolding put
  turn_back =
      let (_, (q_xs, _), apart) = Distinct-split turned ((q, k) ∷ xs) dist in
      let q_turned = (Apart-tail q k turned xs apart).0 in
      ((nodes.0.0, ground arith), Ahead-frame h twice q turned back (λ x i. ground arith))

  turn_nodes : Ahead twice q xs
  unfolding put
  turn_nodes =
      let (_, (q_xs, _), apart) = Distinct-split turned ((q, k) ∷ xs) dist in
      Ahead-frame h twice q xs nodes.1 (λ x i. ground arith)

reverse_loop-Ahead :
    (h : Heap) (fuel : ℕ) (turned : Cells) (q k : ℕ) (xs : Cells)
    → Ahead h q turned
    → Ahead h (head_addr turned) ((q, k) ∷ xs)
    → Distinct (reverse_aux turned ((q, k) ∷ xs))
    → length xs < fuel
    → (g : Heap) × (reverse_loop fuel q h ≡ done tt g)
      × Ahead g 0 (reverse_aux xs ((q, k) ∷ turned))
reverse_loop-Ahead h zero turned q k xs t a dist f = absurd (omega arith)
reverse_loop-Ahead h (suc fuel) turned q k [] t a dist f = (
  twice h turned q k [] t a dist,
  turn_run h turned q k [] t a dist fuel,
  turn_back h turned q k [] t a dist,
)
reverse_loop-Ahead h (suc fuel) turned q k ((r, j) ∷ xs) t a dist f =
    let g = twice h turned q k ((r, j) ∷ xs) t a dist in
    let (g', run, l) =
      reverse_loop-Ahead g fuel ((q, k) ∷ turned) r j xs
        (turn_back h turned q k ((r, j) ∷ xs) t a dist)
        (turn_nodes h turned q k ((r, j) ∷ xs) t a dist) dist (omega arith) in
    (g', rw (turn_run h turned q k ((r, j) ∷ xs) t a dist fuel, not_null r a.1.0.0) run, l)

-- list_reverse, from any node of a list and with fuel for its nodes, leaves the same nodes in the
-- opposite order.
pub list_reverse_lem :
    (h : Heap) (fuel lst p d : ℕ) (xs : Cells)
    → IsList h ((p, d) ∷ xs)
    → is_in lst ((p, d) ∷ xs) ≡ true
    → length xs < fuel
    → (g : Heap) × (list_reverse fuel lst h ≡ done tt g) × IsList g (reverse_aux ((p, d) ∷ xs) [])
unfolding list_reverse
list_reverse_lem h fuel lst p d xs l i f =
    let (g, run, nodes) = reverse_loop-Ahead h fuel [] p d xs tt l.nodes l.distinct f in
    (
      g,
      rw (list_first-member h fuel lst p d xs l i f, run),
      record {
        nodes = nodes;
        distinct = Distinct-join ((p, d) ∷ xs) [] l.distinct tt (Apart-none ((p, d) ∷ xs));
      },
    )
