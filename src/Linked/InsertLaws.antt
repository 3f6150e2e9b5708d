-- ===== src/Linked/InsertLaws.antt =====
-- list_insert of lib/general/list.c, where it links a list of several nodes into the middle.
use mathlib.Core.List.{reverse_aux}
use efi_wrapper.Prelude.{
  ℕ, suc, ◌<◌, ◌≡◌, refl, true, false, ◌==◌, Option, some, [], ◌∷◌, length, arith,
}
use efi_wrapper.Linked.{Heap, Node, node, put}
use efi_wrapper.Linked.Link.{list_insert, link_before}
use efi_wrapper.Linked.Shape.{
  Cells, head_addr, is_in, Apart, Points, Behind, IsList, IsAt, focus, load-Points, set_next-Points,
  set_prev-Points, Ahead-unfocus, Distinct-join, Apart-out, Apart-cons,
}
use efi_wrapper.Linked.WalkLaws.{not_null, last_addr, list_last-IsAt, list_first-IsAt}
use efi_wrapper.Linked.LinkLaws.{Succeeds, succeeds, Behind-put2}

is_in-last_addr : (m e : ℕ) (xs : Cells) → is_in (last_addr m xs) ((m, e) ∷ xs) ≡ true
is_in-last_addr m e [] = ground arith
is_in-last_addr m e ((q, k) ∷ xs) = ground (arith, is_in-last_addr q k xs)

pub Apart-none : (xs : Cells) → Apart xs []
Apart-none [] = tt
Apart-none ((p, d) ∷ xs) = (refl, Apart-none xs)

head_out :
    (a b e : ℕ) (xs : Cells)
    → is_in a ((b, e) ∷ xs) ≡ false
    → ((a == b) ≡ false) × ((b == a) ≡ false) × (is_in a xs ≡ false)
head_out a b e xs out = (ground arith, ground arith, ground arith)

ne_sym : (a b : ℕ) → (a == b) ≡ false → (b == a) ≡ false
ne_sym a b e = ground arith

in_out : (a b : ℕ) (xs : Cells) → is_in a xs ≡ true → is_in b xs ≡ false → (a == b) ≡ false
in_out a b [] i o = cc
in_out a b ((q, k) ∷ xs) i o = ground (arith, in_out a b xs)

put_ne : (h : Heap) (a b : ℕ) (c : Option Node) → (a == b) ≡ false → put h b c a ≡ h a
unfolding put
put_ne h a b c e = rw e

put_eq : (h : Heap) (a : ℕ) (c : Option Node) → put h a c a ≡ c
unfolding put
put_eq h a c = ground arith

record FirstNode (h : Heap) (f : ℕ) : Type 0 where
  next : ℕ
  payload : ℕ
  here : Points h f (node 0 next payload)

first_node :
    (h : Heap) (next m e : ℕ) (xs : Cells)
    → Behind h next ((m, e) ∷ xs)
    → FirstNode h (last_addr m xs)
first_node h next m e [] (here, rest) = record { next = next; payload = e; here = here }
first_node h next m e ((q, k) ∷ xs) (here, rest) = first_node h m q k xs rest

-- With fuel for the new nodes, inserting a list of more than one node, which has no node in common
-- with the old one before and at the place, given by its last node, before a node that is not the
-- first one of its list loses nodes: from the first node the list then ends behind the last new
-- node, without the other new nodes, the node it was to stand before, and those behind that one.
pub list_insert_loses :
    (h : Heap) (fuel q k : ℕ) (left : Cells) (p d : ℕ) (right : Cells) (m em : ℕ) (new : Cells)
    (l el : ℕ)
    → IsList h (reverse_aux ((q, k) ∷ left) ((p, d) ∷ right))
    → IsList h (reverse_aux ((m, em) ∷ new) ((l, el) ∷ []))
    → Apart ((l, el) ∷ (m, em) ∷ new) ((p, d) ∷ (q, k) ∷ left)
    → suc (length new) < fuel
    → Succeeds (λ g. IsList g (reverse_aux ((q, k) ∷ left) ((l, el) ∷ []))) (list_insert fuel p l h)
unfolding list_insert link_before
list_insert_loses h fuel q k left p d right m em new l el old fresh apart f =
    let z : IsAt h ((q, k) ∷ left) p d right = focus old in
    let y : IsAt h ((m, em) ∷ new) l el [] = focus fresh in
    let first = last_addr m new in
    let n = first_node h l m em new y.behind in
    let in_new : is_in first ((m, em) ∷ new) ≡ true = is_in-last_addr m em new in
    let first_out : is_in first ((p, d) ∷ (q, k) ∷ left) ≡ false =
      Apart-out first ((m, em) ∷ new) ((p, d) ∷ (q, k) ∷ left) apart.1 in_new in
    let (fp, pf, first_out') = head_out first p d ((q, k) ∷ left) first_out in
    let (fq, qf, first_left) = head_out first q k left first_out' in
    let (lp, pl, l_out') = head_out l p d ((q, k) ∷ left) apart.0 in
    let (lq, ql, l_left) = head_out l q k left l_out' in
    let (pq, qp, p_left) = head_out p q k left z.not_left in
    let fl : (first == l) ≡ false = in_out first l ((m, em) ∷ new) in_new y.not_left in
    let lf : (l == first) ≡ false = ne_sym first l fl in
    let (q_left, dl) = z.distinct_left in
    let h1 : Heap = put h q (some (node (head_addr left) l k)) in
    let p1 : Points h1 p (node q (head_addr right) d) =
      (z.here.0, rw (put_ne h p q _ pq) z.here.1) in
    let l1 : Points h1 l (node m 0 el) = (y.here.0, rw (put_ne h l q _ lq) y.here.1) in
    let h2 : Heap = put h1 l (some (node q 0 el)) in
    let p2 : Points h2 p (node q (head_addr right) d) = (z.here.0, rw (put_ne h1 p l _ pl) p1.1) in
    let h3 : Heap = put h2 p (some (node first (head_addr right) d)) in
    let f3 : Points h3 first (node 0 n.next n.payload) = (
      n.here.0,
      rw (put_ne h2 first p _ fp, put_ne h1 first l _ fl, put_ne h first q _ fq) n.here.1,
    ) in
    let g : Heap = put h3 first (some (node 0 p n.payload)) in
    let q4 : g q ≡ some (node (head_addr left) l k) =
      rw (put_ne h3 q first _ qf, put_ne h2 q p _ qp, put_ne h1 q l _ ql) (put_eq h q _) in
    let l4 : g l ≡ some (node q 0 el) =
      rw (put_ne h3 l first _ lf, put_ne h2 l p _ lp) (put_eq h1 l _) in
    let behind : Behind g q left =
      Behind-put2 h2 p first q _ _ left (Behind-put2 h q l q _ _ left z.behind.1 q_left l_left)
        p_left first_left in
    rw
      (
        not_null p z.here.0,
        not_null l y.here.0,
        list_last-IsAt h fuel [] y (omega arith),
        load-Points h z.here,
        not_null q z.behind.0.0,
        list_first-IsAt h fuel ((m, em) ∷ new) y f,
        load-Points h z.here,
        set_next-Points h z.behind.0 l,
        load-Points h1 p1,
        set_prev-Points h1 l1 q,
        set_prev-Points h2 p2 first,
        set_next-Points h3 f3 p,
      )
      (succeeds {g = g} (record {
        nodes =
            Ahead-unfocus g left q k ((l, el) ∷ []) (z.behind.0.0, q4) behind ((y.here.0, l4), tt);
        distinct =
            Distinct-join ((q, k) ∷ left) ((l, el) ∷ []) z.distinct_left (refl, tt)
              (Apart-cons l el ((q, k) ∷ left) [] l_out' (Apart-none ((q, k) ∷ left)));
      }))
