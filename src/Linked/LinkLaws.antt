-- ===== src/Linked/LinkLaws.antt =====
-- What list_add, list_push, list_insert and list_remove of lib/general/list.c make of a list.
use mathlib.Core.List.{reverse_aux}
use mathlib.Core.Path.{subst}
use efi_wrapper.Prelude.{
  ℕ, ◌<◌, ◌≡◌, refl, ap, ◌∙◌, false, ◌==◌, Option, none, some, [], ◌∷◌, ◌++◌, length, arith,
}
use efi_wrapper.Linked.{Heap, Node, node, put, Run, done, Code}
use efi_wrapper.Linked.Link.{list_add, list_push}
use efi_wrapper.Linked.Shape.{
  Cells, head_addr, is_in, Distinct, Points, Ahead, Behind, IsList, IsAt, focus, load-Points,
  set_next-Points, set_prev-Points, Ahead-frame, Behind-frame, Apart-tail, Distinct-split,
  Ahead-unfocus,
}
use efi_wrapper.Linked.WalkLaws.{last_addr, list_last-IsAt, not_null}

-- The function returned 0 and left a heap with this property.
pub data Succeeds (P : Heap → Type 0) : Run Code → Type 0 where
  succeeds : {g : Heap} → P g → Succeeds P (done none g)

-- Two writes at two addresses spare what is at neither.
pub Behind-put2 :
    (h : Heap) (a b next : ℕ) (c d : Option Node) (xs : Cells)
    → Behind h next xs
    → is_in a xs ≡ false
    → is_in b xs ≡ false
    → Behind (put (put h a c) b d) next xs
unfolding put
Behind-put2 h a b next c d xs nodes oa ob =
    Behind-frame h (put (put h a c) b d) next xs nodes (λ x i. ground arith)

Ahead-put2 :
    (h : Heap) (a b prev : ℕ) (c d : Option Node) (xs : Cells)
    → Ahead h prev xs
    → is_in a xs ≡ false
    → is_in b xs ≡ false
    → Ahead (put (put h a c) b d) prev xs
unfolding put
Ahead-put2 h a b prev c d xs nodes oa ob =
    Ahead-frame h (put (put h a c) b d) prev xs nodes (λ x i. ground arith)

module _ (h : Heap) (left : Cells) (p d n e : ℕ) (ys : Cells)
    (old : IsList h (reverse_aux left ((p, d) ∷ []))) (new : IsList h ((n, e) ∷ ys))
    (distinct : Distinct (reverse_aux left ((p, d) ∷ (n, e) ∷ ys))) where
  abbrev pub joined : Heap
  joined = put (put h p (some (node (head_addr left) n d))) n (some (node p (head_addr ys) e))

  pub list_add-last : (fuel : ℕ) → list_add fuel p n h ≡ done none joined
  unfolding list_add
  list_add-last fuel =
      let z : IsAt h left p d [] = focus old in
      let (_, (p_out, _), _) = Distinct-split left ((p, d) ∷ (n, e) ∷ ys) distinct in
      let here : Points h n (node 0 (head_addr ys) e) = new.nodes.0 in
      let ne : (p == n) ≡ false = ground arith in
      let between : Heap = put h p (some (node (head_addr left) n d)) in
      let there : Points between n (node 0 (head_addr ys) e) =
        unfold put in (here.0, ground (arith, here.1)) in
      rw (
        not_null p z.here.0,
        not_null n here.0,
        ne,
        load-Points h z.here,
        set_next-Points h z.here n,
        set_prev-Points between there p,
      )

  pub joined-IsList : IsList joined (reverse_aux left ((p, d) ∷ (n, e) ∷ ys))
  unfolding put
  joined-IsList =
      let z : IsAt h left p d [] = focus old in
      let (_, (p_out, (n_out, _)), apart) = Distinct-split left ((p, d) ∷ (n, e) ∷ ys) distinct in
      let (p_left, apart') = Apart-tail p d left ((n, e) ∷ ys) apart in
      let n_left = (Apart-tail n e left ys apart').0 in
      record {
        nodes =
            Ahead-unfocus joined left p d ((n, e) ∷ ys) (z.here.0, ground arith)
              (Behind-put2 h p n p _ _ left z.behind p_left n_left)
              (
                (new.nodes.0.0, ground arith),
                Ahead-put2 h p n n _ _ ys new.nodes.1 (ground arith) n_out,
              );
        distinct = distinct;
      }

-- A list seen from its last node.
pub record AtLast (left : Cells) (p d : ℕ) (right : Cells) : Type 0 where
  pub before : Cells
  pub payload : ℕ
  pub whole :
      reverse_aux left ((p, d) ∷ right) ≡ reverse_aux before ((last_addr p right, payload) ∷ [])

pub at_last : (left : Cells) (p d : ℕ) (right : Cells) → AtLast left p d right
at_last left p d [] = record { before = left; payload = d; whole = refl }
at_last left p d ((q, e) ∷ right) =
    let l = at_last ((p, d) ∷ left) q e right in
    record { before = l.before; payload = l.payload; whole = l.whole }

append-reverse_aux : (left xs ys : Cells) → reverse_aux left xs ++ ys ≡ reverse_aux left (xs ++ ys)
append-reverse_aux [] xs ys = refl
append-reverse_aux ((q, e) ∷ left) xs ys = append-reverse_aux left ((q, e) ∷ xs) ys

-- Pushing a list behind any node of another one, with fuel for its nodes, joins the two, if they
-- have no node in common.
pub list_push-append :
    (h : Heap) (fuel : ℕ) (left : Cells) (p d : ℕ) (right : Cells) (n e : ℕ) (ys : Cells)
    → IsList h (reverse_aux left ((p, d) ∷ right))
    → IsList h ((n, e) ∷ ys)
    → Distinct (reverse_aux left ((p, d) ∷ right) ++ (n, e) ∷ ys)
    → length right < fuel
    → Succeeds
        (λ g. IsList g (reverse_aux left ((p, d) ∷ right) ++ (n, e) ∷ ys))
        (list_push fuel p n h)
unfolding list_push
list_push-append h fuel left p d right n e ys old new distinct f =
    let l = at_last left p d right in
    let z : IsAt h left p d right = focus old in
    let last = last_addr p right in
    let old' : IsList h (reverse_aux l.before ((last, l.payload) ∷ [])) =
      subst (IsList h) l.whole old in
    let whole : reverse_aux left ((p, d) ∷ right) ++ (n, e) ∷ ys
        ≡ reverse_aux l.before ((last, l.payload) ∷ (n, e) ∷ ys) =
      ap (λ xs. xs ++ (n, e) ∷ ys) l.whole
      ∙ append-reverse_aux l.before ((last, l.payload) ∷ []) ((n, e) ∷ ys) in
    let distinct' = subst Distinct whole distinct in
    rw
      (
        list_last-IsAt h fuel right z f,
        list_add-last h l.before last l.payload n e ys old' new distinct' fuel,
        whole,
      )
      (succeeds (joined-IsList h l.before last l.payload n e ys old' new distinct'))
