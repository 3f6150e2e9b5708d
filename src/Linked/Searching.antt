-- ===== src/Linked/Searching.antt =====
-- What list_count and the searches of lib/general/list.c find, from any node of a list.
use mathlib.Core.List.{reverse_aux}
use mathlib.Core.Path.{subst}
use efi_wrapper.Prelude.{
  ℕ, zero, suc, ◌+◌, ◌<◌, ◌≡◌, refl, sym, ap, ◌∙◌, Bool, false, inl, inr, [], ◌∷◌, ◌++◌, length,
  length-append, append-nil, append_assoc, if◌then◌else◌, arith, Bool-cases,
}
use efi_wrapper.Linked.{Heap, done}
use efi_wrapper.Linked.Walk.{list_count, search_loop, list_search_one}
use efi_wrapper.Linked.Shape.{Cells, is_in, Ahead, IsList, IsAt, focus, load-Points, is_in-append}
use efi_wrapper.Linked.WalkLaws.{last_addr, list_first-IsAt, count_loop-Ahead, not_null}

-- A list from its first node, with the nodes before a place in the middle.
pub record Unrolled (q e : ℕ) (left ys : Cells) : Type 0 where
  pub first_payload : ℕ
  pub between : Cells
  pub whole : reverse_aux ((q, e) ∷ left) ys ≡ (last_addr q left, first_payload) ∷ between ++ ys
  pub count : length between ≡ length left
  pub inside : (a : ℕ) → is_in a ((q, e) ∷ left) ≡ false → is_in a between ≡ false

pub unroll : (q e : ℕ) (left ys : Cells) → Unrolled q e left ys
unroll q e [] ys = record {
  first_payload = e;
  between = [];
  whole = refl;
  count = refl;
  inside = λ a out. refl;
}
unroll q e ((r, k) ∷ left) ys =
    let u = unroll r k left ((q, e) ∷ ys) in
    record {
      first_payload = u.first_payload;
      between = u.between ++ (q, e) ∷ [];
      whole =
          u.whole
          ∙ ap (λ xs. (last_addr r left, u.first_payload) ∷ xs)
              (sym (append_assoc u.between ((q, e) ∷ []) ys));
      count = omega (arith, u.count, length-append {0} u.between ((q, e) ∷ []));
      inside = λ a out.
          is_in-append a u.between ((q, e) ∷ []) (u.inside a (ground arith)) (ground arith);
    }

abbrev pub counted : Cells → Cells → ℕ
counted [] right = suc (length right)
counted ((q, e) ∷ left) right = suc (length left)

-- With fuel for the nodes, list_count gives the number of the nodes of a list from its first node;
-- from any other node it gives only the number of the nodes before that one.
pub list_count_lem :
    (h : Heap) (fuel : ℕ) (left : Cells) (p d : ℕ) (right : Cells)
    → IsList h (reverse_aux left ((p, d) ∷ right))
    → length left + length right < fuel
    → list_count fuel p h ≡ done (inr (counted left right)) h
unfolding list_count
list_count_lem h fuel [] p d right l f =
    let z : IsAt h [] p d right = focus l in
    let nodes : Ahead h 0 ((p, d) ∷ right ++ []) = rw (append-nil right) l.nodes in
    rw (not_null p z.here.0, list_first-IsAt h fuel [] z (omega arith))
      (count_loop-Ahead h fuel p 0 p d 1 right [] nodes z.not_right (inl refl) (omega arith)
        ∙ ground arith)
list_count_lem h fuel ((q, e) ∷ left) p d right l f =
    let z : IsAt h ((q, e) ∷ left) p d right = focus l in
    let u = unroll q e left ((p, d) ∷ right) in
    let nodes : Ahead h 0 ((last_addr q left, u.first_payload) ∷ u.between ++ ((p, d) ∷ right)) =
      subst (λ zs. Ahead h 0 zs) u.whole l.nodes in
    rw (not_null p z.here.0, list_first-IsAt h fuel ((q, e) ∷ left) z (omega arith))
      (count_loop-Ahead h fuel p 0 (last_addr q left) u.first_payload 1 u.between ((p, d) ∷ right)
          nodes (u.inside p z.not_left) (inr refl) (omega (arith, u.count))
        ∙ ground (arith, u.count))

-- The address of the first node whose payload the comparator takes, else null.
abbrev pub first_match : (ℕ → ℕ → Bool) → ℕ → Cells → ℕ
first_match comparator v [] = 0
first_match comparator v ((p, d) ∷ xs) = if comparator d v then p else first_match comparator v xs

search_loop-Ahead :
    (comparator : ℕ → ℕ → Bool) (h : Heap) (fuel v prev q e : ℕ) (xs : Cells)
    → Ahead h prev ((q, e) ∷ xs)
    → length xs < fuel
    → search_loop comparator fuel v q h ≡ done (first_match comparator v ((q, e) ∷ xs)) h
unfolding search_loop
search_loop-Ahead comparator h zero v prev q e xs nodes f = absurd (omega arith)
search_loop-Ahead comparator h (suc fuel) v prev q e [] (here, rest) f =
    elim (Bool-cases (comparator e v)) [
      | inl hit ↦ rw (load-Points h here, hit)
      | inr miss ↦ rw (load-Points h here, miss)
    ]
search_loop-Ahead comparator h (suc fuel) v prev q e ((r, k) ∷ xs) (here, (next, rest)) f =
    elim (Bool-cases (comparator e v)) [
      | inl hit ↦ rw (load-Points h here, hit)
      | inr miss ↦
          rw (load-Points h here, miss, not_null r next.0)
            (search_loop-Ahead comparator h fuel v q r k xs (next, rest) (omega arith))
    ]

-- Searching from any node of a list, with fuel for its nodes, gives the first node of the whole list that the comparator
-- takes, or null if it takes none.
list_search_one_lem :
    (comparator : ℕ → ℕ → Bool) (h : Heap) (fuel v : ℕ) (left : Cells) (p d : ℕ) (right : Cells)
    → IsList h (reverse_aux left ((p, d) ∷ right))
    → length left + length right < fuel
    → list_search_one comparator fuel p v h
      ≡ done (first_match comparator v (reverse_aux left ((p, d) ∷ right))) h
unfolding list_search_one
list_search_one_lem comparator h fuel v [] p d right l f =
    let z : IsAt h [] p d right = focus l in
    rw (not_null p z.here.0, list_first-IsAt h fuel [] z (omega arith))
      (search_loop-Ahead comparator h fuel v 0 p d right l.nodes (omega arith))
list_search_one_lem comparator h fuel v ((q, e) ∷ left) p d right l f =
    let z : IsAt h ((q, e) ∷ left) p d right = focus l in
    let u = unroll q e left ((p, d) ∷ right) in
    let nodes : Ahead h 0 ((last_addr q left, u.first_payload) ∷ u.between ++ ((p, d) ∷ right)) =
      subst (λ zs. Ahead h 0 zs) u.whole l.nodes in
    rw (not_null p z.here.0, list_first-IsAt h fuel ((q, e) ∷ left) z (omega arith), u.whole)
      (search_loop-Ahead comparator h fuel v 0 (last_addr q left) u.first_payload
        (u.between ++ ((p, d) ∷ right)) nodes
        (omega (arith, u.count, length-append {0} u.between ((p, d) ∷ right))))
