-- ===== src/Linked/AddLaws.antt =====
-- list_add_new of lib/general/list.c: a new node behind any node of a list.
use mathlib.Core.List.{reverse_aux}
use efi_wrapper.Prelude.{ℕ, ◌≡◌, ◌≢◌, refl, false, ◌==◌, none, some, [], ◌∷◌, arith}
use efi_wrapper.Linked.{Heap, node, put, done, store}
use efi_wrapper.Linked.Walk.{list_first, list_last}
use efi_wrapper.Linked.Link.{list_new, list_add, list_add_new, link_after}
use efi_wrapper.Linked.Shape.{
  Cells, head_addr, is_in, Distinct, Points, Ahead, Behind, IsList, IsAt, focus, unfocus,
  load-Points, set_next-Points, set_prev-Points, Ahead-frame, Behind-frame, Apart-cons, Apart-tail,
  Ahead-unfocus, Distinct-join,
}
use efi_wrapper.Linked.WalkLaws.{not_null}
use efi_wrapper.Linked.LinkLaws.{Succeeds, succeeds, list_add-last, joined-IsList}

not_in_Ahead :
    (h : Heap) (a prev : ℕ) (xs : Cells) → Ahead h prev xs → h a ≡ none → is_in a xs ≡ false
not_in_Ahead h a prev [] nodes free = refl
not_in_Ahead h a prev ((p, d) ∷ xs) ((ne, e), nodes) free =
    ground (arith, not_in_Ahead h a p xs nodes free)

not_in_Behind :
    (h : Heap) (a next : ℕ) (xs : Cells) → Behind h next xs → h a ≡ none → is_in a xs ≡ false
not_in_Behind h a next [] nodes free = refl
not_in_Behind h a next ((p, d) ∷ xs) ((ne, e), nodes) free =
    ground (arith, not_in_Behind h a p xs nodes free)

module _ (h : Heap) (fuel : ℕ) (left : Cells) (p d n v : ℕ) (n_ne : n ≢ 0) (free : h n ≡ none) where
  abbrev with_node : Heap
  with_node = put h n (some (node 0 0 v))

  with_node-IsAt : (right : Cells) → IsAt h left p d right → IsAt with_node left p d right
  unfolding put
  with_node-IsAt right z =
      let n_left = not_in_Behind h n p left z.behind free in
      let n_right = not_in_Ahead h n p right z.ahead free in
      record {
        here = (z.here.0, ground (arith, z.here.1));
        behind = Behind-frame h with_node p left z.behind (λ a i. ground arith);
        ahead = Ahead-frame h with_node p right z.ahead (λ a i. ground arith);
        not_left = z.not_left;
        not_right = z.not_right;
        distinct_left = z.distinct_left;
        distinct_right = z.distinct_right;
        apart = z.apart;
      }

  abbrev between : ℕ → ℕ → Cells → Heap
  between q k right =
      put
        (put (put (put with_node q (some (node n (head_addr right) k))) n (some (node 0 q v))) p
          (some (node (head_addr left) n d)))
        n (some (node p q v))

  list_add-between :
      (q k : ℕ) (right : Cells)
      → IsAt h left p d ((q, k) ∷ right)
      → list_add fuel p n with_node ≡ done none (between q k right)
  unfolding list_add link_after
  list_add-between q k right z =
      let n_right : is_in n ((q, k) ∷ right) ≡ false =
        not_in_Ahead h n p ((q, k) ∷ right) z.ahead free in
      let pn : (p == n) ≡ false = unfold put in ground (arith, z.here.1) in
      let z' = with_node-IsAt ((q, k) ∷ right) z in
      let alone : Points with_node n (node 0 0 v) = unfold put in (n_ne, ground arith) in
      let h1 : Heap = put with_node q (some (node n (head_addr right) k)) in
      let at_p : Points h1 p (node (head_addr left) q d) =
        unfold put in (z.here.0, ground (arith, z.here.1)) in
      let at_n : Points h1 n (node 0 0 v) = unfold put in (n_ne, ground arith) in
      let h2 : Heap = put h1 n (some (node 0 q v)) in
      let at_p' : Points h2 p (node (head_addr left) q d) =
        unfold put in (z.here.0, ground (arith, z.here.1)) in
      let h3 : Heap = put h2 p (some (node (head_addr left) n d)) in
      let at_n' : Points h3 n (node 0 q v) = unfold put in (n_ne, ground arith) in
      unfold list_first list_last in
      rw (
        not_null p z.here.0,
        not_null n n_ne,
        pn,
        load-Points with_node z'.here,
        not_null q z.ahead.0.0,
        load-Points with_node alone,
        load-Points with_node alone,
        load-Points with_node z'.here,
        set_prev-Points with_node z'.ahead.0 n,
        load-Points h1 at_p,
        set_next-Points h1 at_n q,
        set_next-Points h2 at_p' n,
        set_prev-Points h3 at_n' p,
      )

  between-IsList :
      (q k : ℕ) (right : Cells)
      → IsAt h left p d ((q, k) ∷ right)
      → IsList (between q k right) (reverse_aux left ((p, d) ∷ (n, v) ∷ (q, k) ∷ right))
  unfolding put
  between-IsList q k right z =
      let n_left = not_in_Behind h n p left z.behind free in
      let n_right : is_in n ((q, k) ∷ right) ≡ false =
        not_in_Ahead h n p ((q, k) ∷ right) z.ahead free in
      let pn : (p == n) ≡ false = ground (arith, z.here.1) in
      let (q_left, apart) = Apart-tail q k left right z.apart in
      let g = between q k right in
      record {
        nodes =
            Ahead-unfocus g left p d ((n, v) ∷ (q, k) ∷ right) (z.here.0, ground arith)
              (Behind-frame h g p left z.behind (λ a i. ground arith))
              (
                (n_ne, ground arith),
                (
                  (z.ahead.0.0, ground arith),
                  Ahead-frame h g q right z.ahead.1 (λ a i. ground arith),
                ),
              );
        distinct =
            Distinct-join left ((p, d) ∷ (n, v) ∷ (q, k) ∷ right) z.distinct_left
              (ground arith, (n_right, z.distinct_right))
              (Apart-cons p d left ((n, v) ∷ (q, k) ∷ right) z.not_left
                (Apart-cons n v left ((q, k) ∷ right) n_left z.apart));
      }

-- With memory, list_add_new puts a new node right behind the node it is given, wherever that
-- stands in its list.
pub list_add_new_lem :
    (h : Heap) (fuel : ℕ) (left : Cells) (p d : ℕ) (right : Cells) (fresh payload : ℕ)
    → IsList h (reverse_aux left ((p, d) ∷ right))
    → fresh ≢ 0
    → h fresh ≡ none
    → Succeeds
        (λ g. IsList g (reverse_aux left ((p, d) ∷ (fresh, payload) ∷ right)))
        (list_add_new fuel fresh p payload h)
unfolding list_add_new list_new store
list_add_new_lem h fuel left p d [] fresh payload l ne free =
    let z : IsAt h left p d [] = focus l in
    let z' = with_node-IsAt h fuel left p d fresh payload ne free [] z in
    let p_fresh : (p == fresh) ≡ false = ground (arith, z.here.1) in
    let h' : Heap = with_node h fuel left p d fresh payload ne free in
    let new : IsList h' ((fresh, payload) ∷ []) = record {
      nodes = ((ne, unfold put in ground arith), tt);
      distinct = (refl, tt);
    } in
    let distinct : Distinct (reverse_aux left ((p, d) ∷ (fresh, payload) ∷ [])) =
      Distinct-join left ((p, d) ∷ (fresh, payload) ∷ []) z.distinct_left (ground arith, (refl, tt))
        (Apart-cons p d left ((fresh, payload) ∷ []) z.not_left (
          Apart-cons fresh payload left [] (not_in_Behind h fresh p left z.behind free) z.apart)) in
    rw
      (not_null fresh ne, list_add-last h' left p d fresh payload [] (unfocus z') new distinct fuel)
      (succeeds (joined-IsList h' left p d fresh payload [] (unfocus z') new distinct))
list_add_new_lem h fuel left p d ((q, k) ∷ right) fresh payload l ne free =
    let z : IsAt h left p d ((q, k) ∷ right) = focus l in
    rw (not_null fresh ne, list_add-between h fuel left p d fresh payload ne free q k right z)
      (succeeds (between-IsList h fuel left p d fresh payload ne free q k right z))
