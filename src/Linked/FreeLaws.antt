-- ===== src/Linked/FreeLaws.antt =====
-- list_free_all of lib/general/list.c.
use efi_wrapper.Prelude.{
  ℕ, zero, suc, ◌<◌, ◌≡◌, ◌≢◌, ◌∙◌, Bool, true, not, ◌&&◌, ◌==◌, Option, none, some, List, [], ◌∷◌,
  ◌++◌, length, append-nil, if◌then◌else◌, arith,
}
use efi_wrapper.Linked.{Heap, Node, node, put, done, store}
use efi_wrapper.Linked.Free.{list_free_item, free_loop, list_free_all}
use efi_wrapper.Linked.Shape.{
  Cells, head_addr, is_in, Points, IsList, load-Points, set_prev-Points, Ahead-frame,
}
use efi_wrapper.Linked.WalkLaws.{not_null}
use efi_wrapper.Linked.SortLaws.{list_first-member}

abbrev pub handed : Bool → ℕ → List ℕ
handed datafree d = if not (d == 0) && datafree then d ∷ [] else []

-- What `datafree` is called with: every payload that is not null.
abbrev pub payloads : Bool → Cells → List ℕ
payloads datafree [] = []
payloads datafree ((p, d) ∷ xs) = handed datafree d ++ payloads datafree xs

-- Every cell is freed, and the rest of the heap is as before.
abbrev pub IsFreed : Cells → Heap → Heap → Type 0
IsFreed xs h g = (a : ℕ) → g a ≡ (if is_in a xs then none else h a)

module _ (datafree : Bool) (h : Heap) (p d : ℕ) where
  free_last :
      Points h p (node 0 0 d)
      → list_free_item datafree p h ≡ done (none, handed datafree d) (put h p none)
  unfolding list_free_item store
  free_last here =
      rw (not_null p here.0, load-Points h here, load-Points h here, load-Points h here)

  abbrev cut : ℕ → ℕ → Cells → Heap
  cut q k xs = put (put h q (some (node 0 (head_addr xs) k))) p none

  free_first :
      (q k : ℕ) (xs : Cells)
      → IsList h ((p, d) ∷ (q, k) ∷ xs)
      → list_free_item datafree p h ≡ done (none, handed datafree d) (cut q k xs)
  unfolding list_free_item store
  free_first q k xs l =
      let (here, (next, rest)) = l.nodes in
      let h1 : Heap = put h q (some (node 0 (head_addr xs) k)) in
      let here1 : Points h1 p (node 0 q d) =
        unfold put in (here.0, ground (arith, here.1, l.distinct.0)) in
      rw (
        not_null p here.0,
        load-Points h here,
        load-Points h here,
        not_null q next.0,
        set_prev-Points h next 0,
        load-Points h1 here1,
      )

  cut_lem :
      (a q k : ℕ) (xs : Cells)
      → ◌≡◌ {A = Option Node}
          (if is_in a ((q, k) ∷ xs) then none else cut q k xs a)
          (if is_in a ((p, d) ∷ (q, k) ∷ xs) then none else h a)
  unfolding put
  cut_lem a q k xs = ground arith

  cut-IsList :
      (q k : ℕ) (xs : Cells) → IsList h ((p, d) ∷ (q, k) ∷ xs) → IsList (cut q k xs) ((q, k) ∷ xs)
  unfolding put
  cut-IsList q k xs l =
      let (here, (next, rest)) = l.nodes in
      let (p_out, (q_out, dist)) = l.distinct in
      record {
        nodes = (
          (next.0, ground (arith, p_out)),
          Ahead-frame h (cut q k xs) q xs rest (λ a i. ground (arith, p_out, q_out)),
        );
        distinct = (q_out, dist);
      }

free_loop-IsFreed :
    (datafree : Bool) (h : Heap) (fuel p d : ℕ) (xs : Cells)
    → IsList h ((p, d) ∷ xs)
    → length xs < fuel
    → (g : Heap) × (free_loop datafree fuel p h ≡ done (payloads datafree ((p, d) ∷ xs)) g)
      × IsFreed ((p, d) ∷ xs) h g
unfolding free_loop put
free_loop-IsFreed datafree h zero p d xs l f = absurd (omega arith)
free_loop-IsFreed datafree h (suc fuel) p d [] l f = (
  put h p none,
  rw (load-Points h l.nodes.0, free_last datafree h p d l.nodes.0, append-nil (handed datafree d)),
  λ a. ground arith,
)
free_loop-IsFreed datafree h (suc fuel) p d ((q, k) ∷ xs) l f =
    let (g, run, freed) =
      free_loop-IsFreed datafree (cut datafree h p d q k xs) fuel q k xs
        (cut-IsList datafree h p d q k xs l) (omega arith) in
    (
      g,
      rw (
        load-Points h l.nodes.0,
        free_first datafree h p d q k xs l,
        not_null q l.nodes.1.0.0,
        run,
      ),
      λ a. freed a ∙ cut_lem datafree h p d a q k xs,
    )

-- list_free_all, from any node of a list and with fuel for its nodes, frees every node of the list
-- and nothing else, and hands the payloads that are not null to `datafree`, if there is one, in the
-- order of the list.
pub list_free_all-IsFreed :
    (datafree : Bool) (h : Heap) (fuel lst p d : ℕ) (xs : Cells)
    → IsList h ((p, d) ∷ xs)
    → is_in lst ((p, d) ∷ xs) ≡ true
    → lst ≢ 0
    → length xs < fuel
    → (g : Heap) × (list_free_all datafree fuel lst h
        ≡ done (none, payloads datafree ((p, d) ∷ xs)) g)
      × IsFreed ((p, d) ∷ xs) h g
unfolding list_free_all
list_free_all-IsFreed datafree h fuel lst p d xs l i ne f =
    let (g, run, freed) = free_loop-IsFreed datafree h fuel p d xs l f in
    (g, rw (not_null lst ne, list_first-member h fuel lst p d xs l i f, run), freed)
