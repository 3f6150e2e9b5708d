-- ===== src/Linked/WalkLaws.antt =====
-- The walks, the count and the searches on a list in the heap (lib/general/list.c).
use mathlib.Core.List.{reverse_aux}
use efi_wrapper.Prelude.{
  ℕ, zero, suc, ◌+◌, ◌<◌, ◌≡◌, ◌≢◌, refl, true, false, ◌||◌, ◌==◌, ◌⊎◌, inl, inr, [], ◌∷◌, ◌++◌,
  length, arith,
}
use efi_wrapper.Linked.{Heap, done, at}
use efi_wrapper.Linked.Walk.{last_loop, list_last, first_loop, list_first, count_loop}
use efi_wrapper.Linked.Shape.{Cells, head_addr, is_in, Ahead, Behind, IsAt, load-Points}

-- The address of the last of some nodes, else that one.
abbrev pub last_addr : ℕ → Cells → ℕ
last_addr p [] = p
last_addr p ((q, e) ∷ xs) = last_addr q xs

last_loop-Ahead :
    (h : Heap) (fuel point prev q e : ℕ) (xs : Cells)
    → Ahead h prev ((q, e) ∷ xs)
    → is_in point ((q, e) ∷ xs) ≡ false
    → length xs < fuel
    → last_loop fuel point q h ≡ done (at (last_addr q xs)) h
unfolding last_loop
last_loop-Ahead h zero point prev q e xs nodes out f = absurd (omega arith)
last_loop-Ahead h (suc fuel) point prev q e [] (here, rest) out f =
    let ne : (q == point) ≡ false = ground arith in rw (ne, load-Points h here)
last_loop-Ahead h (suc fuel) point prev q e ((r, k) ∷ xs) (here, (next, rest)) out f =
    let ne : (q == point) ≡ false = ground arith in
    let more : (r == 0) ≡ false = ground (arith, next.0) in
    rw (ne, load-Points h here, more)
      (last_loop-Ahead h fuel point q r k xs (next, rest) (ground arith) (omega arith))

first_loop-Behind :
    (h : Heap) (fuel point next q e : ℕ) (xs : Cells)
    → Behind h next ((q, e) ∷ xs)
    → is_in point ((q, e) ∷ xs) ≡ false
    → length xs < fuel
    → first_loop fuel point q h ≡ done (at (last_addr q xs)) h
unfolding first_loop
first_loop-Behind h zero point next q e xs nodes out f = absurd (omega arith)
first_loop-Behind h (suc fuel) point next q e [] (here, rest) out f =
    let ne : (q == point) ≡ false = ground arith in rw (ne, load-Points h here)
first_loop-Behind h (suc fuel) point next q e ((r, k) ∷ xs) (here, (prev, rest)) out f =
    let ne : (q == point) ≡ false = ground arith in
    let more : (r == 0) ≡ false = ground (arith, prev.0) in
    rw (ne, load-Points h here, more)
      (first_loop-Behind h fuel point q r k xs (prev, rest) (ground arith) (omega arith))

pub not_null : (p : ℕ) → p ≢ 0 → (p == 0) ≡ false
not_null p ne = ground arith

-- From any node of a list both walks end at its ends and change nothing.
pub list_last-IsAt :
    (h : Heap) (fuel : ℕ) {left : Cells} {p d : ℕ} (right : Cells)
    → IsAt h left p d right
    → length right < fuel
    → list_last fuel p h ≡ done (at (last_addr p right)) h
unfolding list_last
list_last-IsAt h fuel [] z f = rw (not_null _ z.here.0, load-Points h z.here)
list_last-IsAt h fuel {p} ((q, e) ∷ right) z f =
    rw (not_null p z.here.0, load-Points h z.here, not_null q z.ahead.0.0)
      (last_loop-Ahead h fuel p p q e right z.ahead z.not_right (omega arith))

pub list_first-IsAt :
    (h : Heap) (fuel : ℕ) (left : Cells) {p d : ℕ} {right : Cells}
    → IsAt h left p d right
    → length left < fuel
    → list_first fuel p h ≡ done (at (last_addr p left)) h
unfolding list_first
list_first-IsAt h fuel [] z f = rw (not_null _ z.here.0, load-Points h z.here)
list_first-IsAt h fuel ((q, e) ∷ left) {p} z f =
    rw (not_null p z.here.0, load-Points h z.here, not_null q z.behind.0.0)
      (first_loop-Behind h fuel p p q e left z.behind z.not_left (omega arith))

pub head-reverse_aux :
    (left : Cells) (p d : ℕ) (right : Cells)
    → head_addr (reverse_aux left ((p, d) ∷ right)) ≡ last_addr p left
head-reverse_aux [] p d right = refl
head-reverse_aux ((q, e) ∷ left) p d right = head-reverse_aux left q e ((p, d) ∷ right)

-- The count from a node stops at the end or at the node `point`.
pub count_loop-Ahead :
    (h : Heap) (fuel point prev q e t : ℕ) (xs ys : Cells)
    → Ahead h prev ((q, e) ∷ xs ++ ys)
    → is_in point xs ≡ false
    → (ys ≡ []) ⊎ (head_addr ys ≡ point)
    → length xs < fuel
    → count_loop fuel point q t h ≡ done (inr (t + length xs)) h
unfolding count_loop
count_loop-Ahead h zero point prev q e t xs ys nodes out stop f = absurd (omega arith)
count_loop-Ahead h (suc fuel) point prev q e t [] ys (here, rest) out stop f =
    let ends : ((head_addr ys == 0) || (head_addr ys == point)) ≡ true = elim stop [
      | inl e ↦ rw e
      | inr e ↦ ground (arith, e)
    ] in
    rw (load-Points h here, ends) (ground arith)
count_loop-Ahead h (suc fuel) point prev q e t ((r, k) ∷ xs) ys (here, (next, rest)) out stop f =
    let more : ((r == 0) || (r == point)) ≡ false = ground (arith, next.0) in
    rw (load-Points h here, more)
      (ground (
        arith,
        count_loop-Ahead h fuel point q r k (t + 1) xs ys (next, rest) (ground arith) stop
            (omega arith),
      ))
