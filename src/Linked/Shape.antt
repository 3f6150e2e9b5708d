-- ===== src/Linked/Shape.antt =====
-- Lists in the heap (lib/general/list.c): a chain of nodes and the sequence of addresses and
-- payloads that it stands for, seen from its first node or from one in the middle.
use mathlib.Core.List.{reverse_aux}
use efi_wrapper.Prelude.{
  ℕ, ◌≡◌, ◌≢◌, refl, Bool, true, false, ◌||◌, ◌==◌, Option, some, List, [], ◌∷◌, ◌++◌, arith,
}
use efi_wrapper.Linked.{Heap, Node, node, put, done, load, set_next, set_prev, store}

-- The address and the payload of each node.
abbrev pub Cells : Type 0
Cells = List (ℕ × ℕ)

abbrev pub head_addr : Cells → ℕ
head_addr [] = 0
head_addr ((p, d) ∷ xs) = p

abbrev pub is_in : ℕ → Cells → Bool
is_in a [] = false
is_in a ((p, d) ∷ xs) = (a == p) || is_in a xs

abbrev pub Distinct : Cells → Type 0
Distinct [] = Unit
Distinct ((p, d) ∷ xs) = (is_in p xs ≡ false) × Distinct xs

-- No node of the one is in the other.
abbrev pub Apart : Cells → Cells → Type 0
Apart [] ys = Unit
Apart ((p, d) ∷ xs) ys = (is_in p ys ≡ false) × Apart xs ys

-- At `p` is a node with these fields.
abbrev pub Points : Heap → ℕ → Node → Type 0
Points h p n = (p ≢ 0) × (h p ≡ some n)

-- The nodes behind one at `prev`.
abbrev pub Ahead : Heap → ℕ → Cells → Type 0
Ahead h prev [] = Unit
Ahead h prev ((p, d) ∷ xs) = Points h p (node prev (head_addr xs) d) × Ahead h p xs

-- The nodes before one at `next`, the nearest first.
abbrev pub Behind : Heap → ℕ → Cells → Type 0
Behind h next [] = Unit
Behind h next ((p, d) ∷ xs) = Points h p (node (head_addr xs) next d) × Behind h p xs

-- A whole list.
pub record IsList (h : Heap) (xs : Cells) : Type 0 where
  pub nodes : Ahead h 0 xs
  pub distinct : Distinct xs

-- The same list seen from the node at `p`: `reverse_aux left ((p, d) ∷ right)` is its sequence.
pub record IsAt (h : Heap) (left : Cells) (p d : ℕ) (right : Cells) : Type 0 where
  pub here : Points h p (node (head_addr left) (head_addr right) d)
  pub behind : Behind h p left
  pub ahead : Ahead h p right
  pub not_left : is_in p left ≡ false
  pub not_right : is_in p right ≡ false
  pub distinct_left : Distinct left
  pub distinct_right : Distinct right
  pub apart : Apart left right

-- Outside of the cells the heap is as before.
abbrev pub SameOutside : Cells → Heap → Heap → Type 0
SameOutside xs h g = (a : ℕ) → is_in a xs ≡ false → g a ≡ h a

pub is_in-append :
    (a : ℕ) (xs ys : Cells) → is_in a xs ≡ false → is_in a ys ≡ false → is_in a (xs ++ ys) ≡ false
is_in-append a [] ys h k = k
is_in-append a ((p, d) ∷ xs) ys h k = ground (arith, is_in-append a xs ys)

pub Apart-cons :
    (q e : ℕ) (xs ys : Cells) → is_in q xs ≡ false → Apart xs ys → Apart xs ((q, e) ∷ ys)
Apart-cons q e [] ys h a = tt
Apart-cons q e ((p, d) ∷ xs) ys h (out, a) = (ground arith, Apart-cons q e xs ys (ground arith) a)

pub Apart-tail :
    (q e : ℕ) (xs ys : Cells) → Apart xs ((q, e) ∷ ys) → (is_in q xs ≡ false) × Apart xs ys
Apart-tail q e [] ys a = (refl, tt)
Apart-tail q e ((p, d) ∷ xs) ys (out, a) =
    let rest = Apart-tail q e xs ys a in (ground arith, (ground arith, rest.1))

pub Distinct-split :
    (left xs : Cells) → Distinct (reverse_aux left xs) → Distinct left × Distinct xs × Apart left xs
Distinct-split [] xs h = (tt, h, tt)
Distinct-split ((q, e) ∷ left) xs h =
    let (l, (out, r), a) = Distinct-split left ((q, e) ∷ xs) h in
    let (q_left, a') = Apart-tail q e left xs a in ((q_left, l), r, (out, a'))

pub Distinct-join :
    (left xs : Cells) → Distinct left → Distinct xs → Apart left xs → Distinct (reverse_aux left xs)
Distinct-join [] xs l r a = r
Distinct-join ((q, e) ∷ left) xs (out, l) r (q_xs, a) =
    Distinct-join left ((q, e) ∷ xs) l (q_xs, r) (Apart-cons q e left xs out a)

Ahead-focus :
    (h : Heap) (left : Cells) (p d : ℕ) (right : Cells)
    → Ahead h 0 (reverse_aux left ((p, d) ∷ right))
    → Points h p (node (head_addr left) (head_addr right) d) × Behind h p left × Ahead h p right
Ahead-focus h [] p d right (here, ahead) = (here, tt, ahead)
Ahead-focus h ((q, e) ∷ left) p d right nodes =
    let (at_q, behind, (here, ahead)) = Ahead-focus h left q e ((p, d) ∷ right) nodes in
    (here, (at_q, behind), ahead)

pub Ahead-unfocus :
    (h : Heap) (left : Cells) (p d : ℕ) (right : Cells)
    → Points h p (node (head_addr left) (head_addr right) d)
    → Behind h p left
    → Ahead h p right
    → Ahead h 0 (reverse_aux left ((p, d) ∷ right))
Ahead-unfocus h [] p d right here behind ahead = (here, ahead)
Ahead-unfocus h ((q, e) ∷ left) p d right here (at_q, behind) ahead =
    Ahead-unfocus h left q e ((p, d) ∷ right) at_q behind (here, ahead)

module _ {h : Heap} {left : Cells} {p d : ℕ} {right : Cells} where
  pub focus : IsList h (reverse_aux left ((p, d) ∷ right)) → IsAt h left p d right
  focus l =
      let (here, behind, ahead) = Ahead-focus h left p d right l.nodes in
      let (dl, (p_right, dr), a) = Distinct-split left ((p, d) ∷ right) l.distinct in
      let (p_left, a') = Apart-tail p d left right a in
      record {
        here = here;
        behind = behind;
        ahead = ahead;
        not_left = p_left;
        not_right = p_right;
        distinct_left = dl;
        distinct_right = dr;
        apart = a';
      }

  pub unfocus : IsAt h left p d right → IsList h (reverse_aux left ((p, d) ∷ right))
  unfocus z = record {
    nodes = Ahead-unfocus h left p d right z.here z.behind z.ahead;
    distinct =
        Distinct-join left ((p, d) ∷ right) z.distinct_left (z.not_right, z.distinct_right)
          (Apart-cons p d left right z.not_left z.apart);
  }

-- A heap that is the same at the nodes holds the same nodes.
pub Ahead-frame :
    (h g : Heap) (prev : ℕ) (xs : Cells)
    → Ahead h prev xs
    → ((a : ℕ) → is_in a xs ≡ true → g a ≡ h a)
    → Ahead g prev xs
Ahead-frame h g prev [] nodes same = tt
Ahead-frame h g prev ((p, d) ∷ xs) ((ne, e), nodes) same =
    ((ne, ground (arith, same p)), Ahead-frame h g p xs nodes (λ a i. same a (ground arith)))

pub Behind-frame :
    (h g : Heap) (next : ℕ) (xs : Cells)
    → Behind h next xs
    → ((a : ℕ) → is_in a xs ≡ true → g a ≡ h a)
    → Behind g next xs
Behind-frame h g next [] nodes same = tt
Behind-frame h g next ((p, d) ∷ xs) ((ne, e), nodes) same =
    ((ne, ground (arith, same p)), Behind-frame h g p xs nodes (λ a i. same a (ground arith)))

pub Apart-out : (a : ℕ) (xs ys : Cells) → Apart xs ys → is_in a xs ≡ true → is_in a ys ≡ false
Apart-out a [] ys apart i = cc
Apart-out a ((p, d) ∷ xs) ys (out, apart) i = ground (arith, Apart-out a xs ys apart)

module _ (h : Heap) {p prev next d : ℕ} (at_p : Points h p (node prev next d)) where
  pub load-Points : load p h ≡ done (node prev next d) h
  unfolding load
  load-Points = ground (arith, at_p.0, at_p.1)

  pub set_next-Points : (q : ℕ) → set_next p q h ≡ done tt (put h p (some (node prev q d)))
  unfolding set_next store
  set_next-Points q = rw load-Points

  pub set_prev-Points : (q : ℕ) → set_prev p q h ≡ done tt (put h p (some (node q next d)))
  unfolding set_prev store
  set_prev-Points q = rw load-Points

put_same : (h : Heap) (p : ℕ) (c : Option Node) → put h p c p ≡ c
unfolding put
put_same h p c = ground arith

put_other : (h : Heap) (p a : ℕ) (c : Option Node) → a ≢ p → put h p c a ≡ h a
unfolding put
put_other h p a c ne = ground arith
