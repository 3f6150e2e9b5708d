-- ===== src/Pathname/Resolved.antt =====
-- What path_resolve (lib/general/path.c) makes of a whole path.
use efi_wrapper.Prelude.{
  ℕ, ◌+◌, ◌<◌, ◌≤◌, ◌≡◌, refl, ◌∙◌, ap, false, ◌&&◌, ◌==◌, none, some, List, [], ◌∷◌, ◌++◌, length,
  arith, Bool-cases, inl, inr,
}
use efi_wrapper.Pathname.{slash, dot, Output, leave, resolve_round, resolve_loop, path_resolve}
use efi_wrapper.Pathname.Resolving.{
  IsName, AreNames, slashed, bytes, text, visit, visit_all, loop-passes, round-put, length-reversed,
  room, at_text, name-push, parent-shorter, first-three, leave-text, round-slash-start, round-dot,
  round-dots, round-dot-end, round-dots-end, round-two, round-three, loop-skip,
}

-- The loop goes over one name and its slash as the name is meant.
name-visit :
    (n path : List ℕ) (stack : List (List ℕ)) (size : ℕ)
    → IsName n
    → AreNames stack
    → length n + 1 ≤ size
    → resolve_loop slash 0 (at_text stack size) (n ++ (slash ∷ path))
      ≡ resolve_loop slash 0 (at_text (visit n stack) (room size stack (visit n stack))) path
name-visit [] path stack size v w h =
    let same : size ≡ room size stack stack = omega arith in
    loop-passes slash _ _ 0 slash path (round-slash-start stack size (ground (arith, h)) path)
    ∙ ap (λ k. resolve_loop slash 0 (at_text stack k) path) same
name-visit (c ∷ []) path stack size v w h = elim (Bool-cases (c == dot)) [
  | inl e ↦
      let same : size ≡ room size stack stack = omega arith in
      rw e (
        loop-passes slash _ _ 1 c (slash ∷ path)
          (round-dot stack size (ground (arith, h)) c path (ground (arith, e)))
        ∙ loop-skip slash 0 _ slash path
        ∙ ap (λ k. resolve_loop slash 0 (at_text stack k) path) same)
  | inr e ↦ rw e (
      name-push c [] path stack size v (omega (arith, h)) (
        round-put (text stack) (slash ∷ path) size c (ground (arith, h)) v.0 v.1 v.2
          (ground (arith, e))))
]
name-visit (c ∷ d ∷ []) path stack size v w h = elim (Bool-cases (c == dot && d == dot)) [
  | inl e ↦
      let some_room : (size == 0) ≡ false = ground (arith, h) in
      let dots : (c ≡ dot) × (d ≡ dot) = (ground (arith, e), ground (arith, e)) in
      rw e (
        loop-passes slash _ _ 2 c (d ∷ slash ∷ path)
          (round-dots stack size some_room c d path dots.0 dots.1)
        ∙ loop-skip slash 1 _ d (slash ∷ path)
        ∙ loop-skip slash 0 _ slash path
        ∙ ap (λ out. resolve_loop slash 0 out path) (leave-text stack size w))
  | inr e ↦ rw e (
      name-push c (d ∷ []) path stack size v (omega (arith, h))
        (round-two stack size (ground (arith, h)) c d (slash ∷ path) v e))
]
name-visit (c ∷ d ∷ f ∷ n) path stack size v w h =
    name-push c (d ∷ f ∷ n) path stack size v (omega (arith, h)) (
      round-three stack size (ground (arith, h)) c d f (n ++ (slash ∷ path))
        (first-three c d f n v))

AreNames-visit :
    (n : List ℕ) (stack : List (List ℕ)) → IsName n → AreNames stack → AreNames (visit n stack)
AreNames-visit [] stack v w = w
AreNames-visit (c ∷ []) stack v w = elim (Bool-cases (c == dot)) [
  | inl e ↦ rw e w
  | inr e ↦ rw e (v, w)
]
AreNames-visit (c ∷ d ∷ []) [] v w = elim (Bool-cases (c == dot && d == dot)) [
  | inl e ↦ rw e tt
  | inr e ↦ rw e (v, w)
]
AreNames-visit (c ∷ d ∷ []) (n ∷ stack) v w = elim (Bool-cases (c == dot && d == dot)) [
  | inl e ↦ rw e w.1
  | inr e ↦ rw e (v, w)
]
AreNames-visit (c ∷ d ∷ f ∷ n) stack v w = (v, w)

visit-shorter :
    (n : List ℕ) (stack : List (List ℕ))
    → length (text (visit n stack)) ≤ length (text stack) + (length n + 1)
visit-shorter [] stack = omega arith
visit-shorter (c ∷ []) stack = elim (Bool-cases (c == dot)) [
  | inl e ↦ rw e (omega arith)
  | inr e ↦ rw e (omega (arith, length-reversed (text stack) (c ∷ [])))
]
visit-shorter (c ∷ d ∷ []) stack = elim (Bool-cases (c == dot && d == dot)) [
  | inl e ↦ rw e (omega (arith, parent-shorter stack))
  | inr e ↦ rw e (omega (arith, length-reversed (text stack) (c ∷ d ∷ [])))
]
visit-shorter (c ∷ d ∷ f ∷ n) stack = omega (arith, length-reversed (text stack) (c ∷ d ∷ f ∷ n))

-- The loop over names that each end with a slash, from the text of a path.
loop-slashed :
    (names : List (List ℕ)) (rest : List ℕ) (stack : List (List ℕ)) (size : ℕ)
    → AreNames names
    → AreNames stack
    → bytes names < size
    → (left : ℕ) × (0 < left)
      × (resolve_loop slash 0 (at_text stack size) (slashed names rest)
          ≡ resolve_loop slash 0 (at_text (visit_all names stack) left) rest)
loop-slashed [] rest stack size v w h = (size, h, refl)
loop-slashed (n ∷ names) rest stack size (v, vs) w h =
    let more = visit-shorter n stack in
    let (left, p, e) =
      loop-slashed names rest (visit n stack) (room size stack (visit n stack)) vs
        (AreNames-visit n stack v w) (omega (arith, more, h)) in
    (left, p, name-visit n (slashed names rest) stack size v w (omega (arith, h)) ∙ e)

loop-end :
    (stack : List (List ℕ)) (size : ℕ) (rest : List ℕ)
    → resolve_loop slash 0 (at_text stack size) (0 ∷ rest) ≡ some (text stack)
unfolding resolve_loop resolve_round
loop-end stack size rest = elim (Bool-cases (size == 0)) [
  | inl e ↦ ground (arith, e)
  | inr e ↦ ground (arith, e)
]

-- At the end of the bytes the loop still wants to read, if there is room.
loop-outside : (out : Output) → (out.size == 0) ≡ false → resolve_loop slash 0 out [] ≡ none
unfolding resolve_loop
loop-outside out e = rw e refl

loop-dot :
    (stack : List (List ℕ)) (size : ℕ)
    → 0 < size
    → resolve_loop slash 0 (at_text stack size) (dot ∷ 0 ∷ []) ≡ none
loop-dot stack size h =
    let e : (size == 0) ≡ false = ground (arith, h) in
    loop-passes slash _ (at_text stack size) 1 dot (0 ∷ []) (round-dot-end stack size e [])
    ∙ loop-skip slash 0 _ 0 []
    ∙ loop-outside (at_text stack size) e

loop-dots :
    (stack : List (List ℕ)) (size : ℕ)
    → 0 < size
    → resolve_loop slash 0 (at_text stack size) (dot ∷ dot ∷ 0 ∷ []) ≡ none
loop-dots stack size h =
    let e : (size == 0) ≡ false = ground (arith, h) in
    let out = leave slash (at_text stack size) in
    loop-passes slash _ out 2 dot (dot ∷ 0 ∷ []) (round-dots-end stack size e [])
    ∙ loop-skip slash 1 _ dot (0 ∷ [])
    ∙ loop-skip slash 0 _ 0 []
    ∙ loop-outside out (ground (arith, h))

-- For a path of names that each end with a slash, and a buffer longer than the path: the result is
-- the path of what is left when empty names and dots are left out and two dots take away the name
-- before them, none at the start.
pub path_resolve_lem :
    (size : ℕ) (names : List (List ℕ)) (rest : List ℕ)
    → AreNames names
    → bytes names < size
    → path_resolve size slash (some (slashed names (0 ∷ rest))) ≡ some (text (visit_all names []))
path_resolve_lem size names rest v h =
    let (left, p, e) = loop-slashed names (0 ∷ rest) [] size v tt h in
    let some_size : (size == 0) ≡ false = ground (arith, h) in
    rw some_size (e ∙ loop-end (visit_all names []) left rest)

-- A path that ends with a dot, or with two, behind names that each end with a slash, in a buffer
-- that has room for more than two bytes beyond the names: the loop steps over the null byte and
-- reads on behind it.
pub path_resolve-outside :
    (size : ℕ) (names : List (List ℕ))
    → AreNames names
    → bytes names + 2 < size
    → (path_resolve size slash (some (slashed names (dot ∷ 0 ∷ []))) ≡ none)
      × (path_resolve size slash (some (slashed names (dot ∷ dot ∷ 0 ∷ []))) ≡ none)
path_resolve-outside size names v h =
    let (left, p, e) = loop-slashed names (dot ∷ 0 ∷ []) [] size v tt (omega (arith, h)) in
    let (left', p', e') = loop-slashed names (dot ∷ dot ∷ 0 ∷ []) [] size v tt (omega (arith, h)) in
    let some_size : (size == 0) ≡ false = ground (arith, h) in
    (
      rw some_size (e ∙ loop-dot (visit_all names []) left p),
      rw some_size (e' ∙ loop-dots (visit_all names []) left' p'),
    )
