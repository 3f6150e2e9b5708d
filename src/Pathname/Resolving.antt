-- ===== src/Pathname/Resolving.antt =====
-- What path_resolve (lib/general/path.c) makes of a path of names that each end with a slash.
use efi_wrapper.Prelude.{
  ℕ, suc, ◌+◌, ◌-◌, ◌≤◌, ◌≡◌, ◌≢◌, refl, ◌∙◌, ap, true, false, ◌&&◌, ◌==◌, List, [], ◌∷◌, ◌++◌,
  length, if◌then◌else◌, arith,
}
use efi_wrapper.Pathname.{
  slash, backslash, dot, is_sep, Output, at_start, ends_without, erase_name, erase, leave, passes,
  resolve_round, resolve_loop, reversed,
}

-- The bytes of a name: no separator and no null byte.
abbrev pub IsName : List ℕ → Type 0
IsName [] = Unit
IsName (c ∷ n) = (c ≢ 0) × (c ≢ slash) × (c ≢ backslash) × IsName n

abbrev pub AreNames : List (List ℕ) → Type 0
AreNames [] = Unit
AreNames (n ∷ names) = IsName n × AreNames names

-- The bytes of a path, and what follows it.
abbrev pub slashed : List (List ℕ) → List ℕ → List ℕ
slashed [] rest = rest
slashed (n ∷ names) rest = n ++ (slash ∷ slashed names rest)

abbrev pub bytes : List (List ℕ) → ℕ
bytes [] = 0
bytes (n ∷ names) = length n + 1 + bytes names

-- The text of a path, whose last name comes first, the last byte first.
abbrev pub text : List (List ℕ) → List ℕ
text [] = []
text (n ∷ stack) = slash ∷ reversed (text stack) n

abbrev pub parent : List (List ℕ) → List (List ℕ)
parent [] = []
parent (n ∷ stack) = stack

-- What a name means: an empty one and a dot nothing, two dots the way back, any other a step.
abbrev pub visit : List ℕ → List (List ℕ) → List (List ℕ)
visit [] stack = stack
visit (c ∷ []) stack = if c == dot then stack else (c ∷ []) ∷ stack
visit (c ∷ d ∷ []) stack = if c == dot && d == dot then parent stack else (c ∷ d ∷ []) ∷ stack
visit (c ∷ d ∷ e ∷ n) stack = (c ∷ d ∷ e ∷ n) ∷ stack

abbrev pub visit_all : List (List ℕ) → List (List ℕ) → List (List ℕ)
visit_all [] stack = stack
visit_all (n ∷ names) stack = visit_all names (visit n stack)

pub loop-passes :
    (sep : ℕ) (out more : Output) (skip c : ℕ) (path : List ℕ)
    → resolve_round sep out (c ∷ path) ≡ passes skip more
    → resolve_loop sep 0 out (c ∷ path) ≡ resolve_loop sep skip more path
unfolding resolve_loop
loop-passes sep out more skip c path e = ground (arith, e)

-- A byte of a name, not its first one or not a dot, is written.
pub round-put :
    (written path : List ℕ) (size c : ℕ)
    → (size == 0) ≡ false
    → c ≢ 0
    → c ≢ slash
    → c ≢ backslash
    → (c == dot && at_start written) ≡ false
    → resolve_round slash (record { written = written; size = size }) (c ∷ path)
      ≡ passes 0 (record { written = c ∷ written; size = size - 1 })
unfolding resolve_round is_sep
round-put written path size c e z a b d =
    let e0 : (c == 0) ≡ false = ground (arith, z) in
    let e1 : (c == slash) ≡ false = ground (arith, a) in
    let e2 : (c == backslash) ≡ false = ground (arith, b) in rw (e, e0, e1, e2, d) refl

round-slash :
    (written path : List ℕ) (size : ℕ)
    → (size == 0) ≡ false
    → at_start written ≡ false
    → resolve_round slash (record { written = written; size = size }) (slash ∷ path)
      ≡ passes 0 (record { written = slash ∷ written; size = size - 1 })
unfolding resolve_round is_sep
round-slash [] path size e s = cc
round-slash (c ∷ written) path size e s =
    let e' : (c == slash) ≡ false = ground (arith, s) in rw (e, e') refl

name-rest :
    (n written path : List ℕ) (size : ℕ)
    → IsName n
    → at_start written ≡ false
    → length n + 1 ≤ size
    → resolve_loop slash 0 (record { written = written; size = size }) (n ++ (slash ∷ path))
      ≡ resolve_loop slash 0
          (record { written = slash ∷ reversed written n; size = size - (length n + 1) })
          path
unfolding reversed
name-rest [] written path size v s h =
    loop-passes slash _ _ 0 slash path (round-slash written path size (ground (arith, h)) s)
name-rest (c ∷ n) written path size (z, a, b, v) s h =
    let next : at_start (c ∷ written) ≡ false = ground (arith, a, b) in
    let plain : (c == dot && at_start written) ≡ false = ground (arith, s) in
    let less : size - 1 - (length n + 1) ≡ size - (suc (length n) + 1) = omega arith in
    let round = round-put written (n ++ (slash ∷ path)) size c (ground (arith, h)) z a b plain in
    loop-passes slash _ _ 0 c (n ++ (slash ∷ path)) round
    ∙ name-rest n (c ∷ written) path (size - 1) v next (omega (arith, h))
    ∙ ap
        (λ k.
          resolve_loop slash 0 (record { written = slash ∷ reversed (c ∷ written) n; size = k })
            path)
        less

pub length-reversed : (done path : List ℕ) → length (reversed done path) ≡ length path + length done
unfolding reversed
length-reversed done [] = omega arith
length-reversed done (c ∷ path) = omega (arith, length-reversed (c ∷ done) path)

-- The room after some text has become another one.
abbrev pub room : ℕ → List (List ℕ) → List (List ℕ) → ℕ
room size stack new = size + length (text stack) - length (text new)

abbrev pub at_text : List (List ℕ) → ℕ → Output
at_text stack size = record { written = text stack; size = size }

pub name-push :
    (c : ℕ) (n path : List ℕ) (stack : List (List ℕ)) (size : ℕ)
    → IsName (c ∷ n)
    → length n + 2 ≤ size
    → resolve_round slash (at_text stack size) (c ∷ (n ++ (slash ∷ path)))
      ≡ passes 0 (record { written = c ∷ text stack; size = size - 1 })
    → resolve_loop slash 0 (at_text stack size) (c ∷ (n ++ (slash ∷ path)))
      ≡ resolve_loop slash 0 (at_text ((c ∷ n) ∷ stack) (room size stack ((c ∷ n) ∷ stack))) path
unfolding reversed
name-push c n path stack size (z, a, b, v) h round =
    let next : at_start (c ∷ text stack) ≡ false = ground (arith, a, b) in
    let less : size - 1 - (length n + 1) ≡ room size stack ((c ∷ n) ∷ stack) =
      omega (arith, length-reversed (c ∷ text stack) n) in
    loop-passes slash _ _ 0 c (n ++ (slash ∷ path)) round
    ∙ name-rest n (c ∷ text stack) path (size - 1) v next (omega (arith, h))
    ∙ ap
        (λ k.
          resolve_loop slash 0 (record { written = slash ∷ reversed (c ∷ text stack) n; size = k })
            path)
        less

text-start : (stack : List (List ℕ)) → at_start (text stack) ≡ true
text-start [] = refl
text-start (n ∷ stack) = refl

text-end : (stack : List (List ℕ)) → ends_without slash (text stack) ≡ false
text-end [] = refl
text-end (n ∷ stack) = refl

pub parent-shorter : (stack : List (List ℕ)) → length (text (parent stack)) ≤ length (text stack)
parent-shorter [] = omega arith
parent-shorter (n ∷ stack) = omega (arith, length-reversed (text stack) n)

pub first-three : (c d f : ℕ) (n : List ℕ) → IsName (c ∷ d ∷ f ∷ n) → IsName (c ∷ d ∷ f ∷ [])
first-three c d f n (a, b, e, (a', b', e', (a'', b'', e'', v))) =
    (a, b, e, (a', b', e', (a'', b'', e'', tt)))

erase_name-reversed :
    (written n : List ℕ) (stack : List (List ℕ))
    → IsName n
    → erase_name slash written ≡ text stack
    → erase_name slash (reversed written n) ≡ text stack
unfolding reversed erase_name
erase_name-reversed written [] stack v e = e
erase_name-reversed written (c ∷ n) stack (z, a, b, v) e =
    let ne : (c == slash) ≡ false = ground (arith, a) in
    erase_name-reversed (c ∷ written) n stack v (rw ne e)

erase_name-text : (stack : List (List ℕ)) → erase_name slash (text stack) ≡ text stack
unfolding erase_name
erase_name-text [] = refl
erase_name-text (n ∷ stack) = refl

erase-text :
    (stack : List (List ℕ)) → AreNames stack → erase slash (text stack) ≡ text (parent stack)
unfolding erase
erase-text [] v = refl
erase-text (n ∷ stack) (v, _) = erase_name-reversed (text stack) n stack v (erase_name-text stack)

pub leave-text :
    (stack : List (List ℕ)) (size : ℕ)
    → AreNames stack
    → leave slash (at_text stack size) ≡ at_text (parent stack) (room size stack (parent stack))
leave-text stack size w =
    let k : size + (length (text stack) - length (text (parent stack)))
        ≡ room size stack (parent stack) =
      omega (arith, parent-shorter stack) in
    rw (erase-text stack w) (λ i. record { written = text (parent stack); size = k i })

-- The rounds at the first bytes of a name.
module _ (stack : List (List ℕ)) (size : ℕ) (some_room : (size == 0) ≡ false) where
  pub round-slash-start :
      (path : List ℕ)
      → resolve_round slash (at_text stack size) (slash ∷ path) ≡ passes 0 (at_text stack size)
  unfolding resolve_round is_sep
  round-slash-start path = rw (some_room, text-end stack) refl

  pub round-dot :
      (c : ℕ) (path : List ℕ)
      → c ≡ dot
      → resolve_round slash (at_text stack size) (c ∷ slash ∷ path) ≡ passes 1 (at_text stack size)
  unfolding resolve_round is_sep
  round-dot c path e = rw (e, some_room, text-start stack) refl

  pub round-dots :
      (c d : ℕ) (path : List ℕ)
      → c ≡ dot
      → d ≡ dot
      → resolve_round slash (at_text stack size) (c ∷ d ∷ slash ∷ path)
        ≡ passes 2 (leave slash (at_text stack size))
  unfolding resolve_round is_sep
  round-dots c d path e e' = rw (e, e', some_room, text-start stack) refl

  pub round-dot-end :
      (path : List ℕ)
      → resolve_round slash (at_text stack size) (dot ∷ 0 ∷ path) ≡ passes 1 (at_text stack size)
  unfolding resolve_round is_sep
  round-dot-end path = rw (some_room, text-start stack) refl

  pub round-dots-end :
      (path : List ℕ)
      → resolve_round slash (at_text stack size) (dot ∷ dot ∷ 0 ∷ path)
        ≡ passes 2 (leave slash (at_text stack size))
  unfolding resolve_round is_sep
  round-dots-end path = rw (some_room, text-start stack) refl

  pub round-two :
      (c d : ℕ) (path : List ℕ)
      → IsName (c ∷ d ∷ [])
      → (c == dot && d == dot) ≡ false
      → resolve_round slash (at_text stack size) (c ∷ d ∷ path)
        ≡ passes 0 (record { written = c ∷ text stack; size = size - 1 })
  unfolding resolve_round is_sep
  round-two c d path v e = ground (arith, v, e, some_room, text-start stack)

  pub round-three :
      (c d f : ℕ) (path : List ℕ)
      → IsName (c ∷ d ∷ f ∷ [])
      → resolve_round slash (at_text stack size) (c ∷ d ∷ f ∷ path)
        ≡ passes 0 (record { written = c ∷ text stack; size = size - 1 })
  unfolding resolve_round is_sep
  round-three c d f path v = ground (arith, v, some_room, text-start stack)

pub loop-skip :
    (sep skip : ℕ) (out : Output) (c : ℕ) (path : List ℕ)
    → resolve_loop sep (suc skip) out (c ∷ path) ≡ resolve_loop sep skip out path
unfolding resolve_loop
loop-skip sep skip out c path = refl
