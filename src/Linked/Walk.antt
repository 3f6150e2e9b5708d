-- ===== src/Linked/Walk.antt =====
-- lib/general/list.c: the walks to the first and the last node, the count and the searches. A walk
-- takes fuel for the nodes.
use efi_wrapper.Prelude.{
  ℕ, zero, suc, ◌+◌, Bool, true, false, not, ◌&&◌, ◌||◌, ◌==◌, List, [], ◌∷◌, ◌⊎◌, inl, inr,
  if◌then◌else◌,
}
use efi_wrapper.Linked.{
  Cmd, pure, out_of_fuel, ◌>>=◌, load, Error, inval, loop, noent, Found, at, null,
}

unfoldable pub last_loop : ℕ → ℕ → ℕ → Cmd Found
last_loop zero point cur = out_of_fuel
last_loop (suc fuel) point cur =
    if cur == point
    then pure (null loop)
    else do n ← load cur; if n.next == 0 then pure (at cur) else last_loop fuel point n.next

unfoldable pub list_last : ℕ → ℕ → Cmd Found
list_last fuel point =
    if point == 0
    then pure (null inval)
    else do n ← load point; if n.next == 0 then pure (at point) else last_loop fuel point n.next

unfoldable pub first_loop : ℕ → ℕ → ℕ → Cmd Found
first_loop zero point cur = out_of_fuel
first_loop (suc fuel) point cur =
    if cur == point
    then pure (null loop)
    else do n ← load cur; if n.prev == 0 then pure (at cur) else first_loop fuel point n.prev

unfoldable pub list_first : ℕ → ℕ → Cmd Found
list_first fuel point =
    if point == 0
    then pure (null inval)
    else do n ← load point; if n.prev == 0 then pure (at point) else first_loop fuel point n.prev

-- For a caller that takes NULL as 0 and does not look at errno.
abbrev pub pointer : Found → ℕ
pointer (at p) = p
pointer (null e) = 0

unfoldable pub count_loop : ℕ → ℕ → ℕ → ℕ → Cmd (Error ⊎ ℕ)
count_loop zero point cur t = out_of_fuel
count_loop (suc fuel) point cur t = do
  n ← load cur
  if n.next == 0 || n.next == point then pure (inr t) else count_loop fuel point n.next (t + 1)

abbrev pub count_from : ℕ → ℕ → Found → Cmd (Error ⊎ ℕ)
count_from fuel point (null e) = pure (inl e)
count_from fuel point (at first) = count_loop fuel point first 1

unfoldable pub list_count : ℕ → ℕ → Cmd (Error ⊎ ℕ)
list_count fuel point =
    if point == 0
    then pure (inl inval)
    else do first ← list_first fuel point; count_from fuel point first

-- A null pointer is not alone.
unfoldable pub list_is_alone : ℕ → Cmd Bool
list_is_alone point =
    if point == 0 then pure false else do n ← load point; pure (n.prev == 0 && n.next == 0)

unfoldable pub lookup_loop : ℕ → ℕ → ℕ → Cmd Found
lookup_loop zero payload cur = out_of_fuel
lookup_loop (suc fuel) payload cur = do
  n ← load cur
  if n.payload == payload
      then pure (at cur)
      else if n.next == 0
      then pure (null noent)
      else lookup_loop fuel payload n.next

abbrev pub lookup_from : ℕ → ℕ → Found → Cmd Found
lookup_from fuel payload (null e) = pure (null noent)
lookup_from fuel payload (at first) = lookup_loop fuel payload first

unfoldable pub list_lookup_data : ℕ → ℕ → ℕ → Cmd Found
list_lookup_data fuel lst payload =
    if lst == 0 || payload == 0
    then pure (null inval)
    else do first ← list_first fuel lst; lookup_from fuel payload first

unfoldable pub list_pointer_comparator : ℕ → ℕ → Bool
list_pointer_comparator payload v = payload == v

-- strcmp(a,b)==0 on the bytes before the terminators.
unfoldable pub same_bytes : List ℕ → List ℕ → Bool
same_bytes [] [] = true
same_bytes [] (d ∷ ds) = false
same_bytes (c ∷ cs) [] = false
same_bytes (c ∷ cs) (d ∷ ds) = c == d && same_bytes cs ds

-- `str` reads the string at an address.
unfoldable pub list_string_comparator : (ℕ → List ℕ) → ℕ → ℕ → Bool
list_string_comparator str payload v =
    not (payload == 0) && (not (v == 0) && same_bytes (str payload) (str v))

-- A comparator looks at the payload of a node and at the value searched for.
module _ (comparator : ℕ → ℕ → Bool) where
  unfoldable pub search_loop : ℕ → ℕ → ℕ → Cmd ℕ
  search_loop zero v cur = out_of_fuel
  search_loop (suc fuel) v cur = do
    n ← load cur
    if comparator n.payload v
        then pure cur
        else if n.next == 0
        then pure 0
        else search_loop fuel v n.next

  abbrev pub search_from : ℕ → ℕ → Found → Cmd ℕ
  search_from fuel v (null e) = pure 0
  search_from fuel v (at first) = search_loop fuel v first

  unfoldable pub list_search_one : ℕ → ℕ → ℕ → Cmd ℕ
  list_search_one fuel lst v =
      if lst == 0 then pure 0 else do first ← list_first fuel lst; search_from fuel v first

unfoldable pub list_search_string : (ℕ → List ℕ) → ℕ → ℕ → ℕ → Cmd ℕ
unfolding list_search_one list_string_comparator
list_search_string str fuel lst v = list_search_one (list_string_comparator str) fuel lst v
