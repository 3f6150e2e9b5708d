-- ===== src/Linked/Free.antt =====
-- lib/general/list.c: what frees nodes. A function gives the payloads that it hands to `datafree`.
use efi_wrapper.Prelude.{
  ℕ, zero, suc, Bool, not, ◌&&◌, ◌==◌, none, some, List, [], ◌∷◌, ◌++◌, if◌then◌else◌,
}
use efi_wrapper.Linked.{
  Cmd, pure, out_of_fuel, ◌>>=◌, ◌>>◌, load, store, set_next, set_prev, Code, inval, Found, at,
  null,
}
use efi_wrapper.Linked.Walk.{list_first, list_last}
use efi_wrapper.Linked.Link.{unless_null, list_remove}

abbrev pub Freed : Type 0
Freed = Code × List ℕ

unfoldable pub list_free_item : Bool → ℕ → Cmd Freed
list_free_item datafree point = if point == 0 then pure (some inval, []) else do
  n ← load point
  unless_null n.prev (set_next n.prev 0)
  n ← load point
  unless_null n.next (set_prev n.next 0)
  n ← load point
  store point none
  pure (none, if not (n.payload == 0) && datafree then n.payload ∷ [] else [])

unfoldable pub free_loop : Bool → ℕ → ℕ → Cmd (List ℕ)
free_loop datafree zero cur = out_of_fuel
free_loop datafree (suc fuel) cur = do
  n ← load cur
  item ← list_free_item datafree cur
  if n.next == 0
      then pure item.1
      else do rest ← free_loop datafree fuel n.next; pure (item.1 ++ rest)

abbrev pub start_at : ℕ → Found → ℕ
start_at point (at p) = p
start_at point (null e) = point

unfoldable pub list_free_all : Bool → ℕ → ℕ → Cmd Freed
list_free_all datafree fuel point = if point == 0 then pure (some inval, []) else do
  first ← list_first fuel point
  freed ← free_loop datafree fuel (start_at point first)
  pure (none, freed)

unfoldable pub free_back_loop : Bool → ℕ → ℕ → Cmd (List ℕ)
free_back_loop datafree zero cur = out_of_fuel
free_back_loop datafree (suc fuel) cur = do
  n ← load cur
  item ← list_free_item datafree cur
  if n.prev == 0
      then pure item.1
      else do rest ← free_back_loop datafree fuel n.prev; pure (item.1 ++ rest)

unfoldable pub list_free_all_reverse : Bool → ℕ → ℕ → Cmd Freed
list_free_all_reverse datafree fuel point = if point == 0 then pure (some inval, []) else do
  last ← list_last fuel point
  freed ← free_back_loop datafree fuel (start_at point last)
  pure (none, freed)

unfoldable pub list_remove_free : Bool → ℕ → Cmd Freed
list_remove_free datafree point = do
  r ← list_remove point
  elim r [ none ↦ list_free_item datafree point | some e ↦ pure (some e, []) ]
