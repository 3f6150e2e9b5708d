-- ===== src/Linked/Object.antt =====
-- lib/general/list.c: lists that are held by a pointer to one of their nodes, and copies. The
-- argument `lst` is `none` for a null pointer, else the pointer that it points at.
use efi_wrapper.Prelude.{
  ℕ, zero, suc, Bool, false, ◌||◌, ◌==◌, Option, none, some, List, [], ◌∷◌, if◌then◌else◌,
}
use efi_wrapper.Linked.{
  Cmd, pure, out_of_fuel, ◌>>=◌, ◌>>◌, load, set_next, set_prev, Code, inval, other, Found, at,
  null,
}
use efi_wrapper.Linked.Walk.{list_first, list_is_alone, list_lookup_data}
use efi_wrapper.Linked.Link.{
  list_new, list_push, list_push_new, list_unshift, list_remove, unless_null,
}
use efi_wrapper.Linked.Free.{list_free_item, list_free_all}

-- What a function returns, and the pointer that it leaves at `lst`.
abbrev pub Held : Type 0
Held = Code × Option ℕ

abbrev pub keep_first : ℕ → Found → ℕ
keep_first lst (at first) = first
keep_first lst (null e) = lst

unfoldable pub list_obj_add : ℕ → Option ℕ → ℕ → Cmd Held
list_obj_add fuel none item = pure (some inval, none)
list_obj_add fuel (some lst) item =
    if item == 0
    then pure (some inval, some lst)
    else if lst == 0
    then pure (none, some item)
    else do r ← list_push fuel lst item; pure (r, some lst)

unfoldable pub list_obj_insert : ℕ → Option ℕ → ℕ → Cmd Held
list_obj_insert fuel none item = pure (some inval, none)
list_obj_insert fuel (some lst) item =
    if item == 0
    then pure (some inval, some lst)
    else if lst == 0
    then (do first ← list_first fuel item; pure (none, some (keep_first item first)))
    else do
      r ← list_unshift fuel lst item
      elim r [
        | some e ↦ pure (some e, some lst)
        | none ↦ do first ← list_first fuel lst; pure (none, some (keep_first lst first))
      ]

-- The node is freed again if it could not be added.
abbrev pub free_unless : ℕ → Held → Cmd Held
free_unless item (none, lst) = pure (none, lst)
free_unless item (some e, lst) = do list_free_item false item; pure (some e, lst)

abbrev pub held_new : (ℕ → Cmd Held) → Option ℕ → Found → Cmd Held
held_new link lst (null e) = pure (some e, lst)
held_new link lst (at item) = do held ← link item; free_unless item held

unfoldable pub list_obj_add_new : ℕ → ℕ → Option ℕ → ℕ → Cmd Held
list_obj_add_new fuel fresh none payload = pure (some inval, none)
list_obj_add_new fuel fresh (some lst) payload = do
  item ← list_new fresh payload
  held_new (λ p. list_obj_add fuel (some lst) p) (some lst) item

unfoldable pub list_obj_insert_new : ℕ → ℕ → Option ℕ → ℕ → Cmd Held
list_obj_insert_new fuel fresh none payload = pure (some inval, none)
list_obj_insert_new fuel fresh (some lst) payload = do
  item ← list_new fresh payload
  held_new (λ p. list_obj_insert fuel (some lst) p) (some lst) item

unfoldable pub list_obj_replace : Option ℕ → ℕ → ℕ → Cmd Held
list_obj_replace none old new = pure (some inval, none)
list_obj_replace (some lst) old new =
    if old == 0 || new == 0 then pure (some inval, some lst) else do
      list_remove new
      o ← load old
      set_prev new o.prev
      o ← load old
      set_next new o.next
      o ← load old
      unless_null o.prev (set_next o.prev new)
      o ← load old
      unless_null o.next (set_prev o.next new)
      pure (none, some (if lst == old then new else lst))

-- Where the pointer goes when its node is taken out: to the next node before the previous one.
abbrev pub moved : ℕ → ℕ → ℕ → ℕ
moved lst prev next = if next == 0 then (if prev == 0 then lst else prev) else next

unfoldable pub list_obj_strip : Option ℕ → ℕ → Cmd Held
list_obj_strip none item = pure (some inval, none)
list_obj_strip (some lst) item = if item == 0 then pure (some inval, some lst) else do
  alone ← list_is_alone lst
  if alone
      then (if lst == item
          then (do list_remove item; pure (none, some 0))
          else pure (some other, some lst))
      else do
        n ← load item
        list_remove item
        pure (none, some (if lst == item then moved lst n.prev n.next else lst))

unfoldable pub list_obj_del : Bool → Option ℕ → ℕ → Cmd (Held × List ℕ)
list_obj_del datafree none item = pure ((some inval, none), [])
list_obj_del datafree (some lst) item = if item == 0 then pure ((some inval, some lst), []) else do
  held ← list_obj_strip (some lst) item
  elim held.0 [
    | some e ↦ pure ((some other, held.1), [])
    | none ↦ do freed ← list_free_item datafree item; pure ((none, held.1), freed.1)
  ]

unfoldable pub list_obj_del_data : Bool → ℕ → Option ℕ → ℕ → Cmd (Held × List ℕ)
list_obj_del_data datafree fuel none payload = pure ((some inval, none), [])
list_obj_del_data datafree fuel (some lst) payload = do
  item ← list_lookup_data fuel lst payload
  elim item [ null e ↦ pure ((some e, some lst), []) | at p ↦ list_obj_del datafree (some lst) p ]

-- What the allocator gives next, and after that.
abbrev pub next_fresh : List ℕ → ℕ
next_fresh [] = 0
next_fresh (p ∷ fresh) = p

abbrev pub fresh_after : List ℕ → List ℕ
fresh_after [] = []
fresh_after (p ∷ fresh) = fresh

-- `walk` is the fuel of the walks along the copy.
unfoldable pub duplicate_loop : ℕ → ℕ → List ℕ → ℕ → ℕ → ℕ → Cmd ℕ
duplicate_loop walk zero fresh end r x = out_of_fuel
duplicate_loop walk (suc fuel) fresh end r x = do
  n ← load x
  if n.next == 0 || n.next == end then pure r else do
    m ← load n.next
    code ← list_push_new walk (next_fresh fresh) r m.payload
    elim code [
      | none ↦ duplicate_loop walk fuel (fresh_after fresh) end r n.next
      | some e ↦ do list_free_all false walk r; pure 0
    ]

-- Gives NULL as 0.
unfoldable pub list_duplicate : ℕ → List ℕ → ℕ → ℕ → Cmd ℕ
list_duplicate fuel fresh lst end = if lst == 0 then pure 0 else do
  first ← list_first fuel lst
  elim first [
    | null e ↦ pure 0
    | at x ↦ do
      n ← load x
      r ← list_new (next_fresh fresh) n.payload
      elim r [ null e ↦ pure 0 | at p ↦ duplicate_loop fuel fuel (fresh_after fresh) end p x ]
  ]
