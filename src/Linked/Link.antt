-- ===== src/Linked/Link.antt =====
-- lib/general/list.c: what links, takes out, swaps and turns nodes.
use efi_wrapper.Prelude.{ℕ, zero, suc, not, ◌&&◌, ◌||◌, ◌==◌, none, some, if◌then◌else◌}
use efi_wrapper.Linked.{
  Cmd, pure, out_of_fuel, ◌>>=◌, ◌>>◌, load, store, set_next, set_prev, node, Code, inval, loop,
  noent, nomem, Found, at, null,
}
use efi_wrapper.Linked.Walk.{list_first, list_last, pointer}

-- `if(!(p=...))return -errno;`
abbrev pub or_return : Found → (ℕ → Cmd Code) → Cmd Code
or_return (null e) k = pure (some e)
or_return (at p) k = k p

-- `fresh` is what the allocator gives, 0 for nothing.
unfoldable pub list_new : ℕ → ℕ → Cmd Found
list_new fresh payload =
    if fresh == 0
    then pure (null nomem)
    else do store fresh (some (node 0 0 payload)); pure (at fresh)

-- point->next->prev=l; l->next=point->next; point->next=f; f->prev=point;
unfoldable pub link_after : ℕ → ℕ → ℕ → Cmd Code
link_after point f l = do
  n ← load point
  set_prev n.next l
  n ← load point
  set_next l n.next
  set_next point f
  set_prev f point
  pure none

unfoldable pub list_add : ℕ → ℕ → ℕ → Cmd Code
list_add fuel point new =
    if point == 0 || new == 0
    then pure (some inval)
    else if point == new
    then pure (some loop)
    else do
      n ← load point
      if n.next == 0 then (do set_next point new; set_prev new point; pure none) else do
        first ← list_first fuel new
        or_return first λ f. do last ← list_last fuel new; or_return last λ l. link_after point f l

-- point->prev->next=l; l->prev=point->prev; point->prev=f; f->next=point;
unfoldable pub link_before : ℕ → ℕ → ℕ → Cmd Code
link_before point f l = do
  n ← load point
  set_next n.prev l
  n ← load point
  set_prev l n.prev
  set_prev point f
  set_next f point
  pure none

unfoldable pub list_insert : ℕ → ℕ → ℕ → Cmd Code
list_insert fuel point new = if point == 0 || new == 0 then pure (some inval) else do
  last ← list_last fuel new
  or_return last λ l. do
    n ← load point
    if n.prev == 0
        then (do set_prev point l; set_next l point; pure none)
        else do first ← list_first fuel new; or_return first λ f. link_before point f l

unfoldable pub list_push : ℕ → ℕ → ℕ → Cmd Code
unfolding list_add list_last
list_push fuel point new = do last ← list_last fuel point; list_add fuel (pointer last) new

unfoldable pub list_unshift : ℕ → ℕ → ℕ → Cmd Code
unfolding list_insert list_first
list_unshift fuel point new = do first ← list_first fuel point; list_insert fuel (pointer first) new

-- `if(r<0)mem_free(new);`
abbrev pub free_failed : ℕ → Code → Cmd Code
free_failed new none = pure none
free_failed new (some e) = do store new none; pure (some e)

abbrev pub with_new : (ℕ → Cmd Code) → Found → Cmd Code
with_new link (null e) = pure (some e)
with_new link (at new) = do r ← link new; free_failed new r

unfoldable pub list_add_new : ℕ → ℕ → ℕ → ℕ → Cmd Code
list_add_new fuel fresh point payload = do
  new ← list_new fresh payload
  with_new (λ p. list_add fuel point p) new

unfoldable pub list_insert_new : ℕ → ℕ → ℕ → ℕ → Cmd Code
list_insert_new fuel fresh point payload = do
  new ← list_new fresh payload
  with_new (λ p. list_insert fuel point p) new

unfoldable pub list_push_new : ℕ → ℕ → ℕ → ℕ → Cmd Code
list_push_new fuel fresh point payload = do
  last ← list_last fuel point
  list_add_new fuel fresh (pointer last) payload

unfoldable pub list_unshift_new : ℕ → ℕ → ℕ → ℕ → Cmd Code
list_unshift_new fuel fresh point payload = do
  first ← list_first fuel point
  list_insert_new fuel fresh (pointer first) payload

-- Gives NULL as 0.
unfoldable pub list_merge : ℕ → ℕ → ℕ → Cmd ℕ
list_merge fuel lst1 lst2 = if lst1 == 0 || lst2 == 0 then pure 0 else do
  l1 ← list_last fuel lst1
  l2 ← list_first fuel lst2
  if pointer l1 == 0 || pointer l2 == 0 then pure 0 else do
    r ← list_add fuel (pointer l1) (pointer l2)
    elim r [ none ↦ pure lst1 | some e ↦ pure 0 ]

-- `if(p)` before a write.
abbrev pub unless_null : ℕ → Cmd (Unit {0}) → Cmd (Unit {0})
unless_null p c = if p == 0 then pure tt else c

unfoldable pub list_swap_neighbor : ℕ → ℕ → Cmd Code
list_swap_neighbor p1 p2 = if p1 == 0 || p2 == 0 then pure (some inval) else do
  n1 ← load p1
  unless_null n1.prev (set_next n1.prev p2)
  n2 ← load p2
  unless_null n2.next (set_prev n2.next p1)
  n2 ← load p2
  set_next p1 n2.next
  n1 ← load p1
  set_prev p2 n1.prev
  set_prev p1 p2
  set_next p2 p1
  pure none

unfoldable pub list_swap_prev : ℕ → Cmd Code
list_swap_prev point = if point == 0 then pure (some inval) else do
  n ← load point
  if n.prev == 0 then pure (some noent) else list_swap_neighbor n.prev point

unfoldable pub list_swap_next : ℕ → Cmd Code
list_swap_next point = if point == 0 then pure (some inval) else do
  n ← load point
  if n.next == 0 then pure (some noent) else list_swap_neighbor point n.next

-- Both pointers to null at the end.
unfoldable pub unlink : ℕ → Cmd Code
unlink point = do set_prev point 0; set_next point 0; pure none

unfoldable pub list_remove : ℕ → Cmd Code
list_remove point = if point == 0 then pure (some inval) else do
  n ← load point
  if not (n.next == 0) && not (n.prev == 0)
      then (do set_next n.prev n.next; n ← load point; set_prev n.next n.prev; unlink point)
      else if not (n.next == 0)
      then (do set_prev n.next 0; unlink point)
      else if not (n.prev == 0)
      then (do set_next n.prev 0; unlink point)
      else pure (some noent)

unfoldable pub reverse_loop : ℕ → ℕ → Cmd (Unit {0})
reverse_loop zero l = out_of_fuel
reverse_loop (suc fuel) l = do
  n ← load l
  set_prev l n.next
  set_next l n.prev
  if n.next == 0 then pure tt else reverse_loop fuel n.next

unfoldable pub list_reverse : ℕ → ℕ → Cmd (Unit {0})
list_reverse fuel lst = do
  first ← list_first fuel lst
  elim first [ null e ↦ pure tt | at l ↦ reverse_loop fuel l ]
