-- ===== src/Linked/Sort.antt =====
-- lib/general/list.c: list_sort, in passes that swap neighbours.
use efi_wrapper.Prelude.{ℕ, zero, suc, ◌+◌, Bool, true, false, ◌==◌, ◌⊎◌, inl, inr, if◌then◌else◌}
use efi_wrapper.Linked.{Cmd, pure, out_of_fuel, ◌>>=◌, ◌>>◌, load, Error, inval, at, null}
use efi_wrapper.Linked.Walk.{list_first}
use efi_wrapper.Linked.Link.{list_swap_neighbor}

-- `sorter` looks at the payloads of two neighbours.
module _ (sorter : ℕ → ℕ → Bool) where
  -- The inner loop: whether it changed something.
  unfoldable pub pass_loop : ℕ → Bool → ℕ → Cmd Bool
  pass_loop zero changed f = out_of_fuel
  pass_loop (suc fuel) changed f = do
    n ← load f
    if n.next == 0 then pure changed else do
      m ← load n.next
      if sorter n.payload m.payload
          then (do
            list_swap_neighbor f n.next
            n ← load f
            if n.next == 0 then pure true else pass_loop fuel true n.next)
          else pass_loop fuel changed n.next

  -- The passes that are left, and those that were counted.
  unfoldable pub sort_loop : ℕ → ℕ → ℕ → ℕ → Cmd ℕ
  sort_loop fuel zero lst r = out_of_fuel
  sort_loop fuel (suc passes) lst r = do
    first ← list_first fuel lst
    elim first [
      | null e ↦ pure r
      | at f ↦ do
        changed ← pass_loop fuel false f
        if changed then sort_loop fuel passes lst (r + 1) else pure (r + 1)
    ]

  unfoldable pub list_sort : ℕ → ℕ → ℕ → Cmd (Error ⊎ ℕ)
  list_sort fuel passes lst =
      if lst == 0 then pure (inl inval) else do r ← sort_loop fuel passes lst 0; pure (inr r)
