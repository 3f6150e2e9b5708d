-- ===== src/Protocol/Laws.antt =====
-- What an installed protocol interface gives to the lookups (efi-wrapper/efi/tables/protocol.c).
use efi_wrapper.Prelude.{
  ℕ, zero, suc, ◌+◌, ◌<◌, ◌≤◌, ◌≡◌, ◌⊎◌, inl, inr, refl, ap, ◌∙◌, Bool, true, false, ◌==◌, Option,
  none, some, List, [], ◌∷◌, ◌++◌, length, get_elem?, arith, Bool-cases, Option-cases, ==_iff,
}
use efi_wrapper.Status.{success, invalid_parameter}
use efi_wrapper.Event.{Ctx}
use efi_wrapper.Protocol.{
  InterfaceEntry, Handle, handle_at, efi_valid_handle, find_entry, efi_get_protocol, update_handle,
}
use efi_wrapper.Protocol.Install.{
  new_entry, native_interface, handles_of, with_handles, notify_loop,
  efi_install_protocol_interface_impl,
}
use efi_wrapper.Protocol.Entries.{
  NotRegistered, NotRegistered-at, find_entry_self, find_entry_ne, handle_at-update_self,
  handle_at-update_ne,
}

module _ {W : Type 0} (call : ℕ → ℕ → ℕ → Ctx (List Handle × W) → Ctx (List Handle × W))
    (node_ok : Ctx (List Handle × W) → Bool) where
  notify_loop_none :
      (fuel i guid h : ℕ) (ctx : Ctx (List Handle × W))
      → NotRegistered guid ctx.notifies
      → i ≤ length ctx.notifies
      → length ctx.notifies < i + fuel
      → notify_loop call node_ok fuel i guid h ctx ≡ some ctx
  unfolding notify_loop
  notify_loop_none zero i guid h ctx all b f = absurd (omega arith)
  notify_loop_none (suc fuel) i guid h ctx all b f =
      elim (Option-cases (get_elem? ctx.notifies i)) [
        | inl e ↦ rw e refl
        | inr (n, e) ↦
            let (other, inside) = NotRegistered-at guid i ctx.notifies n all e in
            rw (e, other) (notify_loop_none fuel (suc i) guid h ctx all (omega arith) (omega arith))
      ]

  -- The database after the installation.
  abbrev pub with_interface : ℕ → ℕ → ℕ → Ctx (List Handle × W) → List Handle
  with_interface h guid interface ctx =
      update_handle h (λ entries. entries ++ new_entry guid interface ∷ [])
        (handles_of call node_ok ctx)

  install_fresh :
      (fuel : ℕ) (address : Option ℕ) (h guid interface : ℕ) (ctx : Ctx (List Handle × W))
      (x : Handle)
      → efi_valid_handle h (handles_of call node_ok ctx) ≡ some x
      → find_entry guid x.entries ≡ none
      → (interface == 0) ≡ false
      → node_ok ctx ≡ true
      → NotRegistered guid ctx.notifies
      → length ctx.notifies < fuel
      → efi_install_protocol_interface_impl call node_ok true fuel address
          (some (some h))
          (some guid)
          native_interface
          interface
          ctx
        ≡ some
            (success, some h, with_handles call node_ok (with_interface h guid interface ctx) ctx)
  unfolding efi_install_protocol_interface_impl
  install_fresh fuel address h guid interface ctx x valid fresh nonzero ok all f =
      let changed = with_handles call node_ok (with_interface h guid interface ctx) ctx in
      let quiet = notify_loop_none fuel 0 guid h changed all (omega arith) (omega arith) in
      rw (nonzero, valid, fresh, ok, quiet) refl

  get_protocol-with_interface :
      (h guid interface : ℕ) (ctx : Ctx (List Handle × W)) (x : Handle)
      → efi_valid_handle h (handles_of call node_ok ctx) ≡ some x
      → find_entry guid x.entries ≡ none
      → (interface == 0) ≡ false
      → efi_get_protocol (with_interface h guid interface ctx) h (some guid) true
        ≡ (success, some (new_entry guid interface))
  unfolding efi_get_protocol efi_valid_handle
  get_protocol-with_interface zero guid interface ctx x valid fresh nonzero =
      absurd (ground (arith, valid))
  get_protocol-with_interface (suc h) guid interface ctx x valid fresh nonzero =
      let f = λ (entries : List InterfaceEntry). entries ++ new_entry guid interface ∷ [] in
      let now = handle_at-update_self (suc h) f (handles_of call node_ok ctx) x valid in
      rw (now, find_entry_self guid interface x.entries nonzero fresh) refl

  get_protocol_other :
      (h guid interface k other : ℕ) (ctx : Ctx (List Handle × W)) (x : Handle)
      → efi_valid_handle h (handles_of call node_ok ctx) ≡ some x
      → ((k == h) ≡ false) ⊎ ((other == guid) ≡ false)
      → efi_get_protocol (with_interface h guid interface ctx) k (some other) true
        ≡ efi_get_protocol (handles_of call node_ok ctx) k (some other) true
  unfolding efi_get_protocol efi_valid_handle
  get_protocol_other h guid interface zero other ctx x valid d = refl
  get_protocol_other h guid interface (suc k) other ctx x valid (inl d) =
      rw
        (handle_at-update_ne h (suc k) (λ entries. entries ++ new_entry guid interface ∷ [])
          (handles_of call node_ok ctx) d)
        refl
  get_protocol_other zero guid interface (suc k) other ctx x valid (inr d) =
      absurd (ground (arith, valid))
  get_protocol_other (suc h) guid interface (suc k) other ctx x valid (inr d) =
      let f = λ (entries : List InterfaceEntry). entries ++ new_entry guid interface ∷ [] in
      let handles = handles_of call node_ok ctx in
      elim (Bool-cases (suc k == suc h)) [
        | inl p ↦
            let same = (==_iff (suc k) (suc h)).0 p in
            let now =
              ap (λ i. handle_at i (update_handle (suc h) f handles)) same
              ∙ handle_at-update_self (suc h) f handles x valid in
            let before = ap (λ i. handle_at i handles) same ∙ valid in
            rw (now, before, find_entry_ne guid interface other x.entries d) refl
        | inr p ↦ rw (handle_at-update_ne (suc h) (suc k) f handles p) refl
      ]

  install_again :
      (fuel : ℕ) (address : Option ℕ) (h guid interface again : ℕ) (ctx : Ctx (List Handle × W))
      (x : Handle)
      → efi_valid_handle h (handles_of call node_ok ctx) ≡ some x
      → find_entry guid x.entries ≡ none
      → (interface == 0) ≡ false
      → efi_install_protocol_interface_impl call node_ok true fuel address
          (some (some h))
          (some guid)
          native_interface
          again
          (with_handles call node_ok (with_interface h guid interface ctx) ctx)
        ≡ some (
          invalid_parameter,
          some h,
          with_handles call node_ok (with_interface h guid interface ctx) ctx,
        )
  unfolding efi_install_protocol_interface_impl efi_valid_handle
  install_again fuel address zero guid interface again ctx x valid fresh nonzero =
      absurd (ground (arith, valid))
  install_again fuel address (suc h) guid interface again ctx x valid fresh nonzero =
      let f = λ (entries : List InterfaceEntry). entries ++ new_entry guid interface ∷ [] in
      let now = handle_at-update_self (suc h) f (handles_of call node_ok ctx) x valid in
      elim (Bool-cases (again == 0)) [
        | inl z ↦ rw z refl
        | inr z ↦ rw (z, now, find_entry_self guid interface x.entries nonzero fresh) refl
      ]

  -- Installing an interface that is not null for a protocol that a valid handle does not have,
  -- and that no registration waits for, succeeds where there is memory, with fuel for one more
  -- than the registrations; afterwards the handle gives the interface, a lookup on another
  -- handle or of another protocol gives what it gave before, and installing the protocol on the
  -- handle once more is refused without a change.
  pub install-get_protocol :
      (fuel : ℕ) (address : Option ℕ) (h guid interface k other again : ℕ)
      (ctx : Ctx (List Handle × W)) (x : Handle)
      → efi_valid_handle h (handles_of call node_ok ctx) ≡ some x
      → find_entry guid x.entries ≡ none
      → (interface == 0) ≡ false
      → node_ok ctx ≡ true
      → NotRegistered guid ctx.notifies
      → length ctx.notifies < fuel
      → ((k == h) ≡ false) ⊎ ((other == guid) ≡ false)
      → (after : Ctx (List Handle × W)) × (efi_install_protocol_interface_impl call node_ok true
            fuel address
            (some (some h))
            (some guid)
            native_interface
            interface
            ctx
          ≡ some (success, some h, after))
        × (efi_get_protocol (handles_of call node_ok after) h (some guid) true
            ≡ (success, some (new_entry guid interface)))
        × (efi_get_protocol (handles_of call node_ok after) k (some other) true
            ≡ efi_get_protocol (handles_of call node_ok ctx) k (some other) true)
        × (efi_install_protocol_interface_impl call node_ok true fuel address
              (some (some h))
              (some guid)
              native_interface
              again
              after
            ≡ some (invalid_parameter, some h, after))
  install-get_protocol fuel address h guid interface k other again ctx x valid fresh nonzero ok all
        f d =
      (
        with_handles call node_ok (with_interface h guid interface ctx) ctx,
        install_fresh fuel address h guid interface ctx x valid fresh nonzero ok all f,
        get_protocol-with_interface h guid interface ctx x valid fresh nonzero,
        get_protocol_other h guid interface k other ctx x valid d,
        install_again fuel address h guid interface again ctx x valid fresh nonzero,
      )
