-- ===== src/Protocol/Entries.antt =====
-- The registrations, entries and handles that the lookups go through
-- (efi-wrapper/efi/tables/protocol.c).
use efi_wrapper.Prelude.{
  ℕ, zero, suc, ◌<◌, ◌≡◌, inl, inr, refl, sym, ap, ◌∙◌, false, ◌==◌, none, some, List, [], ◌∷◌,
  ◌++◌, length, get_elem?, arith, Bool-cases, eq_of_some,
}
use efi_wrapper.Event.{Notify}
use efi_wrapper.Protocol.{InterfaceEntry, Handle, handle_at, find_entry, update_handle}
use efi_wrapper.Protocol.Install.{new_entry}

-- No registration waits for the protocol.
abbrev pub NotRegistered : ℕ → List Notify → Type 0
NotRegistered guid [] = Unit
NotRegistered guid (n ∷ notifies) = ((n.protocol == guid) ≡ false) × NotRegistered guid notifies

pub NotRegistered-at :
    (guid i : ℕ) (notifies : List Notify) (n : Notify)
    → NotRegistered guid notifies
    → get_elem? notifies i ≡ some n
    → ((n.protocol == guid) ≡ false) × (i < length notifies)
NotRegistered-at guid i [] n all h = absurd (ground (arith, h))
NotRegistered-at guid zero (m ∷ notifies) n (other, all) h =
    (ap (λ x. x.protocol == guid) (sym (eq_of_some h)) ∙ other, omega arith)
NotRegistered-at guid (suc i) (m ∷ notifies) n (other, all) h =
    let (e, b) = NotRegistered-at guid i notifies n all h in (e, omega arith)

pub find_entry_self :
    (guid interface : ℕ) (entries : List InterfaceEntry)
    → (interface == 0) ≡ false
    → find_entry guid entries ≡ none
    → find_entry guid (entries ++ new_entry guid interface ∷ []) ≡ some (new_entry guid interface)
unfolding find_entry
find_entry_self guid interface [] h e = ground arith
find_entry_self guid interface (x ∷ entries) h e =
    ground (arith, find_entry_self guid interface entries h)

pub find_entry_ne :
    (guid interface other : ℕ) (entries : List InterfaceEntry)
    → (other == guid) ≡ false
    → find_entry other (entries ++ new_entry guid interface ∷ []) ≡ find_entry other entries
unfolding find_entry
find_entry_ne guid interface other [] d = ground (arith, d)
find_entry_ne guid interface other (x ∷ entries) d =
    ground (arith, find_entry_ne guid interface other entries d)

pub handle_at-update_self :
    (h : ℕ) (f : List InterfaceEntry → List InterfaceEntry) (handles : List Handle) (x : Handle)
    → handle_at h handles ≡ some x
    → handle_at h (update_handle h f handles)
      ≡ some (record { addr = x.addr; entries = f x.entries })
handle_at-update_self h f [] x e = absurd (ground (arith, e))
handle_at-update_self h f (y ∷ handles) x e = elim (Bool-cases (h == y.addr)) [
  | inl p ↦
      let same : y ≡ x = eq_of_some (ground (arith, e, p)) in
      simp (p, p) (ap (λ z. some (record { addr = z.addr; entries = f z.entries })) same)
  | inr p ↦ simp (p, p) (handle_at-update_self h f handles x (ground (arith, e, p)))
]

pub handle_at-update_ne :
    (h k : ℕ) (f : List InterfaceEntry → List InterfaceEntry) (handles : List Handle)
    → (k == h) ≡ false
    → handle_at k (update_handle h f handles) ≡ handle_at k handles
handle_at-update_ne h k f [] d = refl
handle_at-update_ne h k f (y ∷ handles) d = ground (arith, handle_at-update_ne h k f handles d)
