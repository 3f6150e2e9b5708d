-- ===== src/Variable/Store.antt =====
-- efi-wrapper/efi/tables/variable.c: the list of variables, and the search by `var_cmp`.
use efi_wrapper.Prelude.{
  ℕ, zero, suc, ◌≡◌, ◌↔◌, refl, Bool, true, false, ◌&&◌, ◌==◌, Option, none, some, List, [], ◌∷◌,
  if◌then◌else◌, arith,
}
use efi_wrapper.Prelude.Int.{ℤ, pos, negsuc}
use efi_wrapper.Ustr.{Ustr, IsUstr}
use efi_wrapper.Ustr.Compare.{ustrcmp, ustrcmp_iff}

-- include/efi/efi_types.h: efi_variable_item. A stored item has a name, and `bytes` is its data.
pub record Variable : Type 0 where
  pub guid : ℕ
  pub name : Ustr
  pub attrs : ℕ
  pub bytes : List ℕ

is_zero : ℤ → Bool
is_zero (pos zero) = true
is_zero _ = false

unfoldable pub var_cmp : Ustr → ℕ → Variable → Bool
unfolding is_zero
var_cmp name guid v = is_zero (ustrcmp (some name) (some v.name)) && guid == v.guid

-- list_search_one with `var_cmp`.
unfoldable pub find : Ustr → ℕ → List Variable → Option Variable
find name guid [] = none
find name guid (v ∷ vars) = if var_cmp name guid v then some v else find name guid vars

-- The write to the item that the search found, and its removal from the list.
unfoldable pub replace_first : Ustr → ℕ → Variable → List Variable → List Variable
replace_first name guid new [] = []
replace_first name guid new (v ∷ vars) =
    if var_cmp name guid v then new ∷ vars else v ∷ replace_first name guid new vars

unfoldable pub remove_first : Ustr → ℕ → List Variable → List Variable
remove_first name guid [] = []
remove_first name guid (v ∷ vars) =
    if var_cmp name guid v then vars else v ∷ remove_first name guid vars

is_zero_iff : (z : ℤ) → (is_zero z ≡ true) ↔ (z ≡ pos 0)
unfolding is_zero
is_zero_iff (pos zero) = (λ h. refl, λ h. refl)
is_zero_iff (pos (suc n)) = ground arith
is_zero_iff (negsuc n) = ground arith

pub var_cmp_iff :
    (name : Ustr) (guid : ℕ) (v : Variable)
    → IsUstr name
    → IsUstr v.name
    → (var_cmp name guid v ≡ true) ↔ ((name ≡ v.name) × (guid ≡ v.guid))
unfolding var_cmp
var_cmp_iff name guid v h k = ground (
  arith,
  is_zero_iff (ustrcmp (some name) (some v.name)),
  (ustrcmp_iff name v.name 1 h k (omega arith)).0,
)
