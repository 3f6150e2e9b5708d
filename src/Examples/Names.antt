-- ===== src/Examples/Names.antt =====
-- Path names (lib/general/path.c) at concrete bytes.
use efi_wrapper.Prelude.{ℕ, ◌≡◌, none, some, List, [], ◌∷◌, arith}
use efi_wrapper.Pathname.{slash, backslash, dot, path_resolve, path_merge}
use efi_wrapper.Pathname.Resolving.{AreNames, slashed, text, visit_all}
use efi_wrapper.Pathname.Resolved.{path_resolve_lem, path_resolve-outside}
use efi_wrapper.Pathname.Merging.{path_merge-inside}

-- a/./b/../
abbrev names : List (List ℕ)
names = (97 ∷ []) ∷ (46 ∷ []) ∷ (98 ∷ []) ∷ (46 ∷ 46 ∷ []) ∷ []

names-AreNames : AreNames names
names-AreNames = (
  (omega arith, omega arith, omega arith, tt),
  (
    (omega arith, omega arith, omega arith, tt),
    (
      (omega arith, omega arith, omega arith, tt),
      ((omega arith, omega arith, omega arith, (omega arith, omega arith, omega arith, tt)), tt),
    ),
  ),
)

path_resolve_lem_example :
    path_resolve 64 slash (some (slashed names (0 ∷ []))) ≡ some (text (visit_all names []))
path_resolve_lem_example = path_resolve_lem 64 names [] names-AreNames (omega arith)

path_resolve-outside_example :
    (path_resolve 64 slash (some (slashed names (dot ∷ 0 ∷ []))) ≡ none)
    × (path_resolve 64 slash (some (slashed names (dot ∷ dot ∷ 0 ∷ []))) ≡ none)
path_resolve-outside_example = path_resolve-outside 64 names names-AreNames (omega arith)

-- a/bc
abbrev path : List ℕ
path = 97 ∷ 47 ∷ 98 ∷ 99 ∷ 0 ∷ []

path_merge-inside_example :
    (found : List ℕ) × (path_merge 64 backslash (some path) (some (46 ∷ 0 ∷ [])) ≡ some found)
path_merge-inside_example = path_merge-inside 64 backslash path (46 ∷ 0 ∷ [])
