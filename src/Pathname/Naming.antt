-- ===== src/Pathname/Naming.antt =====
-- path_dirname and path_basename (lib/general/path.c) together.
use efi_wrapper.Prelude.{ℕ, ◌≡◌, false, List, [], ◌∷◌, ◌++◌}
use efi_wrapper.Pathname.{is_sep, drop_seps, reversed}

-- No separator in a name.
abbrev pub IsPlain : List ℕ → Type 0
IsPlain [] = Unit
IsPlain (c ∷ n) = (is_sep c ≡ false) × IsPlain n

-- The path without the separators at its end.
abbrev pub trimmed : List ℕ → List ℕ
trimmed path = reversed [] (drop_seps (reversed [] path))

IsPlain-append : (a b : List ℕ) → IsPlain a → IsPlain b → IsPlain (a ++ b)
IsPlain-append [] b v w = w
IsPlain-append (c ∷ a) b (e, v) w = (e, IsPlain-append a b v w)
