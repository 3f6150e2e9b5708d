-- ===== src/Prelude/Bools.antt =====
-- Facts about Boolean tests.
use mathlib.Core.Path.{◌≡◌, refl}
use mathlib.Core.Option.{some}
use mathlib.Core.Bool.{Bool, true, false, ◌&&◌, ◌||◌}

pub or_mono :
    (a b c d : Bool)
    → (a ≡ true → c ≡ true)
    → (b ≡ true → d ≡ true)
    → (a || b) ≡ true
    → (c || d) ≡ true
or_mono true b true d f g h = refl
or_mono true b false d f g h = cc (f refl)
or_mono false b true d f g h = refl
or_mono false b false d f g h = g h

pub and_parts : (a b : Bool) → (a && b) ≡ true → (a ≡ true) × (b ≡ true)
and_parts true b h = (refl, h)
and_parts false b h = cc

pub eq_of_some {ℓ} : {A : Type ℓ} {a b : A} → some a ≡ some b → a ≡ b
eq_of_some h = cc
