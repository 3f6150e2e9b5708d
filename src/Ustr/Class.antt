-- ===== src/Ustr/Class.antt =====
-- include/efi/efi_string.h: the classes of code units, and the change of case.
use efi_wrapper.Prelude.{
  ℕ, ◌+◌, ◌-◌, ◌<◌, ◌≤◌, ◌≡◌, ◌↔◌, ◌⊎◌, Bool, true, false, not, ◌&&◌, ◌||◌, ltb, leb, ◌==◌, bit_or,
  if◌then◌else◌, arith,
}

-- `(char16)c - k < n` in `int`, for k + n below 2^15: units from 2^15 on are negative.
abbrev pub int16_below : ℕ → ℕ → Bool
int16_below c bound = ltb c bound || leb 0x8000 c

unfoldable pub uisupper : ℕ → Bool
uisupper c = leb b'A' c && leb c b'Z'

unfoldable pub uislower : ℕ → Bool
uislower c = leb b'a' c && leb c b'z'

unfoldable pub uisspace : ℕ → Bool
uisspace c = c == 32 || int16_below c (9 + 5)

unfoldable pub uisalpha : ℕ → Bool
uisalpha c = int16_below (bit_or c 32) (b'a' + 26)

unfoldable pub uisdigit : ℕ → Bool
uisdigit c = int16_below c (b'0' + 10)

unfoldable pub uisxdigit : ℕ → Bool
uisxdigit c = uisdigit c || int16_below (bit_or c 32) (b'a' + 6)

unfoldable pub uisalnum : ℕ → Bool
uisalnum c = uisalpha c || uisdigit c

unfoldable pub uiscntrl : ℕ → Bool
uiscntrl c = int16_below c 0x20 || c == 0x7f

unfoldable pub uisgraph : ℕ → Bool
uisgraph c = int16_below c (0x21 + 0x5e)

unfoldable pub uispunct : ℕ → Bool
uispunct c = uisgraph c && not (uisalnum c)

unfoldable pub uisprint : ℕ → Bool
uisprint c = int16_below c (0x20 + 0x5f)

unfoldable pub utoupper : ℕ → ℕ
unfolding uislower
utoupper c = if uislower c then c - 32 else c

unfoldable pub utolower : ℕ → ℕ
unfolding uisupper
utolower c = if uisupper c then c + 32 else c

-- The test takes a unit for printable exactly if it is below 0x7f, control characters
-- included, or from 0x8000 on.
pub uisprint_iff : (c : ℕ) → (uisprint c ≡ true) ↔ ((c < 0x7f) ⊎ (0x8000 ≤ c))
unfolding uisprint
uisprint_iff c = ground arith

-- Every control character is printable, except 0x7f.
uiscntrl_overlaps : (c : ℕ) → uiscntrl c ≡ true → (uisprint c ≡ true) ⊎ (c ≡ 0x7f)
unfolding uiscntrl uisprint
uiscntrl_overlaps c h = ground arith

-- Upper case is stable, forgets lower case, and leaves no lower-case letter.
pub utoupper_laws :
    (c : ℕ)
    → (utoupper (utoupper c) ≡ utoupper c)
      × (utoupper (utolower c) ≡ utoupper c)
      × (uislower (utoupper c) ≡ false)
unfolding utoupper utolower
utoupper_laws c = (ground arith, ground arith, ground arith)
