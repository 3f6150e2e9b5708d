-- ===== src/Ustr.antt =====
-- lib/efi/char16.c and the inline functions of include/efi/efi_string.h: strings of 16-bit code
-- units. `char16` is `int16_t`; a code unit is a number below 2^16, and a test on a `char16` reads
-- it as a signed number. A string is the list of the units before the terminating 0, a pointer
-- into it is the rest of the string from there, and a null pointer is `none`.
pub mod Class
pub mod Compare
pub mod Search
pub mod Copy
pub mod Escape
use efi_wrapper.Prelude.{
  ℕ, zero, suc, ◌+◌, ◌*◌, ◌%◌, ◌<◌, Option, none, some, List, [], ◌∷◌, length, min,
}
use efi_wrapper.Prelude.Int.{ℤ, sub_ℕ}

abbrev pub Ustr : Type 0
Ustr = List ℕ

-- What reading through a pointer gives: the terminator at the end.
abbrev pub unit_at : Ustr → ℕ
unit_at [] = 0
unit_at (c ∷ s) = c

-- The units of a string are 16-bit and not 0.
abbrev pub IsUstr : Ustr → Type 0
IsUstr [] = Unit
IsUstr (c ∷ s) = (0 < c) × (c < 0x10000) × IsUstr s

-- `(int16_t)a - (int16_t)b` in `int`: the signed order is the order of the numbers moved by 2^15.
unfoldable pub int16_sub : ℕ → ℕ → ℤ
int16_sub a b = sub_ℕ ((a + 0x8000) % 0x10000) ((b + 0x8000) % 0x10000)

unfoldable pub ustrlen : Option Ustr → ℕ
ustrlen none = 0
ustrlen (some s) = length s

ustrnlen_loop : Ustr → ℕ → ℕ
ustrnlen_loop [] n = 0
ustrnlen_loop (c ∷ s) zero = 0
ustrnlen_loop (c ∷ s) (suc n) = suc (ustrnlen_loop s n)

unfoldable pub ustrnlen : Option Ustr → ℕ → ℕ
unfolding ustrnlen_loop
ustrnlen none n = 0
ustrnlen (some s) n = ustrnlen_loop s n

-- `sizeof(char16)` for each unit and for the terminator.
unfoldable pub ustrsize : Option Ustr → ℕ
ustrsize none = 0
ustrsize (some s) = (length s + 1) * 2
