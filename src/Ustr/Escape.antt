-- ===== src/Ustr/Escape.antt =====
-- lib/efi/char16.c: ustr2xstrn, which prints a string in printable bytes.
use efi_wrapper.Prelude.{
  ℕ, zero, suc, leb, ◌+◌, ◌-◌, ◌*◌, ◌/◌, ◌%◌, ◌^◌, ◌<◌, ◌≤◌, ◌≡◌, refl, Bool, true, false, not,
  ◌||◌, ◌==◌, ltb, Option, none, some, List, [], ◌∷◌, ◌++◌, length, length-append, if◌then◌else◌,
  arith,
}
use efi_wrapper.Ustr.{Ustr, ustrsize}
use efi_wrapper.Ustr.Class.{uisprint}

byte_at : List ℕ → ℕ → ℕ
byte_at [] i = 0
byte_at (b ∷ bs) zero = b
byte_at (b ∷ bs) (suc i) = byte_at bs i

abbrev hex_table : List ℕ
hex_table =
    b'0' ∷ b'1' ∷ b'2' ∷ b'3' ∷ b'4' ∷ b'5' ∷ b'6' ∷ b'7' ∷ b'8' ∷ b'9' ∷ b'A' ∷ b'B' ∷ b'C' ∷ b'D'
    ∷ b'E' ∷ b'F' ∷ []

hex_digit : ℕ → ℕ
unfolding byte_at
hex_digit x = byte_at hex_table (x % 16)

is_line_unit : ℕ → Bool
is_line_unit c = c == 13 || c == 10 || c == 9

line_letter : ℕ → ℕ
line_letter c = if c == 13 then b'r' else if c == 10 then b'n' else b't'

-- What the body of the loop writes for a unit when there is room for all of it.
unfoldable pub unit_text : ℕ → List ℕ
unfolding hex_digit is_line_unit line_letter
unit_text c =
    if is_line_unit c
    then 92 ∷ line_letter c ∷ []
    else if not (uisprint c)
    then 92
      ∷ b'u'
      ∷ hex_digit (c / 0x1000)
      ∷ hex_digit (c / 0x100)
      ∷ hex_digit (c / 0x10)
      ∷ hex_digit c
      ∷ []
    else (c % 0x100) ∷ []

-- A unit with too little room is passed over (`continue`), and the loop goes on.
x_loop : Ustr → ℕ → ℕ → List ℕ
x_loop [] ssize dsize = []
x_loop (c ∷ s) ssize dsize =
    let text = if ltb dsize (length (unit_text c)) then [] else unit_text c in
    let later = x_loop s ((ssize + 2 ^ 64 - 2) % 2 ^ 64) (dsize - length text) in
    if ssize == 0 || dsize == 0 then [] else text ++ later

-- The bytes written to `dest`, behind which the buffer is 0, and the result. The first argument
-- says whether `dest` is a pointer.
unfoldable pub ustr2xstrn : Bool → ℕ → Option Ustr → ℕ → List ℕ × ℕ
unfolding x_loop unit_text
ustr2xstrn false dsize src ssize = ([], 0)
ustr2xstrn true dsize none ssize = ([], 0)
ustr2xstrn true dsize (some s) ssize =
    if dsize == 0 || ssize == 0
    then ([], 0)
    else (let out = x_loop s ssize dsize in (out, length out))

x_loop_bound : (s : Ustr) (ssize dsize : ℕ) → length (x_loop s ssize dsize) ≤ dsize
unfolding x_loop
x_loop_bound [] ssize dsize = omega arith
x_loop_bound (c ∷ s) ssize dsize =
    let text = if ltb dsize (length (unit_text c)) then [] else unit_text c in
    let rest = (ssize + 2 ^ 64 - 2) % 2 ^ 64 in
    ground (
      arith,
      x_loop_bound s rest (dsize - length text),
      length-append text (x_loop s rest (dsize - length text)),
    )

-- What the text of a string is to be, described without the code. A hexadecimal digit stands for a
-- number below 16; four of them stand for a unit, the one of the highest weight first.
abbrev pub hex_letter : ℕ → ℕ
hex_letter d = if ltb d 10 then 0x30 + d else 0x37 + d

abbrev pub hex_text : ℕ → ℕ → List ℕ
hex_text zero c = []
hex_text (suc n) c = hex_text n (c / 16) ++ hex_letter (c % 16) ∷ []

-- A carriage return, a line feed and a tab are a backslash and a letter. Below 0x7F, where the
-- control characters are too, and from 0x8000 on, a unit is its low byte. All others are a
-- backslash, a u and four hexadecimal digits.
abbrev pub escape_of : ℕ → List ℕ
escape_of c =
    if c == 0x0D
    then b'\\' ∷ b'r' ∷ []
    else if c == 0x0A
    then b'\\' ∷ b'n' ∷ []
    else if c == 0x09
    then b'\\' ∷ b't' ∷ []
    else if ltb c 0x7F
    then c ∷ []
    else if leb 0x8000 c
    then c % 256 ∷ []
    else b'\\' ∷ b'u' ∷ hex_text 4 c

-- A unit has 16 bits.
abbrev pub AreUnits : Ustr → Type 0
AreUnits [] = Unit
AreUnits (c ∷ s) = (c < 2 ^ 16) × AreUnits s

abbrev pub escaped : Ustr → List ℕ
escaped [] = []
escaped (c ∷ s) = escape_of c ++ escaped s

byte_at-hex_table : (d : ℕ) → d < 16 → byte_at hex_table d ≡ hex_letter d
unfolding byte_at
byte_at-hex_table zero h = refl
byte_at-hex_table (suc zero) h = refl
byte_at-hex_table (suc (suc zero)) h = refl
byte_at-hex_table (suc (suc (suc zero))) h = refl
byte_at-hex_table (suc (suc (suc (suc zero)))) h = refl
byte_at-hex_table (suc (suc (suc (suc (suc zero))))) h = refl
byte_at-hex_table (suc (suc (suc (suc (suc (suc zero)))))) h = refl
byte_at-hex_table (suc (suc (suc (suc (suc (suc (suc zero))))))) h = refl
byte_at-hex_table (suc (suc (suc (suc (suc (suc (suc (suc zero)))))))) h = refl
byte_at-hex_table (suc (suc (suc (suc (suc (suc (suc (suc (suc zero))))))))) h = refl
byte_at-hex_table (suc (suc (suc (suc (suc (suc (suc (suc (suc (suc zero)))))))))) h = refl
byte_at-hex_table (suc (suc (suc (suc (suc (suc (suc (suc (suc (suc (suc zero))))))))))) h = refl
byte_at-hex_table (suc (suc (suc (suc (suc (suc (suc (suc (suc (suc (suc (suc zero)))))))))))) h =
    refl
byte_at-hex_table (suc (suc (suc (suc (suc (suc (suc (suc (suc (suc (suc (suc (suc zero)))))))))))))
      h =
    refl
byte_at-hex_table
      (suc (suc (suc (suc (suc (suc (suc (suc (suc (suc (suc (suc (suc (suc zero)))))))))))))) h =
    refl
byte_at-hex_table
      (suc (suc (suc (suc (suc (suc (suc (suc (suc (suc (suc (suc (suc (suc (suc zero)))))))))))))))
      h =
    refl
byte_at-hex_table
      (suc
        (suc (suc (suc (suc (suc (suc (suc (suc (suc (suc (suc (suc (suc (suc (suc d))))))))))))))))
      h =
    absurd (omega arith)

hex_digit_lem : (x : ℕ) → hex_digit x ≡ hex_letter (x % 16)
unfolding hex_digit
hex_digit_lem x = byte_at-hex_table (x % 16) (omega arith)

unit_text-hex :
    (c : ℕ)
    → hex_digit (c / 0x1000) ∷ hex_digit (c / 0x100) ∷ hex_digit (c / 0x10) ∷ hex_digit c ∷ []
      ≡ hex_text 4 c
unit_text-hex c =
    let e2 : c / 0x100 ≡ c / 16 / 16 = omega arith in
    let e3 : c / 0x1000 ≡ c / 16 / 16 / 16 = omega arith in
    rw
      (
        hex_digit_lem (c / 0x1000),
        hex_digit_lem (c / 0x100),
        hex_digit_lem (c / 0x10),
        hex_digit_lem c,
        e2,
        e3,
      )
      refl

unit_text-eq-escape_of : (c : ℕ) → c < 2 ^ 16 → unit_text c ≡ escape_of c
unfolding unit_text is_line_unit line_letter uisprint
unit_text-eq-escape_of c h = ground (arith, unit_text-hex c)

unit_text_size : (c : ℕ) → (0 < length (unit_text c)) × (length (unit_text c) ≤ 6)
unfolding unit_text
unit_text_size c = (ground arith, ground arith)

abbrev unit_texts : Ustr → List ℕ
unit_texts [] = []
unit_texts (c ∷ s) = unit_text c ++ unit_texts s

x_loop-eq-unit_texts :
    (s : Ustr) (ssize dsize : ℕ)
    → 2 * length s < ssize
    → ssize < 2 ^ 64
    → 6 * length s ≤ dsize
    → x_loop s ssize dsize ≡ unit_texts s
unfolding x_loop
x_loop-eq-unit_texts [] ssize dsize h k room = refl
x_loop-eq-unit_texts (c ∷ s) ssize dsize h k room = ground (
  arith,
  unit_text_size c,
  x_loop-eq-unit_texts s ((ssize + 2 ^ 64 - 2) % 2 ^ 64) (dsize - length (unit_text c)),
)

unit_texts-eq-escaped : (s : Ustr) → AreUnits s → unit_texts s ≡ escaped s
unit_texts-eq-escaped [] u = refl
unit_texts-eq-escaped (c ∷ s) (small, u) =
    rw (unit_text-eq-escape_of c small, unit_texts-eq-escaped s u) refl

-- The bytes never pass the size of the buffer, and the result counts them.
pub ustr2xstrn_bound :
    (to : Bool) (dsize : ℕ) (src : Option Ustr) (ssize : ℕ)
    → (length (ustr2xstrn to dsize src ssize).0 ≤ dsize)
      × ((ustr2xstrn to dsize src ssize).1 ≡ length (ustr2xstrn to dsize src ssize).0)
unfolding ustr2xstrn
ustr2xstrn_bound false dsize src ssize = (omega arith, refl)
ustr2xstrn_bound true dsize none ssize = (omega arith, refl)
ustr2xstrn_bound true dsize (some s) ssize =
    (ground (arith, x_loop_bound s ssize dsize), ground arith)

-- With six bytes for each unit, at least one byte, and the size that `ustrsize` gives, the bytes
-- are, for each unit of 16 bits in order, a backslash and a letter for a carriage return, a line
-- feed or a tab, the low byte below 0x7F and from 0x8000 on, and else a backslash, a u and the four
-- hexadecimal digits of the unit.
pub ustr2xstrn-eq-escaped :
    (s : Ustr) (dsize : ℕ)
    → AreUnits s
    → 6 * length s ≤ dsize
    → 0 < dsize
    → ustrsize (some s) < 2 ^ 64
    → (ustr2xstrn true dsize (some s) (ustrsize (some s))).0 ≡ escaped s
unfolding ustr2xstrn ustrsize
ustr2xstrn-eq-escaped s dsize u room h k =
    ground (arith, x_loop-eq-unit_texts s ((length s + 1) * 2) dsize, unit_texts-eq-escaped s u)
