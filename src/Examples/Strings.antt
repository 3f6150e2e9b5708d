-- ===== src/Examples/Strings.antt =====
-- The status codes and the string functions (lib/efi/string.c, lib/efi/char16.c) at concrete inputs.
use efi_wrapper.Prelude.{
  ◌+◌, ◌-◌, ◌≡◌, true, ltb, some, [], ◌∷◌, ◌++◌, length, take, if◌then◌else◌, arith,
}
use efi_wrapper.Ustr.{Ustr, ustrsize, ustrlen}
use efi_wrapper.Ustr.Search.{ustrstr, first_match, ustrstr-eq-first_match}
use efi_wrapper.Ustr.Copy.{ustrlcat, ustrlcat_lem}
use efi_wrapper.Ustr.Escape.{ustr2xstrn, ustr2xstrn-eq-escaped}

-- "hello" and "Hell"
abbrev hello : Ustr
hello = 104 ∷ 101 ∷ 108 ∷ 108 ∷ 111 ∷ []

abbrev hell : Ustr
hell = 72 ∷ 101 ∷ 108 ∷ 108 ∷ []

ustrstr-eq-first_match_example :
    ustrstr (some hello) (some (108 ∷ 111 ∷ [])) ≡ first_match (108 ∷ 111 ∷ []) hello
ustrstr-eq-first_match_example =
    ustrstr-eq-first_match 104 (101 ∷ 108 ∷ 108 ∷ 111 ∷ []) (108 ∷ 111 ∷ [])

ustrlcat_lem_example : ustrlcat hell hello 7 ≡ (
    if ltb (length hell) 7
    then (hell ++ take (7 - length hell - 1) hello, length hell + length hello)
    else (hell, 7 + length hello))
ustrlcat_lem_example = ustrlcat_lem hell hello 7

-- An h, a line feed and the sign of the euro.
abbrev mixed : Ustr
mixed = 104 ∷ 10 ∷ 0x20AC ∷ []

ustr2xstrn-eq-escaped_example :
    (ustr2xstrn true 40 (some mixed) (ustrsize (some mixed))).0
    ≡ b'h' ∷ b'\\' ∷ b'n' ∷ b'\\' ∷ b'u' ∷ b'2' ∷ b'0' ∷ b'A' ∷ b'C' ∷ []
unfolding ustrsize ustrlen
ustr2xstrn-eq-escaped_example =
    ustr2xstrn-eq-escaped mixed 40 (omega arith, (omega arith, (omega arith, tt))) (omega arith)
      (omega arith) (omega arith)
