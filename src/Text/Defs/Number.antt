-- ===== src/Text/Defs/Number.antt =====
-- `from_str_radix` and `parse` of an unsigned integer, and decimal printing.
use hexbuffer_proxy.Prelude.{
  ℕ, zero, suc, ◌/◌, ◌%◌, ◌++◌, ◌+◌, ◌-◌, ◌*◌, ◌^◌, [], ◌∷◌, Option, none, some, ltb, ◌==◌,
  if◌then◌else◌,
}
use hexbuffer_proxy.Text.Defs.Utf8.{Str, within, codes}

-- `char::to_digit`.
unfoldable pub to_digit : ℕ → ℕ → Option ℕ
to_digit radix c =
    let d =
      if within b'0' b'9' c
      then c - b'0'
      else if within b'a' b'z' c
      then c - b'a' + 10
      else if within b'A' b'Z' c
      then c - b'A' + 10
      else radix in
    if ltb d radix then some d else none

-- The digits left of the number; `none` on a character that is no digit, and on overflow.
unfoldable pub digits_from : ℕ → ℕ → ℕ → Str → Option ℕ
digits_from limit radix acc [] = some acc
digits_from limit radix acc (c ∷ s) = elim (to_digit radix c) [
  | none ↦ none
  | some d ↦
      let rest = digits_from limit radix (acc * radix + d) s in
      if ltb (acc * radix + d) limit then rest else none
]

abbrev pub nonempty_digits : ℕ → ℕ → Str → Option ℕ
nonempty_digits limit radix [] = none
nonempty_digits limit radix (c ∷ s) = digits_from limit radix 0 (c ∷ s)

-- One leading `+` is accepted; `limit` is one more than the type's maximum.
unfoldable pub from_str_radix : ℕ → ℕ → Str → Option ℕ
unfolding digits_from
from_str_radix limit radix [] = none
from_str_radix limit radix (c ∷ s) =
    if c == b'+' then nonempty_digits limit radix s else nonempty_digits limit radix (c ∷ s)

-- `usize` of a 64-bit target.
abbrev pub usize_limit : ℕ
usize_limit = 2 ^ 64

abbrev pub u16_limit : ℕ
u16_limit = 2 ^ 16

abbrev pub parse_usize : Str → Option ℕ
parse_usize = from_str_radix usize_limit 10

abbrev pub parse_u16 : Str → Option ℕ
parse_u16 = from_str_radix u16_limit 10

-- What a `ParseIntError` of `parse::<u16>` says, for a text that does not parse.
unfoldable pub digits_error : ℕ → Str → Str
unfolding to_digit
digits_error acc [] = codes "number too large to fit in target type"
digits_error acc (c ∷ s) = elim (to_digit 10 c) [
  | none ↦ codes "invalid digit found in string"
  | some d ↦
      let rest = digits_error (acc * 10 + d) s in
      if ltb (acc * 10 + d) u16_limit then rest else codes "number too large to fit in target type"
]

unfoldable pub parse_u16_error : Str → Str
unfolding digits_error
parse_u16_error [] = codes "cannot parse integer from empty string"
parse_u16_error (c ∷ []) = codes "invalid digit found in string"
parse_u16_error (c ∷ d ∷ s) = digits_error 0 (if c == b'+' then d ∷ s else c ∷ d ∷ s)

-- Decimal printing; a number has fewer digits than its value and one more.
unfoldable pub digits_to_string : ℕ → ℕ → Str
digits_to_string zero n = []
digits_to_string (suc fuel) n =
    let front = digits_to_string fuel (n / 10) in
    if ltb n 10 then (b'0' + n) ∷ [] else front ++ (b'0' + n % 10) ∷ []

unfoldable pub to_string : ℕ → Str
unfolding digits_to_string
to_string n = digits_to_string (suc n) n
