-- ===== src/Text/Decimal.antt =====
-- A number of three digits is printed and parsed.
use hexbuffer_proxy.Prelude.{
  ℕ, zero, suc, ◌+◌, ◌*◌, ◌/◌, ◌%◌, ◌≤◌, ◌<◌, ◌==◌, ◌≡◌, refl, true, false, [], ◌∷◌, some, arith,
  ltb,
}
use hexbuffer_proxy.Text.Defs.{
  Str, to_digit, digits_from, from_str_radix, digits_to_string, to_string, parse_u16, is_whitespace,
}
use hexbuffer_proxy.Text.Ascii.{IsAscii, IsWord}

abbrev pub three_digits : ℕ → Str
three_digits n = (b'0' + n / 10 / 10) ∷ (b'0' + n / 10 % 10) ∷ (b'0' + n % 10) ∷ []

pub to_string_three : (n : ℕ) → 100 ≤ n → n < 1000 → to_string n ≡ three_digits n
unfolding to_string digits_to_string
to_string_three zero lo hi = absurd (omega arith)
to_string_three (suc zero) lo hi = absurd (omega arith)
to_string_three (suc (suc n)) lo hi =
    let a : ltb (suc (suc n)) 10 ≡ false = ground arith in
    let b : ltb (suc (suc n) / 10) 10 ≡ false = ground arith in
    let c : ltb (suc (suc n) / 10 / 10) 10 ≡ true = ground arith in rw (a, b, c) refl

to_digit-add : (d : ℕ) → d < 10 → to_digit 10 (b'0' + d) ≡ some d
unfolding to_digit
to_digit-add d h = ground arith

pub parse_u16_three : (n : ℕ) → 100 ≤ n → n < 1000 → parse_u16 (three_digits n) ≡ some n
unfolding from_str_radix digits_from
parse_u16_three n lo hi =
    let x = to_digit-add (n / 10 / 10) (omega arith) in
    let y = to_digit-add (n / 10 % 10) (omega arith) in
    let z = to_digit-add (n % 10) (omega arith) in
    let sum : ((0 * 10 + n / 10 / 10) * 10 + n / 10 % 10) * 10 + n % 10 ≡ n = omega arith in
    let no_sign : ((b'0' + n / 10 / 10) == b'+') ≡ false = ground arith in
    ground (arith, x, y, z, sum, no_sign)

pub three_digits-IsAscii : (n : ℕ) → n < 1000 → IsAscii (three_digits n)
three_digits-IsAscii n hi = (omega arith, (omega arith, (omega arith, _)))

digit_black : (d : ℕ) → d < 10 → is_whitespace (b'0' + d) ≡ false
unfolding is_whitespace
digit_black d h = ground arith

pub three_digits-IsWord : (n : ℕ) → n < 1000 → IsWord (three_digits n)
three_digits-IsWord n hi = (
  digit_black (n / 10 / 10) (omega arith),
  (digit_black (n / 10 % 10) (omega arith), (digit_black (n % 10) (omega arith), _)),
)
