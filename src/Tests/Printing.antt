-- ===== src/Tests/Printing.antt =====
-- A run of the printer and the reader of responses.
use hexbuffer_proxy.Prelude.{
  ℕ, ◌≡◌, ◌<◌, ◌≤◌, refl, true, false, ◌==◌, leb, if◌then◌else◌, some, none, arith, [], ◌∷◌, ok,
}
use hexbuffer_proxy.Text.{codes, contains_char, trim, unwrap_or}
use hexbuffer_proxy.Text.Ascii.{is_ascii-IsAscii}
use hexbuffer_proxy.Handler.Types.{Response, full}
use hexbuffer_proxy.Wire.Parse.{parse_raw_response}
use hexbuffer_proxy.Wire.Serialize.{serialize_response}
use hexbuffer_proxy.Wire.Laws.{IsPlain}
use hexbuffer_proxy.Wire.Responses.{IsReason, StatusLaws, parse_raw_response-serialize_response}
use hexbuffer_proxy.Tests.Syntax.{small, small_syntax, small_laws}

ok-IsReason : IsReason (codes "OK")
unfolding contains_char
ok-IsReason = record {
  ascii = is_ascii-IsAscii (codes "OK") refl;
  one_line = refl;
  no_return = refl;
}

pub phrase-IsReason :
    (n : ℕ) → IsReason (unwrap_or (if n == 200 then some (codes "OK") else none) (codes "OK"))
phrase-IsReason n =
    elim (n == 200)
      as (λ b. IsReason (unwrap_or (if b then some (codes "OK") else none) (codes "OK"))) [
        | true ↦ ok-IsReason
        | false ↦ ok-IsReason
      ]

pub three_long : (n : ℕ) → (if leb 100 n then leb n 999 else false) ≡ true → (100 ≤ n) × (n < 1000)
three_long n h = ground arith

small_statuses : StatusLaws small small_syntax
small_statuses = record { status_range = three_long; reason-IsReason = phrase-IsReason }

abbrev not_found : Response small
not_found = record {
  status = 404;
  headers = codes "a.example" ∷ codes "b: c" ∷ [];
  body = full (255 ∷ codes "\r\n\r\n");
}

first-IsPlain : IsPlain small small_syntax (codes "a.example")
unfolding contains_char trim
first-IsPlain = record {
  ascii = is_ascii-IsAscii (codes "a.example") refl;
  one_line = refl;
  no_return = refl;
  trimmed = refl;
  same = refl;
}

second-IsPlain : IsPlain small small_syntax (codes "b: c")
unfolding contains_char trim
second-IsPlain = record {
  ascii = is_ascii-IsAscii (codes "b: c") refl;
  one_line = refl;
  no_return = refl;
  trimmed = refl;
  same = refl;
}

parse_raw_response-serialize_response_example :
    parse_raw_response small small_syntax (serialize_response small small_syntax not_found)
    ≡ ok not_found
parse_raw_response-serialize_response_example =
    parse_raw_response-serialize_response small small_syntax small_laws small_statuses not_found
      (255 ∷ codes "\r\n\r\n") refl refl (first-IsPlain, (second-IsPlain, _))
