-- ===== src/Reader/Framing.antt =====
-- src/proxy.rs: the tests on a message head that choose how its body is read.
use hexbuffer_proxy.Prelude.{
  ℕ, Bool, false, not, ◌&&◌, ◌||◌, List, [], ◌∷◌, Option, none, some, ◌==◌, if◌then◌else◌,
}
use hexbuffer_proxy.Text.{
  Str, codes, lines, to_lowercase, starts_with, contains, split_second, split_whitespace, trim,
  next, nth_1, and_then, unwrap_or, parse_usize, parse_u16,
}

-- `l.to_lowercase()` starts with "transfer-encoding:" and holds "chunked".
abbrev chunked_line : Str → Bool
chunked_line l =
    let lower = to_lowercase l in
    starts_with (codes "transfer-encoding:") lower && contains (codes "chunked") lower

unfoldable pub any_chunked : List Str → Bool
unfolding to_lowercase starts_with contains
any_chunked [] = false
any_chunked (l ∷ ls) = chunked_line l || any_chunked ls

unfoldable pub is_chunked : Str → Bool
unfolding any_chunked lines
is_chunked headers = any_chunked (lines headers)

-- The first line that starts with "content-length:" in lower case.
unfoldable pub find_length : List Str → Option Str
unfolding to_lowercase starts_with
find_length [] = none
find_length (l ∷ ls) =
    let rest = find_length ls in
    if starts_with (codes "content-length:") (to_lowercase l) then some l else rest

unfoldable pub get_content_length : Str → Option ℕ
unfolding find_length lines trim
get_content_length headers =
    and_then (and_then (find_length (lines headers)) (split_second b':'))
      (λ v. parse_usize (trim v))

abbrev pub no_body_code : ℕ → Bool
no_body_code code = code == 101 || code == 204 || code == 304

unfoldable pub is_no_body_status : Str → Bool
unfolding lines split_whitespace
is_no_body_status headers =
    unwrap_or
      (and_then
        (and_then (and_then (next (lines headers)) (λ l. nth_1 (split_whitespace l))) parse_u16)
        (λ code. some (no_body_code code)))
      false

unfoldable pub is_request : Str → Bool
unfolding lines starts_with
is_request headers =
    not (
      unwrap_or (and_then (next (lines headers)) (λ l. some (starts_with (codes "HTTP/") l))) false)
