-- ===== src/Wire/Parse.antt =====
-- src/proxy.rs: `parse_raw_request` and `parse_raw_response`.
use hexbuffer_proxy.Prelude.{
  ℕ, ◌+◌, List, [], ◌∷◌, Option, none, some, if◌then◌else◌, Outcome, ok, err, panic, ◌>>=◌, drop,
}
use hexbuffer_proxy.Text.{
  Bytes, Str, codes, from_utf8_lossy, lines, split_whitespace, split_once, trim, position, next,
  nth_1, unwrap_or, is_empty, parse_u16, parse_u16_error,
}
use hexbuffer_proxy.Error.{Failure, from_external}
use hexbuffer_proxy.Http.{HttpCrate}
use hexbuffer_proxy.Handler.Types.{Body, full, Request, Response}
use hexbuffer_proxy.Reader.Response.{blank_line}
use hexbuffer_proxy.Wire.Syntax.{HttpSyntax}

-- The header lines of a message, up to the first empty line. A line with no colon is skipped.
unfoldable pub header_lines : List Str → List (Str × Str)
unfolding trim
header_lines [] = []
header_lines (line ∷ rest) =
    let more = header_lines rest in
    if is_empty line then [] else elim (split_once b':' line) [
      | none ↦ more
      | some (key, value) ↦ (trim key, trim value) ∷ more
    ]

abbrev pub behind_next {ℓ} : {A : Type ℓ} → List A → List A
behind_next [] = []
behind_next (x ∷ xs) = xs

-- The bytes behind the first blank line, or none.
unfoldable pub body_bytes : Bytes → Bytes
unfolding position
body_bytes raw = elim (position blank_line raw) [ none ↦ [] | some pos ↦ drop (pos + 4) raw ]

module _ (http : HttpCrate) (syntax : HttpSyntax http) where
  -- `builder.header(key, value)` for each header: one that is no header spoils the builder.
  unfoldable pub add_headers : List (Str × Str) → http.Headers → Option http.Headers
  add_headers [] h = some h
  add_headers ((key, value) ∷ rest) h = elim (syntax.header_name key) [
    | none ↦ none
    | some k ↦ elim (syntax.header_value value) [
      | none ↦ none
      | some v ↦ add_headers rest (syntax.append h k v)
    ]
  ]

  -- `builder.body(…)` and `unwrap`.
  unfoldable pub build_request :
      Str → Str → Option http.Headers → Body http → Outcome Failure (Request http)
  build_request method uri none body = panic
  build_request method uri (some h) body = elim (syntax.parse_uri uri) [
    | none ↦ panic
    | some u ↦
        if syntax.is_method method
        then ok (record { method = method; uri = u; headers = h; body = body })
        else panic
  ]

  unfoldable pub build_response :
      ℕ → Option http.Headers → Body http → Outcome Failure (Response http)
  build_response status none body = panic
  build_response status (some h) body =
      if syntax.is_status status
      then ok (record { status = status; headers = h; body = body })
      else panic

  unfoldable pub parse_raw_request : Bytes → Outcome Failure (Request http)
  parse_raw_request raw =
      let text = lines (from_utf8_lossy raw) in
      let parts = split_whitespace (unwrap_or (next text) []) in
      build_request (unwrap_or (next parts) (codes "GET")) (unwrap_or (nth_1 parts) (codes "/"))
        (add_headers (header_lines (behind_next text)) syntax.empty) (full (body_bytes raw))

  abbrev pub parsed_status : Str → Outcome Failure ℕ
  parsed_status s = elim (parse_u16 s) [
    | none ↦ err (from_external (parse_u16_error s))
    | some n ↦ ok n
  ]

  unfoldable pub parse_raw_response : Bytes → Outcome Failure (Response http)
  parse_raw_response raw = do
    let text = lines (from_utf8_lossy raw)
    let parts = split_whitespace (unwrap_or (next text) (codes "HTTP/1.1 200 OK"))
    status ← parsed_status (unwrap_or (nth_1 parts) (codes "200"))
    build_response status (add_headers (header_lines (behind_next text)) syntax.empty)
        (full (body_bytes raw))
