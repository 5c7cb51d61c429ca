-- ===== src/Wire/Responses.antt =====
-- A printed response is read back.
use hexbuffer_proxy.Prelude.{
  ℕ, ◌<◌, ◌≤◌, ◌≡◌, refl, sym, ap, ◌∙◌, true, false, ◌∷◌, ◌++◌, append_assoc, some, none, arith,
  All, All-append, ok, err, Outcome, ◌>>=◌,
}
use hexbuffer_proxy.Text.{
  Bytes, Str, codes, contains_char, split_whitespace, parse_u16, parse_u16_error, unwrap_or,
  is_whitespace, lines, from_utf8_lossy,
}
use hexbuffer_proxy.Text.Ascii.{IsAscii, is_ascii-IsAscii, as_bytes-IsAscii, is_word-IsWord}
use hexbuffer_proxy.Text.Decimal.{
  three_digits, to_string_three, parse_u16_three, three_digits-IsAscii, three_digits-IsWord,
}
use hexbuffer_proxy.Text.Lines.{
  lines_crlf, split_whitespace-append, contains_char-append, contains_char-IsWord,
}
use hexbuffer_proxy.Error.{Failure, from_external}
use hexbuffer_proxy.Http.{HttpCrate}
use hexbuffer_proxy.Handler.Types.{full, Response}
use hexbuffer_proxy.Wire.Syntax.{HttpSyntax}
use hexbuffer_proxy.Wire.Parse.{
  header_lines, behind_next, add_headers, build_response, parsed_status, parse_raw_response,
}
use hexbuffer_proxy.Wire.Serialize.{serialize_headers, serialize_response}
use hexbuffer_proxy.Wire.Laws.{SyntaxLaws, IsPlain}
use hexbuffer_proxy.Wire.RoundTrip.{zip-Good}
use hexbuffer_proxy.Wire.HeaderLines.{
  newline-white, return-white, header_lines-serialize_headers, body_bytes-serialize_headers,
  add_headers-append_all,
}

-- A reason phrase is ASCII text on one line.
pub record IsReason (s : Str) : Type 0 where
  pub ascii : IsAscii s
  pub one_line : contains_char b'\n' s ≡ false
  pub no_return : contains_char b'\r' s ≡ false

module _ (http : HttpCrate) (syntax : HttpSyntax http) where
  -- The documented behaviour of `StatusCode`: three digits, and phrases as RFC 9110 lists them.
  pub record StatusLaws : Type 0 where
    pub status_range : (n : ℕ) → syntax.is_status n ≡ true → (100 ≤ n) × (n < 1000)
    pub reason-IsReason : (n : ℕ) → IsReason (unwrap_or (syntax.canonical_reason n) (codes "OK"))

  abbrev version : Str
  version = codes "HTTP/1.1"

  -- The status line without its end.
  abbrev pub line_for : ℕ → Str → Bytes
  line_for n reason = version ++ (b' ' ∷ (three_digits n ++ (b' ' ∷ reason)))

  pub line_for-IsAscii :
      (n : ℕ) (reason : Str) → n < 1000 → IsReason reason → IsAscii (line_for n reason)
  line_for-IsAscii n reason hi r =
      All-append (λ b. b < 128) version (b' ' ∷ (three_digits n ++ (b' ' ∷ reason)))
        (is_ascii-IsAscii version refl)
        (
          omega arith,
          All-append (λ b. b < 128) (three_digits n) (b' ' ∷ reason) (three_digits-IsAscii n hi)
              (omega arith, r.ascii),
        )

  pub line_for-without :
      (x n : ℕ) (reason : Str)
      → is_whitespace x ≡ true
      → contains_char x (codes "HTTP/1.1 ") ≡ false
      → contains_char x (codes " ") ≡ false
      → contains_char x reason ≡ false
      → n < 1000
      → contains_char x (line_for n reason) ≡ false
  line_for-without x n reason white front gap clear hi =
      contains_char-append x (codes "HTTP/1.1 ") (three_digits n ++ (b' ' ∷ reason)) front (
        contains_char-append x (three_digits n) (b' ' ∷ reason)
          (contains_char-IsWord x (three_digits n) white (three_digits-IsWord n hi))
          (contains_char-append x (codes " ") reason gap clear))

  pub split_whitespace-line_for :
      (n : ℕ) (reason : Str)
      → n < 1000
      → split_whitespace (line_for n reason) ≡ version ∷ three_digits n ∷ split_whitespace reason
  unfolding is_whitespace
  split_whitespace-line_for n reason hi =
      split_whitespace-append version (three_digits n ++ (b' ' ∷ reason))
        (is_word-IsWord version refl) refl
      ∙ ap (◌∷◌ version)
          (split_whitespace-append (three_digits n) reason (three_digits-IsWord n hi) refl)

  pub serialize_response-line_for :
      (res : Response http) (body : Bytes)
      → 100 ≤ res.status
      → res.status < 1000
      → IsReason (unwrap_or (syntax.canonical_reason res.status) (codes "OK"))
      → res.body ≡ full body
      → serialize_response http syntax res
        ≡ line_for res.status (unwrap_or (syntax.canonical_reason res.status) (codes "OK"))
          ++ (codes "\r\n" ++ (serialize_headers (http.iter res.headers) ++ body))
  unfolding serialize_response
  serialize_response-line_for res body lo hi r is_full =
      let reason = unwrap_or (syntax.canonical_reason res.status) (codes "OK") in
      let line = line_for res.status reason in
      let ascii : IsAscii (line ++ codes "\r\n") =
        All-append (λ b. b < 128) line (codes "\r\n") (line_for-IsAscii res.status reason hi r)
          (is_ascii-IsAscii (codes "\r\n") refl) in
      rw (is_full, to_string_three res.status lo hi)
        (rw (as_bytes-IsAscii (line ++ codes "\r\n") ascii) (simp append_assoc))

  with_number :
      (s : Str) (n : ℕ)
      → parse_u16 s ≡ some n
      → (k : ℕ → Outcome Failure (Response http)) → (parsed_status http syntax s >>= k) ≡ k n
  with_number s n e k =
      ap (λ o. elim o [ none ↦ err (from_external (parse_u16_error s)) | some m ↦ ok m ] >>= k) e

  -- A response that is printed and read again is the same: its status, all headers in order and its bytes
  -- of body, whatever these are. The crate `http` behaves as documented; the status is one, the body is
  -- in memory, and each header value is visible text without white space at its ends.
  pub parse_raw_response-serialize_response :
      (laws : SyntaxLaws http syntax) (statuses : StatusLaws) (res : Response http) (body : Bytes)
      → syntax.is_status res.status ≡ true
      → res.body ≡ full body
      → All (λ kv. IsPlain http syntax kv.1) (http.iter res.headers)
      → parse_raw_response http syntax (serialize_response http syntax res) ≡ ok res
  unfolding parse_raw_response build_response
  parse_raw_response-serialize_response laws statuses res body status is_full plain =
      let reason = unwrap_or (syntax.canonical_reason res.status) (codes "OK") in
      let (lo, hi) = statuses.status_range res.status status in
      let r = statuses.reason-IsReason res.status in
      let hs = http.iter res.headers in
      let good = zip-Good http syntax hs (laws.iter-IsName res.headers) plain in
      let tail = serialize_headers hs ++ body in
      let printed = serialize_response-line_for res body lo hi r is_full in
      let first =
        lines_crlf (line_for res.status reason) tail (line_for-IsAscii res.status reason hi r) (
          line_for-without b'\n' res.status reason newline-white (unfold contains_char in refl)
            (unfold contains_char in refl) r.one_line hi) in
      let rest =
        body_bytes-serialize_headers http syntax (line_for res.status reason) hs body
          (line_for-without b'\r' res.status reason return-white (unfold contains_char in refl)
            (unfold contains_char in refl) r.no_return hi)
          good in
      let map : add_headers http syntax hs syntax.empty ≡ some res.headers =
        add_headers-append_all http syntax hs syntax.empty good
        ∙ ap some (laws.append_all-iter res.headers) in
      let number =
        with_number (three_digits res.status) res.status (parse_u16_three res.status lo hi) in
      let headers : header_lines
            (behind_next (line_for res.status reason ∷ lines (from_utf8_lossy tail)))
          ≡ hs =
        header_lines-serialize_headers http syntax hs body good in
      rw (printed, first, rest, split_whitespace-line_for res.status reason hi)
        (number (λ s.
            build_response http syntax s
              (add_headers http syntax
                (header_lines
                  (behind_next (line_for res.status reason ∷ lines (from_utf8_lossy tail))))
                syntax.empty)
              (full body))
          ∙ rw (headers, map) (rw status (ap (λ b. ok (record res { body = b })) (sym is_full))))
