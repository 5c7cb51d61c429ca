-- ===== src/Wire/Switching.antt =====
-- Printed responses that have no body, as `read_full_response` meets them.
use hexbuffer_proxy.Prelude.{
  ℕ, ◌+◌, ◌<◌, ◌≤◌, ◌≡◌, refl, sym, ap, ap₂, ◌∙◌, true, List, take-length_append,
  drop-length_append, take-append_le, drop-append_le, suc, [], ◌∷◌, ◌++◌, append_assoc, append-nil,
  some, Option-cases, inl, inr, arith, All, ok, length, take, drop, length-append, length-drop,
}
use hexbuffer_proxy.Text.{
  Bytes, Str, codes, contains_char, split_whitespace, parse_u16, unwrap_or, lines, from_utf8_lossy,
  position,
}
use hexbuffer_proxy.Text.Search.{position-append_front, position-append, position_bound}
use hexbuffer_proxy.Text.Decimal.{three_digits, parse_u16_three}
use hexbuffer_proxy.Text.Lines.{lines_crlf}
use hexbuffer_proxy.Http.{HttpCrate}
use hexbuffer_proxy.Handler.Types.{full, Response}
use hexbuffer_proxy.Reader.Framing.{is_no_body_status, no_body_code}
use hexbuffer_proxy.Reader.Stream.{Stream}
use hexbuffer_proxy.Reader.Response.{
  response_behind, read_http_body, blank_line, read_full_response,
}
use hexbuffer_proxy.Reader.Heads.{found, missing, read_head_loop-HeadRead}
use hexbuffer_proxy.Wire.Syntax.{HttpSyntax}
use hexbuffer_proxy.Wire.Parse.{body_bytes}
use hexbuffer_proxy.Wire.Serialize.{serialize_headers, serialize_response}
use hexbuffer_proxy.Wire.Laws.{SyntaxLaws, IsPlain}
use hexbuffer_proxy.Wire.RoundTrip.{zip-Good}
use hexbuffer_proxy.Wire.Responses.{
  StatusLaws, line_for, line_for-IsAscii, line_for-without, split_whitespace-line_for,
  serialize_response-line_for,
}
use hexbuffer_proxy.Wire.HeaderLines.{newline-white, return-white, body_bytes-serialize_headers}

-- Where the blank line stands, if behind it there is something that is known.
position-body_bytes :
    (head : Bytes) (b : ℕ)
    → body_bytes (head ++ b ∷ []) ≡ b ∷ []
    → (i : ℕ) × (position blank_line head ≡ some i) × (i + 4 ≡ length head)
unfolding body_bytes
position-body_bytes head b h = elim (Option-cases (position blank_line (head ++ b ∷ []))) [
  | inl e ↦ cc
  | inr (i, e) ↦
      let same : body_bytes (head ++ b ∷ []) ≡ drop (i + 4) (head ++ b ∷ []) =
        rw (body_bytes, e) refl in
      let left : length (drop (i + 4) (head ++ b ∷ [])) ≡ 1 = ap length (sym same ∙ h) in
      let at : i + 4 ≡ length head = omega (
        arith,
        left,
        length-drop (i + 4) (head ++ b ∷ []),
        length-append head (b ∷ []),
        position_bound blank_line (head ++ b ∷ []) i e,
      ) in
      (i, position-append_front blank_line head (b ∷ []) i e (omega (arith, at)) (omega arith), at)
]

-- The status in a head whose first line is known.
is_no_body_status-line :
    (headers l w v : Str) (ls ws : List Str) (n : ℕ)
    → lines headers ≡ l ∷ ls
    → split_whitespace l ≡ w ∷ v ∷ ws
    → parse_u16 v ≡ some n
    → is_no_body_status headers ≡ no_body_code n
unfolding is_no_body_status
is_no_body_status-line headers l w v ls ws n first words number = rw (first, words, number) refl

-- What is behind a head that announces no body stays on the stream, but for what came with the head.
response_behind-none :
    (size : ℕ) (buffer : Bytes) (s : Stream) (i : ℕ)
    → is_no_body_status (from_utf8_lossy (take (i + 4) buffer)) ≡ true
    → response_behind size buffer s (some i) ≡ ok (take (i + 4) buffer ++ [], s)
unfolding response_behind read_http_body
response_behind-none size buffer s i none_there = rw none_there refl

module _ (http : HttpCrate) (syntax : HttpSyntax http) (laws : SyntaxLaws http syntax)
    (statuses : StatusLaws http syntax) where
  -- A response with no body that can be printed.
  pub record IsBodyless (res : Response http) : Type 0 where
    pub status : syntax.is_status res.status ≡ true
    pub code : no_body_code res.status ≡ true
    pub empty : res.body ≡ full []
    pub values : All (λ kv. IsPlain http syntax kv.1) (http.iter res.headers)

  abbrev reason_of : Response http → Str
  reason_of res = unwrap_or (syntax.canonical_reason res.status) (codes "OK")

  printed-line :
      (res : Response http)
      → IsBodyless res
      → serialize_response http syntax res
        ≡ line_for http syntax res.status (reason_of res)
          ++ (codes "\r\n" ++ serialize_headers (http.iter res.headers))
  printed-line res r =
      let (lo, hi) = statuses.status_range res.status r.status in
      serialize_response-line_for http syntax res [] lo hi (statuses.reason-IsReason res.status)
        r.empty
      ∙ ap (λ x. line_for http syntax res.status (reason_of res) ++ (codes "\r\n" ++ x))
          (append-nil (serialize_headers (http.iter res.headers)))

  -- The blank line is the end of the printed text.
  printed-position :
      (res : Response http)
      → IsBodyless res
      → (i : ℕ) × (position blank_line (serialize_response http syntax res) ≡ some i)
        × (i + 4 ≡ length (serialize_response http syntax res))
  printed-position res r =
      let (lo, hi) = statuses.status_range res.status r.status in
      let reason = statuses.reason-IsReason res.status in
      let hs = http.iter res.headers in
      let line = line_for http syntax res.status (reason_of res) in
      let behind =
        body_bytes-serialize_headers http syntax line hs (0 ∷ [])
          (line_for-without http syntax b'\r' res.status (reason_of res) return-white
            (unfold contains_char in refl) (unfold contains_char in refl) reason.no_return hi)
          (zip-Good http syntax hs (laws.iter-IsName res.headers) r.values) in
      position-body_bytes (serialize_response http syntax res) 0 (
        ap (λ x. body_bytes (x ++ 0 ∷ [])) (printed-line res r)
        ∙ ap body_bytes (append_assoc line (codes "\r\n" ++ serialize_headers hs) (0 ∷ []))
        ∙ behind)

  -- Such heads announce no body.
  printed-no_body :
      (res : Response http)
      → IsBodyless res
      → is_no_body_status (from_utf8_lossy (serialize_response http syntax res)) ≡ true
  printed-no_body res r =
      let (lo, hi) = statuses.status_range res.status r.status in
      let reason = statuses.reason-IsReason res.status in
      let line = line_for http syntax res.status (reason_of res) in
      let first =
        lines_crlf line (serialize_headers (http.iter res.headers))
          (line_for-IsAscii http syntax res.status (reason_of res) hi reason)
          (line_for-without http syntax b'\n' res.status (reason_of res) newline-white
            (unfold contains_char in refl) (unfold contains_char in refl) reason.one_line hi) in
      ap (λ x. is_no_body_status (from_utf8_lossy x)) (printed-line res r)
      ∙ is_no_body_status-line _ line (codes "HTTP/1.1") (three_digits res.status) _ _ res.status
          first (split_whitespace-line_for http syntax res.status (reason_of res) hi)
          (parse_u16_three res.status lo hi)
      ∙ r.code

  bodyless_found :
      (size : ℕ) (res : Response http) (tail buffer : Bytes) (rest : Stream) (i : ℕ)
      → IsBodyless res
      → position blank_line buffer ≡ some i
      → buffer ++ rest.incoming ≡ serialize_response http syntax res ++ tail
      → length buffer < i + 4 + size
      → (lost : Bytes) × (response_behind size buffer rest (some i)
          ≡ ok (serialize_response http syntax res, rest))
        × (tail ≡ lost ++ rest.incoming)
        × (length lost < size)
  bodyless_found size res tail buffer rest i b at all few =
      let printed = serialize_response http syntax res in
      let (j, place, end) = printed-position res b in
      let inside : i + 4 ≤ length buffer = position_bound blank_line buffer i at in
      let i_j : i ≡ j = cc (
        position-append blank_line printed tail j place,
        position-append blank_line buffer rest.incoming i at,
        all,
      ) in
      let ends : i + 4 ≡ length printed = ap (λ n. n + 4) i_j ∙ end in
      let front : take (i + 4) buffer ≡ printed =
        sym (take-append_le (i + 4) buffer rest.incoming inside)
        ∙ ap₂ take ends all
        ∙ take-length_append printed tail in
      let back : drop (i + 4) buffer ++ rest.incoming ≡ tail =
        sym (drop-append_le (i + 4) buffer rest.incoming inside)
        ∙ ap₂ drop ends all
        ∙ drop-length_append printed tail in
      let announced : is_no_body_status (from_utf8_lossy (take (i + 4) buffer)) ≡ true =
        ap (λ x. is_no_body_status (from_utf8_lossy x)) front ∙ printed-no_body res b in
      (
        drop (i + 4) buffer,
        response_behind-none size buffer rest i announced
            ∙ ap (λ x. ok (x, rest)) (append-nil (take (i + 4) buffer) ∙ front),
        sym back,
        omega (arith, length-drop (i + 4) buffer, few),
      )

  -- `read_full_response` reads it, however the bytes are cut up. What came with its end is lost, fewer bytes than the
  -- buffer has room for, and the rest is left
  -- on the stream.
  pub read_full_response-bodyless :
      (size : ℕ) (s : Stream) (res : Response http) (tail : Bytes)
      → 0 < size
      → s.incoming ≡ serialize_response http syntax res ++ tail
      → IsBodyless res
      → (rest : Stream) × (lost : Bytes) × (read_full_response s size
          ≡ ok (serialize_response http syntax res, rest))
        × (tail ≡ lost ++ rest.incoming)
        × (length lost < size)
  unfolding position read_full_response
  read_full_response-bodyless size s res tail pos same b =
      elim (read_head_loop-HeadRead size pos (suc (length s.incoming)) [] s (omega arith) refl) [
        | found buffer rest i p at all e few ↦
            let (lost, read, split, less) =
              bodyless_found size res tail buffer rest i b at (all ∙ same) few in
            (rest, lost, rw (p, read_full_response) (rw at read), split, less)
        | missing rest p nowhere q e ↦
            let (i, at, end) = printed-position res b in
            let placed =
              position-append blank_line (serialize_response http syntax res) tail i at in
            absurd (cc (placed, nowhere, same))
      ]
