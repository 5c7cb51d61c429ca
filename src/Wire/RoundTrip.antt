-- ===== src/Wire/RoundTrip.antt =====
-- A printed request is read back.
use hexbuffer_proxy.Prelude.{
  ℕ, ◌<◌, ◌≡◌, refl, sym, ap, ◌∙◌, true, false, List, [], ◌∷◌, ◌++◌, append_assoc, some, arith, All,
  All-append, ok,
}
use hexbuffer_proxy.Text.{Bytes, Str, codes, split_whitespace, is_whitespace, contains_char}
use hexbuffer_proxy.Text.Ascii.{IsAscii, is_ascii-IsAscii, as_bytes-IsAscii}
use hexbuffer_proxy.Text.Lines.{
  lines_crlf, split_whitespace-append, contains_char-IsWord, contains_char-append,
}
use hexbuffer_proxy.Http.{HttpCrate}
use hexbuffer_proxy.Handler.Types.{full, Request}
use hexbuffer_proxy.Wire.Syntax.{HttpSyntax}
use hexbuffer_proxy.Wire.Parse.{add_headers, build_request, parse_raw_request}
use hexbuffer_proxy.Wire.Serialize.{serialize_headers, serialize_request}
use hexbuffer_proxy.Wire.Laws.{IsToken, IsName, SyntaxLaws, IsPlain}
use hexbuffer_proxy.Wire.HeaderLines.{
  newline-white, return-white, Good, header_lines-serialize_headers, body_bytes-serialize_headers,
  add_headers-append_all,
}

module _ (http : HttpCrate) (syntax : HttpSyntax http) where
  pub zip-Good :
      (hs : List (Bytes × Bytes))
      → All (λ kv. IsName http syntax kv.0) hs
      → All (λ kv. IsPlain http syntax kv.1) hs
      → All (Good http syntax) hs
  zip-Good [] n p = _
  zip-Good (kv ∷ hs) (n, ns) (p, ps) = ((n, p), zip-Good hs ns ps)

  abbrev pub request_line : Str → Str → Bytes
  request_line m u = m ++ (b' ' ∷ (u ++ codes " HTTP/1.1"))

  request_line-IsAscii : (m u : Str) → IsToken m → IsToken u → IsAscii (request_line m u)
  request_line-IsAscii m u tm tu =
      All-append (λ b. b < 128) m (b' ' ∷ (u ++ codes " HTTP/1.1")) tm.ascii
        (
          omega arith,
          All-append (λ b. b < 128) u (codes " HTTP/1.1") tu.ascii
              (is_ascii-IsAscii (codes " HTTP/1.1") refl),
        )

  request_line-without :
      (x : ℕ) (m u : Str)
      → is_whitespace x ≡ true
      → contains_char x (codes " ") ≡ false
      → contains_char x (codes " HTTP/1.1") ≡ false
      → IsToken m
      → IsToken u
      → contains_char x (request_line m u) ≡ false
  request_line-without x m u white one two tm tu =
      contains_char-append x m (b' ' ∷ (u ++ codes " HTTP/1.1"))
        (contains_char-IsWord x m white tm.word)
        (contains_char-append x (codes " ") (u ++ codes " HTTP/1.1") one (
          contains_char-append x u (codes " HTTP/1.1") (contains_char-IsWord x u white tu.word)
            two))

  split_whitespace-request_line :
      (m u : Str)
      → IsToken m
      → IsToken u
      → split_whitespace (request_line m u) ≡ m ∷ u ∷ split_whitespace (codes "HTTP/1.1")
  split_whitespace-request_line m u tm tu =
      split_whitespace-append m (u ++ codes " HTTP/1.1") tm.word tm.nonempty
      ∙ ap (◌∷◌ m) (split_whitespace-append u (codes "HTTP/1.1") tu.word tu.nonempty)

  pub serialize_request-request_line :
      (req : Request http) (body : Bytes)
      → IsToken req.method
      → IsToken (syntax.uri_to_string req.uri)
      → req.body ≡ full body
      → serialize_request http syntax req
        ≡ request_line req.method (syntax.uri_to_string req.uri)
          ++ (codes "\r\n" ++ (serialize_headers (http.iter req.headers) ++ body))
  unfolding serialize_request
  serialize_request-request_line req body tm tu is_full =
      let u = syntax.uri_to_string req.uri in
      let ascii : IsAscii (request_line req.method u ++ codes "\r\n") =
        All-append (λ b. b < 128) (request_line req.method u) (codes "\r\n")
          (request_line-IsAscii req.method u tm tu) (is_ascii-IsAscii (codes "\r\n") refl) in
      let same : req.method ++ codes " " ++ u ++ codes " HTTP/1.1\r\n"
          ≡ request_line req.method u ++ codes "\r\n" =
        simp append_assoc in
      rw (is_full, same, as_bytes-IsAscii (request_line req.method u ++ codes "\r\n") ascii)
        (simp append_assoc)

  -- A request that is printed and read again is the same: its method and target, all headers in order and
  -- its bytes of body, whatever these are. The crate `http` behaves as documented; the method is one, the
  -- target is ASCII text without white space, the body is in memory, and each header value is visible text
  -- without white space at its ends.
  pub parse_raw_request-serialize_request :
      (laws : SyntaxLaws http syntax) (req : Request http) (body : Bytes)
      → syntax.is_method req.method ≡ true
      → IsToken (syntax.uri_to_string req.uri)
      → req.body ≡ full body
      → All (λ kv. IsPlain http syntax kv.1) (http.iter req.headers)
      → parse_raw_request http syntax (serialize_request http syntax req) ≡ ok req
  unfolding parse_raw_request build_request
  parse_raw_request-serialize_request laws req body method tu is_full plain =
      let u = syntax.uri_to_string req.uri in
      let hs = http.iter req.headers in
      let tm = laws.method-IsToken req.method method in
      let good = zip-Good hs (laws.iter-IsName req.headers) plain in
      let tail = serialize_headers hs ++ body in
      let printed = serialize_request-request_line req body tm tu is_full in
      let first =
        lines_crlf (request_line req.method u) tail (request_line-IsAscii req.method u tm tu) (
          request_line-without b'\n' req.method u newline-white (unfold contains_char in refl)
            (unfold contains_char in refl) tm tu) in
      let rest =
        body_bytes-serialize_headers http syntax (request_line req.method u) hs body
          (request_line-without b'\r' req.method u return-white (unfold contains_char in refl)
            (unfold contains_char in refl) tm tu)
          good in
      let map : add_headers http syntax hs syntax.empty ≡ some req.headers =
        add_headers-append_all http syntax hs syntax.empty good
        ∙ ap some (laws.append_all-iter req.headers) in
      rw
        (
          printed,
          first,
          rest,
          split_whitespace-request_line req.method u tm tu,
          header_lines-serialize_headers http syntax hs body good,
          map,
        )
        (rw (laws.parse_uri-uri_to_string req.uri, method, build_request)
          (ap (λ b. ok (record req { body = b })) (sym is_full)))
