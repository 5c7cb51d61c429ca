-- ===== src/Decoder/Effect.antt =====
-- What `decode_request` and `decode_response` do to a message.
use hexbuffer_proxy.Prelude.{
  ◌≡◌, ◌≢◌, sym, ap, subst, ◌∙◌, true, false, ◌⊎◌, inl, inr, [], arith, Bool-cases, ok, >>=-eq-ok,
}
use hexbuffer_proxy.Text.{Str}
use hexbuffer_proxy.Http.{HttpCrate}
use hexbuffer_proxy.Handler.Types.{Body, Request, Response}
use hexbuffer_proxy.Decoder.Codecs.{Codecs}
use hexbuffer_proxy.Decoder.Encodings.{
  content_encoding, content_length, encodings, should_decode, strip_encoding_headers,
}
use hexbuffer_proxy.Decoder.Bodies.{decode_body}
use hexbuffer_proxy.Decoder.Messages.{decode_request, decode_response}

module _ (codecs : Codecs) (http : HttpCrate) where
  -- The headers `h'` are `h` without the two that speak of the encoded body.
  pub record Stripped (h h' : http.Headers) : Type 0 where
    pub no_encoding : http.get_all h' content_encoding ≡ []
    pub no_length : http.get_all h' content_length ≡ []
    pub others :
        (name : Str)
        → name ≢ content_encoding
        → name ≢ content_length
        → http.get_all h' name ≡ http.get_all h name

  lengths_differ : ◌≢◌ {A = Str} content_length content_encoding
  lengths_differ e = cc e

  strip-Stripped : (h : http.Headers) → Stripped h (strip_encoding_headers http h)
  unfolding strip_encoding_headers
  strip-Stripped h = record {
    no_encoding =
        http.get_all-remove_ne _ content_length content_encoding lengths_differ
        ∙ http.get_all-remove_self h content_encoding;
    no_length = http.get_all-remove_self _ content_length;
    others = λ name ne nl.
        http.get_all-remove_ne _ content_length name (λ e. nl (sym e))
        ∙ http.get_all-remove_ne h content_encoding name (λ e. ne (sym e));
  }

  not_should_decode :
      (h : http.Headers) → http.get_all h content_encoding ≡ [] → should_decode http h ≡ false
  unfolding should_decode
  not_should_decode h e = ground arith

  -- What a decoded message is, by its headers and its body.
  pub record Decoded (h h' : http.Headers) (b b' : Body http) : Type 0 where
    pub stripped : Stripped h h'
    pub body : decode_body codecs http (encodings http h) b ≡ ok b'

  pub decode_request_effect :
      (req req' : Request http)
      → decode_request codecs http req ≡ ok req'
      → ((should_decode http req.headers ≡ false) × (req' ≡ req))
        ⊎ ((should_decode http req.headers ≡ true)
            × Decoded req.headers req'.headers req.body req'.body
            × (req'.method ≡ req.method)
            × (req'.uri ≡ req.uri))
  unfolding decode_request
  decode_request_effect req req' h = elim (Bool-cases (should_decode http req.headers)) [
    | inr keep ↦ inl (keep, ground arith)
    | inl change ↦
        let (b, decoded, e) =
          >>=-eq-ok (decode_body codecs http (encodings http req.headers) req.body) _
            (rw change at h) in
        let same : record req { headers = strip_encoding_headers http req.headers; body = b }
            ≡ req' =
          cc e in
        inr (
          change,
          subst (λ r. Decoded req.headers r.headers req.body r.body) same
              (record { stripped = strip-Stripped req.headers; body = decoded }),
          sym (ap (λ r. r.method) same),
          sym (ap (λ r. r.uri) same),
        )
  ]

  -- Decoding a request again changes nothing more.
  decode_request_twice :
      (req req' : Request http)
      → decode_request codecs http req ≡ ok req'
      → decode_request codecs http req' ≡ ok req'
  unfolding decode_request
  decode_request_twice req req' h = elim (decode_request_effect req req' h) [
    | inl (keep, same) ↦ rw same (rw same at h)
    | inr (_, d, _, _) ↦ let keep = not_should_decode req'.headers d.stripped.no_encoding in rw keep
  ]

  -- A response that `decode_response` accepts stays as it is if it names no coding or has the length
  -- "0"; else its body is decoded by the codings it names, exactly the two headers on the coding and
  -- the length are gone, and the status stays.
  decode_response_effect :
      (res res' : Response http)
      → decode_response codecs http res ≡ ok res'
      → ((should_decode http res.headers ≡ false) × (res' ≡ res))
        ⊎ ((should_decode http res.headers ≡ true)
            × Decoded res.headers res'.headers res.body res'.body
            × (res'.status ≡ res.status))
  unfolding decode_response
  decode_response_effect res res' h = elim (Bool-cases (should_decode http res.headers)) [
    | inr keep ↦ inl (keep, ground arith)
    | inl change ↦
        let (b, decoded, e) =
          >>=-eq-ok (decode_body codecs http (encodings http res.headers) res.body) _
            (rw change at h) in
        let same : record res { headers = strip_encoding_headers http res.headers; body = b }
            ≡ res' =
          cc e in
        inr (
          change,
          subst (λ r. Decoded res.headers r.headers res.body r.body) same
              (record { stripped = strip-Stripped res.headers; body = decoded }),
          sym (ap (λ r. r.status) same),
        )
  ]
