-- ===== src/Decoder/RoundTrip.antt =====
-- Decoding undoes encoding, through any row of codings.
use mathlib.Core.List.{reverse, reverse-cons}
use hexbuffer_proxy.Prelude.{
  ◌≡◌, ◌≢◌, refl, ◌||◌, inl, inr, List, [], ◌∷◌, ◌++◌, none, Bool-cases, Outcome, ok, err, panic,
  out_of_fuel, ◌>>=◌, >>=-eq-ok, map_err,
}
use hexbuffer_proxy.Text.{Bytes, Str, codes, equal}
use hexbuffer_proxy.Text.Equal.{equal_iff}
use hexbuffer_proxy.Error.{ProxyError, io, protocol}
use hexbuffer_proxy.Http.{HttpCrate}
use hexbuffer_proxy.Handler.Types.{Body, full, into_bytes}
use hexbuffer_proxy.Decoder.Codecs.{gzip, zlib, brotli, Codecs}
use hexbuffer_proxy.Decoder.Bodies.{
  pick_decoder, stack_decoders, decode_task, decode_body, encode_bytes, encode_body,
}

module _ (codecs : Codecs) (http : HttpCrate) where
  -- `encode_body` with each coding in turn.
  abbrev pub encode_all : List Str → Body http → Outcome ProxyError (Body http)
  encode_all [] body = ok body
  encode_all (enc ∷ encs) body = encode_body codecs http body enc none >>= encode_all encs

  -- A reader that reads `bytes` to its end.
  abbrev Yields : codecs.Reader → Bytes → Type 0
  Yields r bytes = codecs.read_to_end r ≡ ok bytes

  -- Every zstd decoder can be set up.
  abbrev pub ZstdStarts : Type 0
  ZstdStarts = (r : codecs.Reader) → (d : codecs.Reader) × (codecs.zstd_decoder r ≡ ok d)

  map_err-eq-ok : (m : Outcome Str Bytes) {e : Bytes} → map_err io m ≡ ok e → m ≡ ok e
  map_err-eq-ok (ok b) h = cc
  map_err-eq-ok (err x) h = cc
  map_err-eq-ok panic h = cc
  map_err-eq-ok out_of_fuel h = cc

  zstd_wrote :
      (new : Outcome Str (Unit {0})) (m : Outcome Str Bytes) {e : Bytes}
      → (map_err (λ x. protocol (codes "zstd encoder init: " ++ x)) new >>= λ _. map_err io m)
        ≡ ok e
      → m ≡ ok e
  zstd_wrote (ok u) m h = map_err-eq-ok m h
  zstd_wrote (err x) m h = cc
  zstd_wrote panic m h = cc
  zstd_wrote out_of_fuel m h = cc

  stack_decoders-append :
      (xs ys : List Bytes) (r : codecs.Reader)
      → stack_decoders codecs (xs ++ ys) r
        ≡ (stack_decoders codecs xs r >>= stack_decoders codecs ys)
  unfolding stack_decoders
  stack_decoders-append [] ys r = refl
  stack_decoders-append (x ∷ xs) ys r = elim (Bool-cases (equal x (codes "identity"))) [
    | inl skip ↦ rw skip (stack_decoders-append xs ys r)
    | inr use_it ↦ rw use_it (go (pick_decoder codecs x r) (stack_decoders-append xs ys))
  ]
    where
      go :
          (m : Outcome ProxyError codecs.Reader)
          → ((q : codecs.Reader)
              → stack_decoders codecs (xs ++ ys) q
                ≡ (stack_decoders codecs xs q >>= stack_decoders codecs ys))
          → (m >>= stack_decoders codecs (xs ++ ys))
            ≡ ((m >>= stack_decoders codecs xs) >>= stack_decoders codecs ys)
      go (ok q) ih = ih q
      go (err e) ih = refl
      go panic ih = refl
      go out_of_fuel ih = refl

  encode_identity :
      (bytes : Bytes) {e : Bytes} → encode_bytes codecs http (codes "identity") bytes ≢ ok e
  unfolding encode_bytes
  encode_identity bytes h = cc

  decode_one :
      (starts : ZstdStarts) (enc : Str) (r : codecs.Reader) (b e : Bytes)
      → encode_bytes codecs http enc b ≡ ok e
      → Yields r e
      → (d : codecs.Reader) × (pick_decoder codecs enc r ≡ ok d) × Yields d b
  unfolding encode_bytes pick_decoder
  decode_one starts enc r b e h y =
      elim (Bool-cases (equal enc (codes "gzip") || equal enc (codes "x-gzip"))) [
        | inl gz ↦ (
          codecs.decoder gzip r,
          rw gz refl,
          codecs.decoder-encoder gzip r b e (map_err-eq-ok _ (rw gz at h)) y,
        )
        | inr not_gz ↦ elim (Bool-cases (equal enc (codes "deflate"))) [
          | inl de ↦ (
            codecs.decoder zlib r,
            rw (not_gz, de) refl,
            codecs.decoder-encoder zlib r b e (map_err-eq-ok _ (rw (not_gz, de) at h)) y,
          )
          | inr not_de ↦ elim (Bool-cases (equal enc (codes "br"))) [
            | inl br ↦ (
              codecs.decoder brotli r,
              rw (not_gz, not_de, br) refl,
              codecs.decoder-encoder brotli r b e (map_err-eq-ok _ (rw (not_gz, not_de, br) at h))
                  y,
            )
            | inr not_br ↦ elim (Bool-cases (equal enc (codes "zstd"))) [
              | inl zs ↦
                  let (d, started) = starts r in
                  let wrote =
                    zstd_wrote codecs.zstd_encoder_new (codecs.zstd_encoder b)
                      (rw (not_gz, not_de, not_br, zs) at h) in
                  (
                    d,
                    rw (not_gz, not_de, not_br, zs, started) refl,
                    codecs.zstd_decoder-encoder r d b e wrote y started,
                  )
              | inr not_zs ↦ absurd (cc (rw (not_gz, not_de, not_br, not_zs) at h))
            ]
          ]
        ]
      ]

  decode_last :
      (starts : ZstdStarts) (enc : Str) (r : codecs.Reader) (b e : Bytes)
      → encode_bytes codecs http enc b ≡ ok e
      → Yields r e
      → (d : codecs.Reader) × (stack_decoders codecs (enc ∷ []) r ≡ ok d) × Yields d b
  unfolding stack_decoders
  decode_last starts enc r b e h y = elim (Bool-cases (equal enc (codes "identity"))) [
    | inl same ↦ absurd (encode_identity b (rw ((equal_iff enc (codes "identity")).0 same) at h))
    | inr differ ↦
        let (d, picked, yields) = decode_one starts enc r b e h y in
        (d, rw (differ, picked) refl, yields)
  ]

  encode_body-eq-ok :
      (enc : Str) (b : Bytes) {out : Body http}
      → encode_body codecs http (full b) enc none ≡ ok out
      → (m : Bytes) × (encode_bytes codecs http enc b ≡ ok m) × (out ≡ full m)
  unfolding encode_body
  encode_body-eq-ok enc b h =
      let (m, wrote, e) = >>=-eq-ok (encode_bytes codecs http enc b) _ h in (m, wrote, cc e)

  decode_all :
      (starts : ZstdStarts) (encs : List Str) (r : codecs.Reader) (b e : Bytes)
      → encode_all encs (full b) ≡ ok (full e)
      → Yields r e
      → (d : codecs.Reader) × (stack_decoders codecs (reverse encs) r ≡ ok d) × Yields d b
  decode_all starts [] r b e h y =
      let same : b ≡ e = cc h in (r, unfold stack_decoders in refl, rw same y)
  decode_all starts (enc ∷ encs) r b e h y =
      let (body, first, rest) = >>=-eq-ok (encode_body codecs http (full b) enc none) _ h in
      let (m, wrote, is_full) = encode_body-eq-ok enc b first in
      let (d, stacked, yields) = decode_all starts encs r m e (rw is_full at rest) y in
      let (d', last, yields') = decode_last starts enc d b m wrote yields in
      (
        d',
        rw (reverse-cons enc encs, stack_decoders-append (reverse encs) (enc ∷ []) r, stacked) last,
        yields',
      )

  -- Whatever row of codings a full body is given with `encode_body`, `decode_body` with the same
  -- codings in reverse gives the body back, if every zstd decoder can be set up.
  pub decode_body-encode_all :
      (starts : ZstdStarts) (encs : List Str) (b e : Bytes)
      → encode_all encs (full b) ≡ ok (full e)
      → decode_body codecs http (reverse encs) (full e) ≡ ok (full b)
  unfolding decode_body into_bytes decode_task
  decode_body-encode_all starts encs b e h =
      let (d, stacked, yields) =
        decode_all starts encs (codecs.reader e) b e h (codecs.read_to_end-reader e) in
      let task : decode_task codecs (reverse encs) e ≡ ok b =
        rw (stacked, decode_task) (rw yields) in
      rw (task, decode_body)
