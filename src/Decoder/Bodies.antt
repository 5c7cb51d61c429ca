-- ===== src/Decoder/Bodies.antt =====
-- src/decoder.rs: `decode_body` and `encode_body`.
use hexbuffer_proxy.Prelude.{
  List, [], ◌∷◌, ◌++◌, ◌||◌, Option, if◌then◌else◌, Outcome, ok, err, panic, out_of_fuel, ◌>>=◌,
  map_err,
}
use hexbuffer_proxy.Text.{Bytes, Str, codes, equal, from_utf8_lossy}
use hexbuffer_proxy.Error.{ProxyError, io, protocol}
use hexbuffer_proxy.Http.{HttpCrate}
use hexbuffer_proxy.Handler.Types.{Body, streaming, full, into_bytes}
use hexbuffer_proxy.Decoder.Codecs.{gzip, zlib, brotli, Codecs}

module _ (codecs : Codecs) where
  unfoldable pub pick_decoder : Bytes → codecs.Reader → Outcome ProxyError codecs.Reader
  unfolding equal from_utf8_lossy
  pick_decoder encoding reader =
      if equal encoding (codes "gzip") || equal encoding (codes "x-gzip")
      then ok (codecs.decoder gzip reader)
      else if equal encoding (codes "deflate")
      then ok (codecs.decoder zlib reader)
      else if equal encoding (codes "br")
      then ok (codecs.decoder brotli reader)
      else if equal encoding (codes "zstd")
      then map_err (λ e. protocol (codes "zstd decoder init failed: " ++ e))
          (codecs.zstd_decoder reader)
      else err (protocol (codes "unsupported content-encoding: " ++ from_utf8_lossy encoding))

  -- The `for` loop over the codings.
  unfoldable pub stack_decoders : List Bytes → codecs.Reader → Outcome ProxyError codecs.Reader
  unfolding equal pick_decoder
  stack_decoders [] reader = ok reader
  stack_decoders (encoding ∷ encs) reader =
      if equal encoding (codes "identity")
      then stack_decoders encs reader
      else (pick_decoder encoding reader >>= stack_decoders encs)

  -- The closure that runs on the blocking thread.
  unfoldable pub decode_task : List Bytes → Bytes → Outcome ProxyError Bytes
  unfolding stack_decoders
  decode_task encs bytes = do
    reader ← stack_decoders encs (codecs.reader bytes)
    map_err io (codecs.read_to_end reader)

  -- `spawn_blocking(…).await`: a panic of the task is an error of its awaiter.
  abbrev pub join : Outcome ProxyError Bytes → Outcome ProxyError Bytes
  join panic = err (protocol (codes "decode task panicked: " ++ codecs.join_error))
  join (ok b) = ok b
  join (err e) = err e
  join out_of_fuel = out_of_fuel

  module _ (http : HttpCrate) where
    unfoldable pub decode_body : List Bytes → Body http → Outcome ProxyError (Body http)
    unfolding decode_task into_bytes
    decode_body encs body = do
      bytes ← into_bytes http body
      decoded ← join (decode_task encs bytes)
      ok (full decoded)

    -- The `match encoding` of `encode_body`.
    unfoldable pub encode_bytes : Str → Bytes → Outcome ProxyError Bytes
    unfolding equal
    encode_bytes encoding bytes =
        if equal encoding (codes "gzip") || equal encoding (codes "x-gzip")
        then map_err io (codecs.encoder gzip bytes)
        else if equal encoding (codes "deflate")
        then map_err io (codecs.encoder zlib bytes)
        else if equal encoding (codes "br")
        then map_err io (codecs.encoder brotli bytes)
        else if equal encoding (codes "zstd")
        then (map_err (λ e. protocol (codes "zstd encoder init: " ++ e)) codecs.zstd_encoder_new
            >>= λ _. map_err io (codecs.zstd_encoder bytes))
        else err (protocol (codes "unsupported encoding for re-compression: " ++ encoding))

    unfoldable pub encode_body : Body http → Str → Option Str → Outcome ProxyError (Body http)
    unfolding encode_bytes
    encode_body (streaming boxed) encoding charset =
        err (protocol (codes "encode_body requires a buffered body (Body::Full)"))
    encode_body (full bytes) encoding charset = do out ← encode_bytes encoding bytes; ok (full out)
