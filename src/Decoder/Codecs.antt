-- ===== src/Decoder/Codecs.antt =====
-- The crates `flate2`, `brotli` and `zstd`, and `tokio::task::spawn_blocking`, as src/decoder.rs uses
-- them.
use hexbuffer_proxy.Prelude.{◌≡◌, Outcome, ok}
use hexbuffer_proxy.Text.{Bytes, Str}

-- The three codecs whose decoders start without an error.
pub data Codec : Type 0 where
  gzip zlib brotli : Codec

pub record Codecs : Type 1 where
  -- `Box<dyn Read>`: a reader of bytes, one that decodes what another reads, and `read_to_end`.
  pub Reader : Type 0
  pub reader : Bytes → Reader
  pub read_to_end : Reader → Outcome Str Bytes
  pub decoder : Codec → Reader → Reader
  pub zstd_decoder : Reader → Outcome Str Reader
  -- The writers, from the first write to the last.
  pub encoder : Codec → Bytes → Outcome Str Bytes
  pub zstd_encoder_new : Outcome Str (Unit {0})
  pub zstd_encoder : Bytes → Outcome Str Bytes
  -- What the `JoinError` of a task that panicked says.
  pub join_error : Str
  -- A decoder gives back what the encoder was given.
  pub read_to_end-reader : (b : Bytes) → read_to_end (reader b) ≡ ok b
  pub decoder-encoder :
      (c : Codec) (r : Reader) (b e : Bytes)
      → encoder c b ≡ ok e
      → read_to_end r ≡ ok e
      → read_to_end (decoder c r) ≡ ok b
  pub zstd_decoder-encoder :
      (r d : Reader) (b e : Bytes)
      → zstd_encoder b ≡ ok e
      → read_to_end r ≡ ok e
      → zstd_decoder r ≡ ok d
      → read_to_end d ≡ ok b
