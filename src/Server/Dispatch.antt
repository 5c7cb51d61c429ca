-- ===== src/Server/Dispatch.antt =====
-- src/proxy.rs: `handle_client`, up to the call of one of its two handlers.
use hexbuffer_proxy.Prelude.{◌++◌, none, some, if◌then◌else◌, Outcome, ok, err, ◌>>=◌}
use hexbuffer_proxy.Text.{Bytes, Str, codes, from_utf8_lossy, starts_with, contains_char}
use hexbuffer_proxy.Error.{Failure, message}
use hexbuffer_proxy.Reader.Stream.{Stream, read}
use hexbuffer_proxy.Server.Host.{target_word}

-- Which of the two is called, and with what.
pub data Route : Type 0 where
  https : (target : Str) → Route
  http : (request_bytes : Bytes) → Route

abbrev pub with_port : Str → Str
with_port target = if contains_char b':' target then target else target ++ codes ":443"

unfoldable pub route : Bytes → Outcome Failure Route
unfolding starts_with
route buffer =
    if starts_with (codes "CONNECT") buffer
    then elim (target_word (from_utf8_lossy buffer)) [
      | some target ↦ ok (https (with_port target))
      | none ↦ err (message (codes "malformed CONNECT request: missing target host"))
    ]
    else ok (http buffer)

-- One read of at most 4096 bytes.
unfoldable pub handle_client : Stream → Outcome Failure (Route × Stream)
unfolding route
handle_client client_stream = do (buffer, s) ← read 4096 client_stream; r ← route buffer; ok (r, s)
