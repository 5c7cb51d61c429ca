-- ===== src/Reader/Response.antt =====
-- src/proxy.rs: `read_full_response` and `read_http_body`.
use hexbuffer_proxy.Prelude.{
  ℕ, zero, suc, ◌+◌, Bool, true, false, ◌&&◌, not, [], ◌∷◌, ◌++◌, Option, none, some, if◌then◌else◌,
  ok, out_of_fuel, ◌>>=◌, length, take, drop,
}
use hexbuffer_proxy.Text.{Bytes, Str, from_utf8_lossy, position}
use hexbuffer_proxy.Reader.Framing.{is_chunked, get_content_length, is_no_body_status, is_request}
use hexbuffer_proxy.Reader.Stream.{Stream, read}
use hexbuffer_proxy.Reader.Loops.{Io, read_chunked_body, read_exact, read_until_close}

abbrev pub is_none {ℓ} : {A : Type ℓ} → Option A → Bool
is_none none = true
is_none (some a) = false

unfoldable pub read_http_body : Stream → Str → Bytes → ℕ → Io Bytes
unfolding read_chunked_body read_exact read_until_close is_chunked get_content_length
    is_no_body_status is_request
read_http_body s headers initial buf_size =
    if is_no_body_status headers
    then ok ([], s)
    else if is_request headers && not (is_chunked headers) && is_none (get_content_length headers)
    then ok (initial, s)
    else if is_chunked headers
    then read_chunked_body s initial buf_size
    else elim (get_content_length headers) [
      | some len ↦ read_exact s initial len buf_size
      | none ↦ read_until_close s initial buf_size
    ]

-- `b"\r\n\r\n"`.
abbrev pub blank_line : Bytes
blank_line = b'\r' ∷ b'\n' ∷ b'\r' ∷ b'\n' ∷ []

-- The first loop of `read_full_response`: until the head is there, or the stream ends.
unfoldable pub read_head_loop : ℕ → ℕ → Bytes → Stream → Io Bytes
read_head_loop zero size full s = out_of_fuel
read_head_loop (suc fuel) size full s = do
  (chunk, s') ← read size s
  elim chunk [
    | [] ↦ ok (full, s')
    | c ∷ cs ↦ elim (position blank_line (full ++ c ∷ cs)) [
      | some i ↦ ok (full ++ c ∷ cs, s')
      | none ↦ read_head_loop fuel size (full ++ c ∷ cs) s'
    ]
  ]

abbrev pub header_end_in : Bytes → Option ℕ → ℕ
header_end_in full none = length full
header_end_in full (some i) = i + 4

-- `read_full_response` behind its first loop; `at` is where the blank line stands.
unfoldable pub response_behind : ℕ → Bytes → Stream → Option ℕ → Io Bytes
response_behind buf_size full s at = do
  let header_end = header_end_in full at
  let headers = from_utf8_lossy (take header_end full)
  let body_tail = drop header_end full
  (body, s') ← read_http_body s headers body_tail buf_size
  ok (take header_end full ++ body, s')

unfoldable pub read_full_response : Stream → ℕ → Io Bytes
read_full_response s buf_size = do
  (full, s') ← read_head_loop (suc (length s.incoming)) buf_size [] s
  response_behind buf_size full s' (position blank_line full)
