-- ===== src/Reader/Loops.antt =====
-- src/proxy.rs: the loops that read a body. Each round of a loop reads at least one byte or ends,
-- so one more round than there are bytes is enough; the children prove that.
use hexbuffer_proxy.Prelude.{
  ℕ, zero, suc, ◌+◌, ◌%◌, true, false, [], ◌∷◌, ◌++◌, Option, none, some, ltb, ◌==◌, if◌then◌else◌,
  Outcome, ok, err, panic, out_of_fuel, ◌>>=◌, length, take, drop,
}
use hexbuffer_proxy.Text.{
  Bytes, Str, codes, from_utf8_lossy, trim, split_first, from_str_radix, usize_limit, contains_char,
  before, after?,
}
use hexbuffer_proxy.Error.{Failure, message}
use hexbuffer_proxy.Reader.Stream.{Stream, read}

-- A call that reads: its value, and the stream behind it.
abbrev pub Io {ℓ} : Type ℓ → Type ℓ
Io A = Outcome Failure (A × Stream)

unfoldable pub read_until_close_loop : ℕ → ℕ → Bytes → Stream → Io Bytes
read_until_close_loop zero size buf s = out_of_fuel
read_until_close_loop (suc fuel) size buf s = do
  (chunk, s') ← read size s
  elim chunk [ [] ↦ ok (buf, s') | c ∷ cs ↦ read_until_close_loop fuel size (buf ++ c ∷ cs) s' ]

unfoldable pub read_until_close : Stream → Bytes → ℕ → Io Bytes
unfolding read_until_close_loop
read_until_close s initial buf_size =
    read_until_close_loop (suc (length s.incoming)) buf_size initial s

-- `while buf.len() < content_length`.
unfoldable pub read_exact_loop : ℕ → ℕ → ℕ → Bytes → Stream → Io Bytes
read_exact_loop zero size len buf s = out_of_fuel
read_exact_loop (suc fuel) size len buf s = elim (ltb (length buf) len) [
  | false ↦ ok (buf, s)
  | true ↦ do
    (chunk, s') ← read size s
    elim chunk [ [] ↦ ok (buf, s') | c ∷ cs ↦ read_exact_loop fuel size len (buf ++ c ∷ cs) s' ]
]

-- Then `truncate`.
unfoldable pub read_exact : Stream → Bytes → ℕ → ℕ → Io Bytes
unfolding read_exact_loop
read_exact s initial content_length buf_size = do
  (buf, s') ← read_exact_loop (suc (length s.incoming)) buf_size content_length initial s
  ok (if ltb content_length (length buf) then take content_length buf else buf, s')

-- A loop that fills the buffer ends with it filled, or at the end of the stream.
pub data Fill : Type 0 where
  filled : Bytes → Stream → Fill
  ended : Stream → Fill

-- `while !buf.contains(&b'\n')`.
unfoldable pub fill_line : ℕ → ℕ → Bytes → Stream → Outcome Failure Fill
fill_line zero size buf s = out_of_fuel
fill_line (suc fuel) size buf s = elim (contains_char b'\n' buf) [
  | true ↦ ok (filled buf s)
  | false ↦ do
    (chunk, s') ← read size s
    elim chunk [ [] ↦ ok (ended s') | c ∷ cs ↦ fill_line fuel size (buf ++ c ∷ cs) s' ]
]

-- `while buf.len() < needed`.
unfoldable pub fill_to : ℕ → ℕ → ℕ → Bytes → Stream → Outcome Failure Fill
fill_to zero size needed buf s = out_of_fuel
fill_to (suc fuel) size needed buf s = elim (ltb (length buf) needed) [
  | false ↦ ok (filled buf s)
  | true ↦ do
    (chunk, s') ← read size s
    elim chunk [ [] ↦ ok (ended s') | c ∷ cs ↦ fill_to fuel size needed (buf ++ c ∷ cs) s' ]
]

abbrev pub parsed_size : Str → Option ℕ → Outcome Failure ℕ
parsed_size hex_str none = err (message (codes "invalid chunk size: " ++ hex_str))
parsed_size hex_str (some n) = ok n

-- The number on a chunk-size line.
unfoldable pub chunk_size : Bytes → Outcome Failure ℕ
unfolding from_utf8_lossy trim before from_str_radix
chunk_size line =
    let hex_str = split_first b';' (trim (from_utf8_lossy line)) in
    parsed_size hex_str (from_str_radix usize_limit 16 hex_str)

-- `chunk_size + 2` on a `usize`, which wraps in a release build.
unfoldable pub needed_for : ℕ → ℕ
needed_for n = (n + 2) % usize_limit

-- The round behind a size line; `again` is the loop. The slice `buf[..chunk_size]` panics if the
-- buffer is too short.
unfoldable pub chunked_data :
    (Bytes → Bytes → Stream → Io Bytes) → ℕ → Bytes → Bytes → Stream → ℕ → Io Bytes
unfolding needed_for fill_to
chunked_data again size body buf s n = elim (n == 0) [
  | true ↦ ok (body, s)
  | false ↦ do
    fill ← fill_to (suc (length s.incoming)) size (needed_for n) buf s
    elim fill [
      | ended s' ↦ ok (body, s')
      | filled buf' s' ↦
          if ltb (length buf') n
          then panic
          else again (body ++ take n buf') (drop (needed_for n) buf') s'
    ]
]

abbrev pub behind_line : Bytes → Bytes
behind_line buf = elim (after? b'\n' buf) [ none ↦ [] | some rest ↦ rest ]

unfoldable pub chunked_round :
    (Bytes → Bytes → Stream → Io Bytes) → ℕ → Bytes → Bytes → Stream → Io Bytes
unfolding fill_line chunk_size chunked_data before after?
chunked_round again size body buf s = do
  fill ← fill_line (suc (length s.incoming)) size buf s
  elim fill [
    | ended s' ↦ ok (body, s')
    | filled buf' s' ↦
        chunk_size (before b'\n' buf') >>= chunked_data again size body (behind_line buf') s'
  ]

unfoldable pub chunked_loop : ℕ → ℕ → Bytes → Bytes → Stream → Io Bytes
unfolding chunked_round
chunked_loop zero size body buf s = out_of_fuel
chunked_loop (suc fuel) size body buf s = chunked_round (chunked_loop fuel size) size body buf s

unfoldable pub read_chunked_body : Stream → Bytes → ℕ → Io Bytes
unfolding chunked_loop
read_chunked_body s initial buf_size =
    chunked_loop (suc (length (initial ++ s.incoming))) buf_size [] initial s
