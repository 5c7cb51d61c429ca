-- ===== src/Reader/Drain.antt =====
-- What `read_until_close` and `read_exact` return, whatever pieces the bytes arrive in.
use hexbuffer_proxy.Prelude.{
  ℕ, zero, suc, ◌<◌, ◌≡◌, ◌∷◌, ◌++◌, arith, append-nil, append_assoc, if◌then◌else◌, inl, inr,
  Bool-cases, ltb, leb, Outcome, ok, ◌>>=◌, length, length-append, take, take_all, take-append_le,
}
use hexbuffer_proxy.Text.{Bytes}
use hexbuffer_proxy.Error.{Failure}
use hexbuffer_proxy.Reader.Stream.{Stream, Ending, finish, read-Reads, at_end, some_bytes, value_of}
use hexbuffer_proxy.Reader.Loops.{
  read_until_close_loop, read_until_close, read_exact_loop, read_exact, Io,
}

-- What `read_exact` owes: the first `len` bytes, or all there are at an early end.
abbrev pub exactly : ℕ → Ending → Bytes → Outcome Failure Bytes
exactly len e t = if leb len (length t) then ok (take len t) else finish e t

module _ (size : ℕ) (pos : 0 < size) where
  read_until_close_loop_all :
      (fuel : ℕ) (buf : Bytes) (s : Stream)
      → length s.incoming < fuel
      → value_of (read_until_close_loop fuel size buf s) ≡ finish s.ending (buf ++ s.incoming)
  unfolding read_until_close_loop
  read_until_close_loop_all zero buf s h = absurd (omega arith)
  read_until_close_loop_all (suc fuel) buf s h = elim (read-Reads size s pos) [
    | at_end e p ↦ ground (arith, append-nil buf)
    | some_bytes b bs s' p q e ↦ ground (
      arith,
      length-append (b ∷ bs) s'.incoming,
      append_assoc buf (b ∷ bs) s'.incoming,
      read_until_close_loop_all fuel (buf ++ b ∷ bs) s',
    )
  ]

  -- `read_until_close` returns all that was read before and all that still comes, however the
  -- bytes are cut up, and fails exactly if the connection breaks. The buffer has room.
  pub read_until_close_all :
      (s : Stream) (initial : Bytes)
      → value_of (read_until_close s initial size) ≡ finish s.ending (initial ++ s.incoming)
  unfolding read_until_close
  read_until_close_all s initial =
      read_until_close_loop_all (suc (length s.incoming)) initial s (omega arith)

  truncated : ℕ → Io Bytes → Io Bytes
  truncated len r = do (buf, s') ← r; ok (if ltb len (length buf) then take len buf else buf, s')

  read_exact_loop_take :
      (len fuel : ℕ) (buf : Bytes) (s : Stream)
      → length s.incoming < fuel
      → value_of (truncated len (read_exact_loop fuel size len buf s))
        ≡ exactly len s.ending (buf ++ s.incoming)
  unfolding read_exact_loop truncated
  read_exact_loop_take len zero buf s h = absurd (omega arith)
  read_exact_loop_take len (suc fuel) buf s h = elim (Bool-cases (ltb (length buf) len)) [
    | inr enough ↦
        ground
          (arith, length-append buf s.incoming, take_all len buf, take-append_le len buf s.incoming)
    | inl short ↦ elim (read-Reads size s pos) [
      | at_end e p ↦ ground (arith, append-nil buf)
      | some_bytes b bs s' p q e ↦ ground (
        arith,
        length-append (b ∷ bs) s'.incoming,
        append_assoc buf (b ∷ bs) s'.incoming,
        read_exact_loop_take len fuel (buf ++ b ∷ bs) s',
      )
    ]
  ]

  -- `read_exact` returns the first `content_length` bytes of what was read before and what still
  -- comes, however the bytes are cut up. If there are fewer, it returns them all when the stream
  -- is closed, and fails when it breaks. The buffer has room.
  pub read_exact_take :
      (s : Stream) (initial : Bytes) (content_length : ℕ)
      → value_of (read_exact s initial content_length size)
        ≡ exactly content_length s.ending (initial ++ s.incoming)
  unfolding read_exact truncated
  read_exact_take s initial content_length =
      read_exact_loop_take content_length (suc (length s.incoming)) initial s (omega arith)
