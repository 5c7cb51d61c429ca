-- ===== src/Reader/Dechunk.antt =====
-- The chunked transfer coding as `read_chunked_body` reads it, described on the whole byte string:
-- no buffer, no reads, no loop.
use hexbuffer_proxy.Prelude.{
  ℕ, suc, ◌≤◌, ◌<◌, ◌≡◌, false, [], ◌∷◌, ◌++◌, Outcome, ok, err, panic, out_of_fuel, length, take,
  drop,
}
use hexbuffer_proxy.Text.{Bytes, contains_char}
use hexbuffer_proxy.Error.{Failure}
use hexbuffer_proxy.Reader.Stream.{Ending, finish}
use hexbuffer_proxy.Reader.Loops.{chunk_size, needed_for}

abbrev pub prepend : Bytes → Outcome Failure Bytes → Outcome Failure Bytes
prepend body (ok b) = ok (body ++ b)
prepend body (err e) = err e
prepend body panic = panic
prepend body out_of_fuel = out_of_fuel

-- `t` is a size line without its newline, the newline and `rest`.
abbrev pub Line : Bytes → Bytes → Bytes → Type 0
Line t line rest = (t ≡ line ++ b'\n' ∷ rest) × (contains_char b'\n' line ≡ false)

-- A stream whose bytes are `t` and that ends with `e` gives the outcome `r`.
pub data Dechunks (e : Ending) : Bytes → Outcome Failure Bytes → Type 0 where
  no_line :
      {t : Bytes} {r : Outcome Failure Bytes}
      → contains_char b'\n' t ≡ false
      → r ≡ finish e []
      → Dechunks e t r
  bad_size :
      {t : Bytes} {r : Outcome Failure Bytes} (line rest : Bytes) (f : Failure)
      → Line t line rest
      → chunk_size line ≡ err f
      → r ≡ err f
      → Dechunks e t r
  last_chunk :
      {t : Bytes} {r : Outcome Failure Bytes} (line rest : Bytes)
      → Line t line rest
      → chunk_size line ≡ ok 0
      → r ≡ ok []
      → Dechunks e t r
  short :
      {t : Bytes} {r : Outcome Failure Bytes} (line rest : Bytes) (n : ℕ)
      → Line t line rest
      → chunk_size line ≡ ok (suc n)
      → length rest < needed_for (suc n)
      → r ≡ finish e []
      → Dechunks e t r
  overflow :
      {t : Bytes} {r : Outcome Failure Bytes} (line rest : Bytes) (n : ℕ)
      → Line t line rest
      → chunk_size line ≡ ok (suc n)
      → needed_for (suc n) ≤ length rest
      → length rest < suc n
      → r ≡ panic
      → Dechunks e t r
  chunk :
      {t : Bytes} {r q : Outcome Failure Bytes} (line rest : Bytes) (n : ℕ)
      → Line t line rest
      → chunk_size line ≡ ok (suc n)
      → needed_for (suc n) ≤ length rest
      → suc n ≤ length rest
      → Dechunks e (drop (needed_for (suc n)) rest) q
      → r ≡ prepend (take (suc n) rest) q
      → Dechunks e t r
