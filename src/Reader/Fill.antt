-- ===== src/Reader/Fill.antt =====
-- The two loops of `read_chunked_body` that fill the buffer.
use hexbuffer_proxy.Prelude.{
  ℕ, zero, suc, ◌≤◌, ◌<◌, ◌≡◌, refl, ◌∙◌, false, true, inl, inr, ◌∷◌, ◌++◌, arith, append-nil,
  append_assoc, Bool-cases, ltb, Outcome, ok, length, length-append,
}
use hexbuffer_proxy.Text.{Bytes, contains_char}
use hexbuffer_proxy.Error.{Failure}
use hexbuffer_proxy.Reader.Stream.{Stream, finish, read-Reads, at_end, some_bytes}
use hexbuffer_proxy.Reader.Loops.{Fill, filled, ended, fill_line, fill_to}

-- How a filling loop ends: with a buffer that satisfies `P`, or with all the bytes in `N`.
pub data Fills (P N : Bytes → Type 0) (buf : Bytes) (s : Stream) (r : Outcome Failure Fill)
    : Type 0 where
  got :
      (buf' : Bytes) (s' : Stream)
      → r ≡ ok (filled buf' s')
      → P buf'
      → buf' ++ s'.incoming ≡ buf ++ s.incoming
      → s'.ending ≡ s.ending
      → Fills P N buf s r
  ran_out :
      (s' : Stream) → r ≡ finish s.ending (ended s') → N (buf ++ s.incoming) → Fills P N buf s r

abbrev pub HasLine : Bytes → Type 0
HasLine t = contains_char b'\n' t ≡ true

abbrev pub NoLine : Bytes → Type 0
NoLine t = contains_char b'\n' t ≡ false

abbrev pub AtLeast : ℕ → Bytes → Type 0
AtLeast n t = n ≤ length t

abbrev pub Below : ℕ → Bytes → Type 0
Below n t = length t < n

-- The loop after one more read.
Fills-read :
    {P N : Bytes → Type 0} {buf : Bytes} (bs : Bytes) {s s' : Stream} {r q : Outcome Failure Fill}
    → s.incoming ≡ bs ++ s'.incoming
    → s'.ending ≡ s.ending
    → r ≡ q
    → Fills P N (buf ++ bs) s' q
    → Fills P N buf s r
Fills-read {N = N} {buf} bs {s} {s'} i e p (got b t g h a k) =
    got b t (p ∙ g) h (ground (arith, append_assoc buf bs s'.incoming)) (k ∙ e)
Fills-read {N = N} {buf} bs {s} {s'} i e p (ran_out t g h) =
    ran_out t (ground arith) (rw (i, ← append_assoc buf bs s'.incoming) h)

module _ (size : ℕ) (pos : 0 < size) where
  pub fill_line-Fills :
      (fuel : ℕ) (buf : Bytes) (s : Stream)
      → length s.incoming < fuel
      → Fills HasLine NoLine buf s (fill_line fuel size buf s)
  unfolding fill_line
  fill_line-Fills zero buf s h = absurd (omega arith)
  fill_line-Fills (suc fuel) buf s h = elim (Bool-cases (contains_char b'\n' buf)) [
    | inl found ↦ got buf s (ground arith) found refl refl
    | inr missing ↦ elim (read-Reads size s pos) [
      | at_end e p ↦ ran_out s (ground arith) (rw (e, append-nil buf) missing)
      | some_bytes b bs s' p q e ↦ Fills-read (b ∷ bs) {s' = s'} q e (ground arith) (
          fill_line-Fills fuel (buf ++ b ∷ bs) s'
            (ground (arith, length-append (b ∷ bs) s'.incoming)))
    ]
  ]

  pub fill_to-Fills :
      (needed fuel : ℕ) (buf : Bytes) (s : Stream)
      → length s.incoming < fuel
      → Fills (AtLeast needed) (Below needed) buf s (fill_to fuel size needed buf s)
  unfolding fill_to
  fill_to-Fills needed zero buf s h = absurd (omega arith)
  fill_to-Fills needed (suc fuel) buf s h = elim (Bool-cases (ltb (length buf) needed)) [
    | inr enough ↦ got buf s (ground arith) (ground arith) refl refl
    | inl missing ↦ elim (read-Reads size s pos) [
      | at_end e p ↦ ran_out s (ground arith) (rw (e, append-nil buf) (ground arith))
      | some_bytes b bs s' p q e ↦ Fills-read (b ∷ bs) {s' = s'} q e (ground arith) (
          fill_to-Fills needed fuel (buf ++ b ∷ bs) s'
            (ground (arith, length-append (b ∷ bs) s'.incoming)))
    ]
  ]
