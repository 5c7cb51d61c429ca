-- ===== src/Reader/Heads.antt =====
-- What `read_full_response` returns.
use hexbuffer_proxy.Prelude.{
  ℕ, zero, suc, ◌+◌, ◌≤◌, ◌<◌, ◌≡◌, refl, sym, ap, ◌∙◌, subst, subst₂, [], ◌∷◌, ◌++◌, Option, false,
  some, none, inl, inr, arith, append-nil, append_assoc, Option-cases, Outcome, ok, err, ◌>>=◌,
  length, length-append, take, drop, length-drop, panic, out_of_fuel, take_all, drop_all,
  take-append_le, drop-append_le, Bool-cases, leb,
}
use hexbuffer_proxy.Text.{Bytes, Str, from_utf8_lossy, position, usize_limit}
use hexbuffer_proxy.Text.Search.{position_bound, position-append, position-append_front}
use hexbuffer_proxy.Error.{Failure, from_external}
use hexbuffer_proxy.Reader.Stream.{
  Stream, Ending, closed, broken, finish, read-Reads, read_bound, Ending-cases, at_end, some_bytes,
  value_of,
}
use hexbuffer_proxy.Reader.Loops.{Io}
use hexbuffer_proxy.Reader.Response.{
  blank_line, read_head_loop, read_full_response, read_http_body, response_behind, header_end_in,
}
use hexbuffer_proxy.Reader.Dechunk.{prepend}
use hexbuffer_proxy.Reader.Bodies.{
  BodyBehind, BodyOf-BodyBehind, bodyless_request, read_http_body-BodyOf,
}

-- How the first loop ends, when the bytes in all are `t`: the head is in the buffer, with fewer bytes behind it than a
-- read gets, or all is.
pub data HeadRead (size : ℕ) (e : Ending) (t : Bytes) (r : Io Bytes) : Type 0 where
  found :
      (full : Bytes) (s : Stream) (i : ℕ)
      → r ≡ ok (full, s)
      → position blank_line full ≡ some i
      → full ++ s.incoming ≡ t
      → s.ending ≡ e
      → length full < i + 4 + size
      → HeadRead size e t r
  missing :
      (s : Stream)
      → r ≡ finish e (t, s)
      → position blank_line t ≡ none
      → s.incoming ≡ []
      → s.ending ≡ e
      → HeadRead size e t r

-- A head that ends only with the last read ends in it.
head_late :
    (size : ℕ) (full got : Bytes) (i : ℕ)
    → position blank_line full ≡ none
    → position blank_line (full ++ got) ≡ some i
    → length got ≤ size
    → length (full ++ got) < i + 4 + size
head_late size full got i before at few = elim (Bool-cases (leb (i + 4) (length full))) [
  | inl early ↦
      let there = position-append_front blank_line full got i at (ground arith) (omega arith) in
      cc (before, there)
  | inr late ↦ ground (arith, length-append full got)
]

module _ (size : ℕ) (pos : 0 < size) where
  pub read_head_loop-HeadRead :
      (fuel : ℕ) (full : Bytes) (s : Stream)
      → length s.incoming < fuel
      → position blank_line full ≡ none
      → HeadRead size s.ending (full ++ s.incoming) (read_head_loop fuel size full s)
  unfolding read_head_loop
  read_head_loop-HeadRead zero full s h n = absurd (omega arith)
  read_head_loop-HeadRead (suc fuel) full s h n = elim (read-Reads size s pos) [
    | at_end e p ↦ missing s (ground (arith, append-nil full)) (rw (e, append-nil full) n) e refl
    | some_bytes b bs s' p q e ↦
        let all : (full ++ b ∷ bs) ++ s'.incoming ≡ full ++ s.incoming =
          append_assoc full (b ∷ bs) s'.incoming ∙ ap (◌++◌ full) (sym q) in
        elim (Option-cases (position blank_line (full ++ b ∷ bs))) [
          | inr (i, at) ↦
              found (full ++ b ∷ bs) s' i (ground arith) at all e
                (head_late size full (b ∷ bs) i n at (read_bound size s p))
          | inl not_yet ↦
              let again =
                read_head_loop-HeadRead fuel (full ++ b ∷ bs) s'
                  (ground (arith, length-append (b ∷ bs) s'.incoming)) not_yet in
              let same : read_head_loop fuel size (full ++ b ∷ bs) s'
                  ≡ read_head_loop (suc fuel) size full s =
                ground arith in
              subst (HeadRead size s.ending (full ++ s.incoming)) same (
                subst₂ (λ x t. HeadRead size x t (read_head_loop fuel size (full ++ b ∷ bs) s')) e
                  all again)
        ]
  ]

-- The bytes up to the first blank line, or all.
abbrev pub head_of : Bytes → Bytes
head_of t = elim (position blank_line t) [ none ↦ t | some i ↦ take (i + 4) t ]

-- `r` is the message that a stream with the bytes `t` and the end `e` holds.
pub data Message (e : Ending) (t : Bytes) (r : Outcome Failure Bytes) : Type 0 where
  headed :
      (i : ℕ) (body : Outcome Failure Bytes)
      → position blank_line t ≡ some i
      → BodyBehind e (from_utf8_lossy (take (i + 4) t)) (drop (i + 4) t) body
      → r ≡ prepend (take (i + 4) t) body
      → Message e t r
  headless :
      (body : Outcome Failure Bytes)
      → position blank_line t ≡ none
      → e ≡ closed
      → BodyBehind closed (from_utf8_lossy t) [] body
      → r ≡ prepend t body
      → Message e t r
  broken_off :
      (m : Str)
      → position blank_line t ≡ none
      → e ≡ broken m
      → r ≡ err (from_external m)
      → Message e t r

value_of-response_behind :
    (size : ℕ) (full : Bytes) (s : Stream) (at : Option ℕ)
    → value_of (response_behind size full s at)
      ≡ prepend (take (header_end_in full at) full) (
          value_of (
            read_http_body s
              (from_utf8_lossy (take (header_end_in full at) full))
              (drop (header_end_in full at) full)
              size))
unfolding response_behind
value_of-response_behind size full s at =
    value_of_bind (take (header_end_in full at) full) (read_http_body s _ _ size)
  where
    value_of_bind :
        (head : Bytes) (r : Io Bytes)
        → value_of (r >>= λ p. ok (head ++ p.0, p.1)) ≡ prepend head (value_of r)
    value_of_bind head (ok (b, s)) = refl
    value_of_bind head (err e) = refl
    value_of_bind head panic = refl
    value_of_bind head out_of_fuel = refl

module _ (size : ℕ) (pos : 0 < size) (s : Stream) (small : length s.incoming + 2 < usize_limit)
    (announced : bodyless_request (from_utf8_lossy (head_of s.incoming)) ≡ false) where
  Message-found :
      (full : Bytes) (s' : Stream) (i : ℕ)
      → position blank_line full ≡ some i
      → full ++ s'.incoming ≡ s.incoming
      → s'.ending ≡ s.ending
      → Message s.ending s.incoming (value_of (response_behind size full s' (some i)))
  Message-found full s' i at all e =
      let inside : i + 4 ≤ length full = position_bound blank_line full i at in
      let front : take (i + 4) full ≡ take (i + 4) s.incoming =
        sym (take-append_le (i + 4) full s'.incoming inside) ∙ ap (take (i + 4)) all in
      let back : drop (i + 4) full ++ s'.incoming ≡ drop (i + 4) s.incoming =
        sym (drop-append_le (i + 4) full s'.incoming inside) ∙ ap (drop (i + 4)) all in
      let r =
        value_of
          (read_http_body s' (from_utf8_lossy (take (i + 4) full)) (drop (i + 4) full) size) in
      let fits : length (drop (i + 4) full ++ s'.incoming) + 2 < usize_limit =
        rw back (omega (arith, length-drop (i + 4) s.incoming)) in
      let b =
        read_http_body-BodyOf size s' (from_utf8_lossy (take (i + 4) full)) (drop (i + 4) full) pos
          fits in
      let whole_at : position blank_line s.incoming ≡ some i =
        ap (position blank_line) (sym all) ∙ position-append blank_line full s'.incoming i at in
      let no_request : bodyless_request (from_utf8_lossy (take (i + 4) full)) ≡ false =
        ap (λ h. bodyless_request (from_utf8_lossy h)) (front ∙ sym (rw (head_of, whole_at) refl))
        ∙ announced in
      headed i r whole_at (rw (← front, ← back, ← e) (BodyOf-BodyBehind _ _ _ _ _ no_request b))
        (value_of-response_behind size full s' (some i) ∙ ap (λ h. prepend h r) front)

  Message-missing :
      (s' : Stream)
      → position blank_line s.incoming ≡ none
      → s'.incoming ≡ []
      → s'.ending ≡ s.ending
      → s.ending ≡ closed
      → Message s.ending s.incoming (value_of (response_behind size s.incoming s' none))
  Message-missing s' none_there q e c =
      let all : take (length s.incoming) s.incoming ≡ s.incoming =
        take_all _ s.incoming (omega arith) in
      let left : drop (length s.incoming) s.incoming ≡ [] = drop_all _ s.incoming (omega arith) in
      let r = value_of (read_http_body s' (from_utf8_lossy s.incoming) [] size) in
      let b =
        read_http_body-BodyOf size s' (from_utf8_lossy s.incoming) [] pos (rw q (omega arith)) in
      let no_request : bodyless_request (from_utf8_lossy s.incoming) ≡ false =
        ap (λ h. bodyless_request (from_utf8_lossy h)) (sym (rw (head_of, none_there) refl))
        ∙ announced in
      headless r none_there c
        (subst₂ (λ x u. BodyBehind x (from_utf8_lossy s.incoming) u r) (e ∙ c) q
          (BodyOf-BodyBehind _ _ _ _ _ no_request b))
        (value_of-response_behind size s.incoming s' none ∙ rw (all, left) refl)

  -- `read_full_response` returns the head up to the first blank line and the body that it announces,
  -- however the bytes are cut up. If the stream is closed before a blank line, all its bytes are the
  -- head; if it breaks there, the call fails. The head is a response's, or says how long its body is; the buffer
  -- has room and the bytes are fewer than 2^64 - 2.
  pub read_full_response-Message :
      Message s.ending s.incoming (value_of (read_full_response s size))
  unfolding read_full_response position
  read_full_response-Message =
      elim (read_head_loop-HeadRead size pos (suc (length s.incoming)) [] s (omega arith) refl) [
        | found full s' i p at all e few ↦
            let same : response_behind size full s' (some i) ≡ read_full_response s size =
              rw (p, read_full_response) (rw at) in
            subst (λ r. Message s.ending s.incoming (value_of r)) same
              (Message-found full s' i at all e)
        | missing s' p none_there q e ↦ elim (Ending-cases s.ending) [
          | inl c ↦
              let same : response_behind size s.incoming s' none ≡ read_full_response s size =
                ground arith in
              subst (λ r. Message s.ending s.incoming (value_of r)) same
                (Message-missing s' none_there q e c)
          | inr (m, c) ↦ broken_off m none_there c (ground arith)
        ]
      ]
