-- ===== src/Reader/Chunked.antt =====
-- `read_chunked_body` meets the description of Reader/Dechunk.antt.
use hexbuffer_proxy.Prelude.{
  ℕ, zero, suc, ◌+◌, ◌-◌, ◌≤◌, ◌<◌, ◌≡◌, refl, sym, ap, subst, ◌⊎◌, Option, subst₂, ◌∙◌, inl, inr,
  [], ◌∷◌, ◌++◌, some, none, arith, append-nil, append_assoc, Bool-cases, ltb, ltb→lt, Outcome, ok,
  err, panic, out_of_fuel, ◌>>=◌, length, length-append, take, drop, take-append_le, drop-append_le,
  length-drop,
}
use hexbuffer_proxy.Text.{Bytes, Str, before, usize_limit}
use hexbuffer_proxy.Text.Search.{split_cases, contains_char-before}
use hexbuffer_proxy.Error.{Failure}
use hexbuffer_proxy.Reader.Stream.{Stream, Ending, closed, broken, finish, value_of}
use hexbuffer_proxy.Reader.Loops.{
  Io, parsed_size, chunk_size, needed_for, chunked_data, chunked_round, chunked_loop,
  read_chunked_body,
}
use hexbuffer_proxy.Reader.Dechunk.{
  Dechunks, no_line, bad_size, last_chunk, short, overflow, chunk, prepend, Line,
}
use hexbuffer_proxy.Reader.Fill.{got, ran_out, fill_line-Fills, fill_to-Fills}

parsed_size_cases :
    (hex : Str) (o : Option ℕ)
    → ((n : ℕ) × (parsed_size hex o ≡ ok n)) ⊎ ((f : Failure) × (parsed_size hex o ≡ err f))
parsed_size_cases hex none = inr (_, refl)
parsed_size_cases hex (some n) = inl (n, refl)

module _ (size : ℕ) (pos : 0 < size) where
  -- The outcome `r` is the one described for the bytes `t`, with `body` in front.
  abbrev Decodes : Ending → Bytes → Bytes → Io Bytes → Type 0
  Decodes e t body r = (q : Outcome Failure Bytes) × Dechunks e t q × (value_of r ≡ prepend body q)

  prepend-nil : (q : Outcome Failure Bytes) → prepend [] q ≡ q
  prepend-nil (ok c) = refl
  prepend-nil (err e) = refl
  prepend-nil panic = refl
  prepend-nil out_of_fuel = refl

  chunk_size_cases :
      (line : Bytes)
      → ((n : ℕ) × (chunk_size line ≡ ok n)) ⊎ ((f : Failure) × (chunk_size line ≡ err f))
  unfolding chunk_size
  chunk_size_cases line = parsed_size_cases _ _

  prepend-prepend :
      (a b : Bytes) (q : Outcome Failure Bytes) → prepend (a ++ b) q ≡ prepend a (prepend b q)
  prepend-prepend a b (ok c) = ap ok (append_assoc a b c)
  prepend-prepend a b (err e) = refl
  prepend-prepend a b panic = refl
  prepend-prepend a b out_of_fuel = refl

  finish-prepend :
      (e : Ending) (body : Bytes) (s : Stream)
      → value_of (finish e (body, s)) ≡ prepend body (finish e [])
  finish-prepend closed body s = ap ok (sym (append-nil body))
  finish-prepend (broken m) body s = refl

  Line-length :
      {t : Bytes} (line rest : Bytes) → Line t line rest → length t ≡ length line + length rest + 1
  Line-length line rest l = rw (l.0, length-append line) (omega arith)

  module _ (fuel : ℕ) (again : Bytes → Bytes → Stream → Io Bytes)
      (ih : (body buf : Bytes) (s : Stream)
        → length (buf ++ s.incoming) < fuel
        → length (buf ++ s.incoming) + 2 < usize_limit
        → Decodes s.ending (buf ++ s.incoming) body (again body buf s)) where
    chunked_data-Decodes :
        (body t line buf : Bytes) (s : Stream) (n : ℕ)
        → Line t line (buf ++ s.incoming)
        → chunk_size line ≡ ok n
        → length t < suc fuel
        → length t + 2 < usize_limit
        → Decodes s.ending t body (chunked_data again size body buf s n)
    unfolding chunked_data
    chunked_data-Decodes body t line buf s zero l c short_t small =
        (ok [], last_chunk line (buf ++ s.incoming) l c refl, ap ok (sym (append-nil body)))
    chunked_data-Decodes body t line buf s (suc m) l c short_t small =
        elim (fill_to-Fills size pos (needed_for (suc m)) (suc (length s.incoming)) buf s
          (omega arith)) [
            | ran_out s' p less ↦ (
              finish s.ending [],
              short line (buf ++ s.incoming) m l c less refl,
              ground (arith, append-nil body),
            )
            | got buf' s' p enough i k ↦
                let whole = Line-length line (buf ++ s.incoming) l in
                let same : length (buf ++ s.incoming) ≡ length buf' + length s'.incoming =
                  sym (ap length i) ∙ length-append buf' s'.incoming in
                let kept : length (drop (needed_for (suc m)) buf')
                    ≡ length buf' - needed_for (suc m) =
                  length-drop (needed_for (suc m)) buf' in
                let left : length (drop (needed_for (suc m)) buf' ++ s'.incoming)
                    ≡ length (drop (needed_for (suc m)) buf') + length s'.incoming =
                  length-append (drop (needed_for (suc m)) buf') s'.incoming in
                elim (Bool-cases (ltb (length buf') (suc m))) [
                  | inl over ↦
                      let less : length buf' < suc m = ltb→lt _ _ over in
                      (
                        panic,
                        overflow line (buf ++ s.incoming) m l c (omega arith) (omega arith) refl,
                        ground arith,
                      )
                  | inr fits ↦
                      let (q, d, v) =
                        ih (body ++ take (suc m) buf') (drop (needed_for (suc m)) buf') s'
                          (omega arith) (omega arith) in
                      let room : suc m ≤ length buf' = ground arith in
                      (
                        prepend (take (suc m) buf') q,
                        chunk line (buf ++ s.incoming) m l c (omega arith) (omega arith)
                            (subst₂ (λ e x. Dechunks e x q) k
                              (sym (drop-append_le (needed_for (suc m)) buf' s'.incoming enough)
                                ∙ ap (drop (needed_for (suc m))) i)
                              d)
                            (ap (λ x. prepend x q)
                              (sym (take-append_le (suc m) buf' s'.incoming room)
                                ∙ ap (take (suc m)) i)),
                        ground (arith, v, prepend-prepend body (take (suc m) buf') q),
                      )
                ]
          ]

    chunked_sized-Decodes :
        (body t buf rest : Bytes) (s : Stream)
        → Line t (before b'\n' buf) (rest ++ s.incoming)
        → length t < suc fuel
        → length t + 2 < usize_limit
        → Decodes s.ending t body
            (chunk_size (before b'\n' buf) >>= chunked_data again size body rest s)
    chunked_sized-Decodes body t buf rest s l short_t small =
        elim (chunk_size_cases (before b'\n' buf)) [
          | inl (n, c) ↦ rw c (chunked_data-Decodes body t _ rest s n l c short_t small)
          | inr (f, c) ↦ rw c (err f, bad_size _ (rest ++ s.incoming) f l c refl, refl)
        ]

    chunked_round-Decodes :
        (body buf : Bytes) (s : Stream)
        → length (buf ++ s.incoming) < suc fuel
        → length (buf ++ s.incoming) + 2 < usize_limit
        → Decodes s.ending (buf ++ s.incoming) body (chunked_round again size body buf s)
    unfolding chunked_round
    chunked_round-Decodes body buf s short_t small =
        elim (fill_line-Fills size pos (suc (length s.incoming)) buf s (omega arith)) [
          | ran_out s' p none_there ↦
              (finish s.ending [], no_line none_there refl, ground (arith, append-nil body))
          | got buf' s' p found i k ↦ elim (split_cases b'\n' buf') [
            | inl (missing, _, _) ↦ cc
            | inr (rest, _, a, e) ↦
                let l : Line (buf ++ s.incoming) (before b'\n' buf') (rest ++ s'.incoming) = (
                  sym i
                      ∙ ap (λ x. x ++ s'.incoming) e
                      ∙ append_assoc (before b'\n' buf') (b'\n' ∷ rest) s'.incoming,
                  contains_char-before b'\n' buf',
                ) in
                let (q, d, v) =
                  chunked_sized-Decodes body (buf ++ s.incoming) buf' rest s' l short_t small in
                (q, subst (λ x. Dechunks x (buf ++ s.incoming) q) k d, ground (arith, v))
          ]
        ]

  chunked_loop-Decodes :
      (fuel : ℕ) (body buf : Bytes) (s : Stream)
      → length (buf ++ s.incoming) < fuel
      → length (buf ++ s.incoming) + 2 < usize_limit
      → Decodes s.ending (buf ++ s.incoming) body (chunked_loop fuel size body buf s)
  unfolding chunked_loop
  chunked_loop-Decodes zero body buf s h small = absurd (omega arith)
  chunked_loop-Decodes (suc fuel) body buf s h small =
      chunked_round-Decodes fuel (chunked_loop fuel size) (chunked_loop-Decodes fuel) body buf s h
        small

  -- `read_chunked_body` returns what the chunked coding of the bytes read before and still to come
  -- means, however they are cut up, on success and on every error; the buffer
  -- has room and the bytes are fewer than 2^64 - 2.
  pub read_chunked_body-Dechunks :
      (s : Stream) (initial : Bytes)
      → length (initial ++ s.incoming) + 2 < usize_limit
      → Dechunks s.ending (initial ++ s.incoming) (value_of (read_chunked_body s initial size))
  unfolding read_chunked_body
  read_chunked_body-Dechunks s initial small =
      let (q, d, v) =
        chunked_loop-Decodes (suc (length (initial ++ s.incoming))) [] initial s (omega arith)
          small in
      subst (Dechunks s.ending (initial ++ s.incoming)) (sym (v ∙ prepend-nil q)) d
