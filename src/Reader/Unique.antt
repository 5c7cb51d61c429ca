-- ===== src/Reader/Unique.antt =====
-- The description of Reader/Dechunk.antt has one outcome for each byte string, so that the way the
-- bytes arrive does not matter.
use hexbuffer_proxy.Prelude.{
  ℕ, zero, suc, ◌+◌, ◌<◌, ◌≡◌, refl, sym, ap, subst, subst₂, inl, inr, ◌∙◌, false, [], ◌∷◌, ◌++◌,
  some, none, arith, ltb, if◌then◌else◌, Outcome, ok, panic, out_of_fuel, ◌>>=◌, length,
  length-append, take, drop, length-drop, take-length_append,
}
use hexbuffer_proxy.Text.{Bytes, before, after?, contains_char, usize_limit}
use hexbuffer_proxy.Text.Search.{split_cases, before-append, after?-append}
use hexbuffer_proxy.Error.{Failure}
use hexbuffer_proxy.Reader.Stream.{Stream, Ending, finish, value_of}
use hexbuffer_proxy.Reader.Loops.{chunk_size, needed_for, read_chunked_body}
use hexbuffer_proxy.Reader.Dechunk.{
  Dechunks, no_line, bad_size, last_chunk, short, overflow, chunk, prepend, Line,
}
use hexbuffer_proxy.Reader.Chunked.{read_chunked_body-Dechunks}

-- The description as a function, on fuel.
dechunk_sized : (Bytes → Outcome Failure Bytes) → Ending → Bytes → ℕ → Outcome Failure Bytes
dechunk_sized again e rest zero = ok []
dechunk_sized again e rest (suc n) =
    if ltb (length rest) (needed_for (suc n))
    then finish e []
    else if ltb (length rest) (suc n)
    then panic
    else prepend (take (suc n) rest) (again (drop (needed_for (suc n)) rest))

dechunk : ℕ → Ending → Bytes → Outcome Failure Bytes
dechunk zero e t = out_of_fuel
dechunk (suc fuel) e t = elim (after? b'\n' t) [
  | none ↦ finish e []
  | some rest ↦ chunk_size (before b'\n' t) >>= dechunk_sized (dechunk fuel e) e rest
]

dechunk-Line :
    (fuel : ℕ) (e : Ending) {t : Bytes} (line rest : Bytes)
    → Line t line rest
    → dechunk (suc fuel) e t ≡ (chunk_size line >>= dechunk_sized (dechunk fuel e) e rest)
unfolding dechunk
dechunk-Line fuel e {t} line rest l =
    let front : before b'\n' t ≡ line = rw l.0 (before-append b'\n' line rest l.1) in
    let back : after? b'\n' t ≡ some rest = rw l.0 (after?-append b'\n' line rest l.1) in
    rw (back, dechunk) (rw front)

dechunk_no_line :
    (fuel : ℕ) (e : Ending) (t : Bytes)
    → contains_char b'\n' t ≡ false
    → dechunk (suc fuel) e t ≡ finish e []
unfolding dechunk
dechunk_no_line fuel e t m = elim (split_cases b'\n' t) [
  | inl (_, back, _) ↦ rw (back, dechunk)
  | inr (rest, found, _, _) ↦ cc
]

Dechunks-eq :
    (fuel : ℕ) {e : Ending} {t : Bytes} {r : Outcome Failure Bytes}
    → Dechunks e t r
    → length t < fuel
    → dechunk fuel e t ≡ r
unfolding dechunk_sized
Dechunks-eq zero d h = absurd (omega arith)
Dechunks-eq (suc fuel) {e} {t} (no_line m p) h = dechunk_no_line fuel e t m ∙ sym p
Dechunks-eq (suc fuel) {e} (bad_size line rest f l c p) h =
    dechunk-Line fuel e line rest l ∙ rw c (sym p)
Dechunks-eq (suc fuel) {e} (last_chunk line rest l c p) h =
    dechunk-Line fuel e line rest l ∙ rw c (sym p)
Dechunks-eq (suc fuel) {e} (short line rest n l c less p) h =
    dechunk-Line fuel e line rest l ∙ rw c (ground arith)
Dechunks-eq (suc fuel) {e} (overflow line rest n l c more less p) h =
    dechunk-Line fuel e line rest l ∙ rw c (ground arith)
Dechunks-eq (suc fuel) {e} {t} (chunk line rest n l c more enough d p) h =
    let size : length t ≡ length line + suc (length rest) =
      ap length l.0 ∙ length-append line (b'\n' ∷ rest) in
    let shorter = length-drop (needed_for (suc n)) rest in
    let below : length (drop (needed_for (suc n)) rest) < fuel = omega (arith, shorter) in
    dechunk-Line fuel e line rest l ∙ rw c (ground (arith, Dechunks-eq fuel d below))

Dechunks-unique :
    {e : Ending} {t : Bytes} {r q : Outcome Failure Bytes} → Dechunks e t r → Dechunks e t q → r ≡ q
Dechunks-unique {t = t} d c =
    sym (Dechunks-eq (suc (length t)) d (omega arith))
    ∙ Dechunks-eq (suc (length t)) c (omega arith)

-- Two streams with the same bytes and the same end give the same body or the same error, whatever
-- pieces the bytes arrive in, how many of them were read before, and how large the two buffers are
-- (neither empty); the bytes are fewer than 2^64 - 2.
pub read_chunked_body_pieces :
    (size size' : ℕ) (s s' : Stream) (initial initial' : Bytes)
    → 0 < size
    → 0 < size'
    → initial ++ s.incoming ≡ initial' ++ s'.incoming
    → s.ending ≡ s'.ending
    → length (initial ++ s.incoming) + 2 < usize_limit
    → value_of (read_chunked_body s initial size) ≡ value_of (read_chunked_body s' initial' size')
read_chunked_body_pieces size size' s s' initial initial' pos pos' same e small =
    let one = read_chunked_body-Dechunks size pos s initial small in
    let other = read_chunked_body-Dechunks size' pos' s' initial' (rw (← same) small) in
    Dechunks-unique
      (subst₂ (λ x y. Dechunks x y (value_of (read_chunked_body s initial size))) e same one) other

-- A complete message in the chunked coding with the chunks `body` is made of: a size line before each
-- chunk, any two bytes behind it, then a size line for zero, and anything.
pub data Chunks : Bytes → Bytes → Type 0 where
  done : {t : Bytes} (line rest : Bytes) → Line t line rest → chunk_size line ≡ ok 0 → Chunks t []
  more :
      {t body : Bytes} (line c rest : Bytes) (x y b : ℕ)
      → Line t line ((b ∷ c) ++ x ∷ y ∷ rest)
      → chunk_size line ≡ ok (length (b ∷ c))
      → Chunks rest body
      → Chunks t ((b ∷ c) ++ body)

drop_chunk :
    (a : Bytes) (x y : ℕ) (rest : Bytes) → drop (suc (suc (length a))) (a ++ x ∷ y ∷ rest) ≡ rest
drop_chunk [] x y rest = refl
drop_chunk (b ∷ a) x y rest = drop_chunk a x y rest

Chunks-Dechunks :
    {t body : Bytes} (e : Ending)
    → Chunks t body
    → length t + 2 < usize_limit
    → Dechunks e t (ok body)
unfolding needed_for
Chunks-Dechunks e (done line rest l c) small = last_chunk line rest l c refl
Chunks-Dechunks {t} e (more {body = inner} line c rest x y b l p k) small =
    let whole : length t ≡ length line + suc (length ((b ∷ c) ++ x ∷ y ∷ rest)) =
      ap length l.0 ∙ length-append line (b'\n' ∷ ((b ∷ c) ++ x ∷ y ∷ rest)) in
    let tail = length-append (b ∷ c) (x ∷ y ∷ rest) in
    let d = Chunks-Dechunks e k (omega arith) in
    let n : needed_for (length (b ∷ c)) ≡ suc (suc (length (b ∷ c))) = omega arith in
    chunk line ((b ∷ c) ++ x ∷ y ∷ rest) (length c) l p (omega (arith, n, tail))
      (omega (arith, tail))
      (subst (λ z. Dechunks e z (ok inner)) (sym (rw n (drop_chunk (b ∷ c) x y rest))) d)
      (ap (λ z. ok (z ++ inner)) (sym (take-length_append (b ∷ c) (x ∷ y ∷ rest))))

-- `read_chunked_body` gives back the chunks of every complete message in the chunked coding, if the
-- buffer has room and the bytes are fewer than 2^64 - 2.
pub read_chunked_body-Chunks :
    (size : ℕ) (s : Stream) (initial body : Bytes)
    → 0 < size
    → Chunks (initial ++ s.incoming) body
    → length (initial ++ s.incoming) + 2 < usize_limit
    → value_of (read_chunked_body s initial size) ≡ ok body
read_chunked_body-Chunks size s initial body pos c small =
    Dechunks-unique (read_chunked_body-Dechunks size pos s initial small)
      (Chunks-Dechunks s.ending c small)
