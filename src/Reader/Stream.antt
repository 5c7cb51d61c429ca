-- ===== src/Reader/Stream.antt =====
-- A byte stream and its `read` (`tokio::io::AsyncReadExt::read`).
use hexbuffer_proxy.Prelude.{
  ℕ, zero, suc, ◌<◌, ◌≡◌, refl, subst, List, [], ◌∷◌, ◌++◌, min, arith, ◌==◌, if◌then◌else◌,
  Outcome, ok, err, panic, out_of_fuel, take, drop, take_all, drop_all, false, length, ◌≤◌,
  take-append-drop, ◌⊎◌, inl, inr, Bool-cases,
}
use hexbuffer_proxy.Text.{Bytes, Str, is_empty}
use hexbuffer_proxy.Error.{Failure, from_external}

-- How the peer ends the stream: it closes it, or the connection breaks with an I/O error.
pub data Ending : Type 0 where
  closed : Ending
  broken : Str → Ending

-- `arrivals` says how the bytes are cut up on the way: one read gets at most one more byte than
-- its first number, then the next number counts. With none left a read gets all it has room for.
pub record Stream : Type 0 where
  pub incoming : Bytes
  pub arrivals : List ℕ
  pub ending : Ending

abbrev room : ℕ → List ℕ → ℕ
room size [] = size
room size (k ∷ ks) = min size (suc k)

abbrev rest_of : List ℕ → List ℕ
rest_of [] = []
rest_of (k ∷ ks) = ks

-- What a loop returns when the stream gives no more.
abbrev pub finish {ℓ} : {A : Type ℓ} → Ending → A → Outcome Failure A
finish closed a = ok a
finish (broken m) a = err (from_external m)

pub Ending-cases : (e : Ending) → (e ≡ closed) ⊎ ((m : Str) × (e ≡ broken m))
Ending-cases closed = inl refl
Ending-cases (broken m) = inr (m, refl)

read_from : ℕ → Bytes → Stream → Outcome Failure (Bytes × Stream)
read_from size [] s = finish s.ending ([], s)
read_from size (b ∷ bs) s =
    let n = room size s.arrivals in
    ok (take n (b ∷ bs), record s { incoming = drop n (b ∷ bs); arrivals = rest_of s.arrivals })

-- `stream.read(&mut chunk)`. A buffer with no room reads nothing, as at the end of the stream.
unfoldable pub read : ℕ → Stream → Outcome Failure (Bytes × Stream)
unfolding read_from
read size s = if size == 0 then ok ([], s) else read_from size s.incoming s

-- What a read gives when the buffer has room.
pub data Reads (size : ℕ) (s : Stream) (r : Outcome Failure (Bytes × Stream)) : Type 0 where
  at_end : s.incoming ≡ [] → r ≡ finish s.ending ([], s) → Reads size s r
  some_bytes :
      (b : ℕ) (bs : Bytes) (s' : Stream)
      → r ≡ ok (b ∷ bs, s')
      → s.incoming ≡ (b ∷ bs) ++ s'.incoming
      → s'.ending ≡ s.ending
      → Reads size s r

room_pos : (size : ℕ) (ks : List ℕ) → 0 < size → (m : ℕ) × (room size ks ≡ suc m)
room_pos zero ks h = elim h [ ]
room_pos (suc k) [] h = (k, refl)
room_pos (suc k) (j ∷ ks) h = (min k j, omega arith)

read_from-Reads :
    (size : ℕ) (bs : Bytes) (s : Stream)
    → 0 < size
    → s.incoming ≡ bs
    → Reads size s (read_from size bs s)
unfolding read_from
read_from-Reads size [] s h e = at_end e refl
read_from-Reads size (b ∷ bs) s h e =
    let (m, p) = room_pos size s.arrivals h in
    some_bytes b (take m bs) (record s { incoming = drop m bs; arrivals = rest_of s.arrivals })
      (rw p) (ground (arith, take-append-drop m bs)) refl

pub read-Reads : (size : ℕ) (s : Stream) → 0 < size → Reads size s (read size s)
unfolding read
read-Reads zero s h = absurd (omega arith)
read-Reads (suc k) s h =
    let same : read_from (suc k) s.incoming s ≡ read (suc k) s = ground arith in
    subst (Reads (suc k) s) same (read_from-Reads (suc k) s.incoming s h refl)

take_bound : (n : ℕ) (bs : Bytes) → length (take n bs) ≤ n
take_bound zero bs = ground arith
take_bound (suc n) [] = ground arith
take_bound (suc n) (b ∷ bs) = ground (arith, take_bound n bs)

room_bound : (size : ℕ) (ks : List ℕ) → room size ks ≤ size
room_bound size [] = omega arith
room_bound size (k ∷ ks) = omega arith

read_from_bound :
    (size : ℕ) (bs : Bytes) (s : Stream) {got : Bytes} {s' : Stream}
    → read_from size bs s ≡ ok (got, s')
    → length got ≤ size
unfolding read_from
read_from_bound size [] s h = elim (Ending-cases s.ending) [
  | inl e ↦ ground arith
  | inr (m, e) ↦ ground arith
]
read_from_bound size (b ∷ bs) s h =
    ground (arith, take_bound (room size s.arrivals) (b ∷ bs), room_bound size s.arrivals)

-- A read gets no more than the buffer has room for.
pub read_bound :
    (size : ℕ) (s : Stream) {got : Bytes} {s' : Stream}
    → read size s ≡ ok (got, s')
    → length got ≤ size
unfolding read
read_bound size s {got} {s'} h = elim (Bool-cases (size == 0)) [
  | inl no_room ↦ ground arith
  | inr room_left ↦ read_from_bound size s.incoming s {got = got} {s' = s'} (ground arith)
]

-- Bytes that are all there come in one read, where there is room for them.
pub read_whole :
    (size : ℕ) (bs : Bytes) (ending : Ending)
    → is_empty bs ≡ false
    → length bs ≤ size
    → read size (record { incoming = bs; arrivals = []; ending = ending })
      ≡ ok (bs, record { incoming = []; arrivals = []; ending = ending })
unfolding read read_from
read_whole size [] ending h fits = cc
read_whole zero (b ∷ bs) ending h fits = absurd (omega arith)
read_whole (suc size) (b ∷ bs) ending h fits =
    rw (take_all (suc size) (b ∷ bs) fits, drop_all (suc size) (b ∷ bs) fits) (ground arith)

-- The value that a reading call returns, without the stream behind it.
abbrev pub value_of {ℓ} : {A : Type ℓ} → Outcome Failure (A × Stream) → Outcome Failure A
value_of (ok (a, s)) = ok a
value_of (err e) = err e
value_of panic = panic
value_of out_of_fuel = out_of_fuel
