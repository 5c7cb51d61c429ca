-- ===== src/Text/Search.antt =====
-- Splitting a text at the first occurrence of a character.
use hexbuffer_proxy.Prelude.{
  ℕ, ◌≡◌, refl, true, false, List, [], ◌∷◌, ◌++◌, ◌⊎◌, inl, inr, none, some, arith, ◌+◌, ◌≤◌, ◌<◌,
  length, Bool-cases, Option-cases,
}
use hexbuffer_proxy.Text.Defs.{before, after?, contains_char, starts_with, position}

-- Either `x` does not occur, or it stands behind the part before it.
pub split_cases :
    (x : ℕ) (s : List ℕ)
    → ((contains_char x s ≡ false) × (after? x s ≡ none) × (before x s ≡ s))
      ⊎ ((rest : List ℕ) × (contains_char x s ≡ true)
          × (after? x s ≡ some rest)
          × (s ≡ before x s ++ x ∷ rest))
unfolding contains_char before after?
split_cases x [] = inl (refl, refl, refl)
split_cases x (c ∷ s) = ground (arith, split_cases x s)

pub before-append : (x : ℕ) (s t : List ℕ) → contains_char x s ≡ false → before x (s ++ x ∷ t) ≡ s
unfolding before contains_char
before-append x [] t h = ground arith
before-append x (c ∷ s) t h = ground (arith, before-append x s t)

pub after?-append :
    (x : ℕ) (s t : List ℕ) → contains_char x s ≡ false → after? x (s ++ x ∷ t) ≡ some t
unfolding after? contains_char
after?-append x [] t h = ground arith
after?-append x (c ∷ s) t h = ground (arith, after?-append x s t)

pub contains_char-append_true :
    (x : ℕ) (s t : List ℕ)
    → contains_char x s ≡ true
    → (before x (s ++ t) ≡ before x s) × (contains_char x (s ++ t) ≡ true)
unfolding contains_char before
contains_char-append_true x [] t h = cc
contains_char-append_true x (c ∷ s) t h = ground (arith, contains_char-append_true x s t)

pub contains_char-before : (x : ℕ) (s : List ℕ) → contains_char x (before x s) ≡ false
unfolding contains_char before
contains_char-before x [] = refl
contains_char-before x (c ∷ s) = ground (arith, contains_char-before x s)

pub starts_with-append :
    (p s t : List ℕ) → length p ≤ length s → starts_with p (s ++ t) ≡ starts_with p s
unfolding starts_with
starts_with-append [] s t h = refl
starts_with-append (x ∷ p) [] t h = absurd (omega arith)
starts_with-append (x ∷ p) (c ∷ s) t h = ground (arith, starts_with-append p s t)

-- What is behind a word does not make it start in another way.
pub starts_with-word :
    (c : ℕ) (p s t : List ℕ)
    → contains_char c p ≡ false
    → starts_with p s ≡ false
    → starts_with p (s ++ c ∷ t) ≡ false
unfolding starts_with contains_char
starts_with-word c [] s t h apart = cc
starts_with-word c (x ∷ p) [] t h apart = ground arith
starts_with-word c (x ∷ p) (y ∷ s) t h apart = ground (arith, starts_with-word c p s t)

starts_with-length : (p s : List ℕ) → starts_with p s ≡ true → length p ≤ length s
unfolding starts_with
starts_with-length [] s h = omega arith
starts_with-length (x ∷ p) [] h = cc
starts_with-length (x ∷ p) (c ∷ s) h = ground (arith, starts_with-length p s)

-- A match lies inside the text.
pub position_bound : (p s : List ℕ) (i : ℕ) → position p s ≡ some i → i + length p ≤ length s
unfolding position
position_bound p [] i h = cc
position_bound p (c ∷ s) i h = elim (Bool-cases (starts_with p (c ∷ s))) [
  | inl here ↦ ground (arith, starts_with-length p (c ∷ s))
  | inr not_here ↦ elim (Option-cases (position p s)) [
    | inl e ↦ ground arith
    | inr (j, e) ↦ ground (arith, position_bound p s j)
  ]
]

-- The first match in a text is the first match in every longer text.
pub position-append :
    (p s t : List ℕ) (i : ℕ) → position p s ≡ some i → position p (s ++ t) ≡ some i
unfolding position
position-append p [] t i h = cc
position-append p (c ∷ s) t i h = elim (Bool-cases (starts_with p (c ∷ s))) [
  | inl here ↦ ground (arith, starts_with-append p (c ∷ s) t, starts_with-length p (c ∷ s))
  | inr not_here ↦ elim (Option-cases (position p s)) [
    | inl e ↦ ground arith
    | inr (j, e) ↦
        ground
          (arith, starts_with-append p (c ∷ s) t, position_bound p s j e, position-append p s t j)
  ]
]

-- Where something stands in a longer text, within its front.
pub position-append_front :
    (p s t : List ℕ) (i : ℕ)
    → position p (s ++ t) ≡ some i
    → i + length p ≤ length s
    → 0 < length p
    → position p s ≡ some i
unfolding position
position-append_front p [] t i h fits some_text = absurd (omega arith)
position-append_front p (c ∷ s) t i h fits some_text = elim (Bool-cases (starts_with p (c ∷ s))) [
  | inl here ↦ ground (arith, starts_with-append p (c ∷ s) t)
  | inr there ↦ elim (Option-cases (position p (s ++ t))) [
    | inl e ↦ ground (arith, starts_with-append p (c ∷ s) t)
    | inr (j, e) ↦ ground (arith, starts_with-append p (c ∷ s) t, position-append_front p s t j e)
  ]
]
