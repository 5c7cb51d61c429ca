-- ===== src/Text/Lines.antt =====
-- Lines and words of a text, read from its front.
use hexbuffer_proxy.Prelude.{
  ℕ, ◌==◌, ==_iff, ◌≡◌, refl, sym, ap, ◌∙◌, true, false, [], ◌∷◌, ◌++◌, append-nil, append_assoc,
  arith, lt→ltb, Bool-cases, inl, inr,
}
use hexbuffer_proxy.Text.Defs.{
  Bytes, Str, codes, utf8_run, utf8_step, utf8_start, idle, from_utf8_lossy, lines, lines_from,
  strip_cr, contains_char, is_empty, is_whitespace, words_from, split_whitespace, trim, trim_start,
  trim_end,
}
use hexbuffer_proxy.Text.Ascii.{IsAscii, is_ascii-IsAscii, IsWord}

utf8_run-append : (a b : Bytes) → IsAscii a → utf8_run idle (a ++ b) ≡ a ++ utf8_run idle b
unfolding utf8_run utf8_step utf8_start
utf8_run-append [] b h = refl
utf8_run-append (x ∷ a) b h = rw (lt→ltb x 128 h.0) (ap (◌∷◌ x) (utf8_run-append a b h.1))

-- ASCII in front of any bytes is decoded on its own.
pub from_utf8_lossy-append :
    (a b : Bytes) → IsAscii a → from_utf8_lossy (a ++ b) ≡ a ++ from_utf8_lossy b
unfolding from_utf8_lossy
from_utf8_lossy-append a b h = utf8_run-append a b h

lines_from-append :
    (cur l t : Str)
    → contains_char b'\n' l ≡ false
    → lines_from cur (l ++ b'\n' ∷ t) ≡ strip_cr (cur ++ l) ∷ lines t
unfolding lines_from contains_char lines
lines_from-append cur [] t h = rw (append-nil cur) refl
lines_from-append cur (c ∷ l) t h =
    ground (arith, lines_from-append (cur ++ c ∷ []) l t, append_assoc cur (c ∷ []) l)

-- The first line of a text.
pub lines-append :
    (l t : Str) → contains_char b'\n' l ≡ false → lines (l ++ b'\n' ∷ t) ≡ strip_cr l ∷ lines t
lines-append l t h = unfold lines in lines_from-append [] l t h

pub is_empty-append : (a b : Str) → is_empty a ≡ false → is_empty (a ++ b) ≡ false
is_empty-append [] b h = cc
is_empty-append (c ∷ a) b h = refl

pub strip_cr-append : (l : Str) → strip_cr (l ++ b'\r' ∷ []) ≡ l
unfolding strip_cr
strip_cr-append [] = refl
strip_cr-append (c ∷ []) = refl
strip_cr-append (c ∷ d ∷ l) = ap (◌∷◌ c) (strip_cr-append (d ∷ l))

words_from-append :
    (cur w t : Str)
    → IsWord w
    → is_empty (cur ++ w) ≡ false
    → words_from cur (w ++ b' ' ∷ t) ≡ (cur ++ w) ∷ split_whitespace t
unfolding words_from split_whitespace is_whitespace
words_from-append cur [] t h ne = ground (arith, append-nil cur)
words_from-append cur (c ∷ w) t h ne =
    ground (arith, h.0, words_from-append (cur ++ c ∷ []) w t h.1, append_assoc cur (c ∷ []) w)

-- The first word of a text.
pub split_whitespace-append :
    (w t : Str)
    → IsWord w
    → is_empty w ≡ false
    → split_whitespace (w ++ b' ' ∷ t) ≡ w ∷ split_whitespace t
split_whitespace-append w t h ne = unfold split_whitespace in words_from-append [] w t h ne

words_from_one :
    (cur w : Str) → IsWord w → is_empty (cur ++ w) ≡ false → words_from cur w ≡ (cur ++ w) ∷ []
unfolding words_from
words_from_one cur [] h ne = ground (arith, append-nil cur)
words_from_one cur (c ∷ w) h ne =
    ground (arith, h.0, words_from_one (cur ++ c ∷ []) w h.1, append_assoc cur (c ∷ []) w)

-- A text of one word.
pub split_whitespace_one : (w : Str) → IsWord w → is_empty w ≡ false → split_whitespace w ≡ w ∷ []
split_whitespace_one w h ne = unfold split_whitespace in words_from_one [] w h ne

trim_end-IsWord : (w : Str) → IsWord w → trim_end w ≡ w
unfolding trim_end
trim_end-IsWord [] h = refl
trim_end-IsWord (c ∷ w) h = rw (h.0, trim_end-IsWord w h.1) refl

-- A word has no white space to trim.
pub trim-IsWord : (w : Str) → IsWord w → trim w ≡ w
unfolding trim trim_start
trim-IsWord [] h = unfold trim_end in refl
trim-IsWord (c ∷ w) h = rw h.0 (trim_end-IsWord (c ∷ w) h)

pub trim_space : (s : Str) → trim (b' ' ∷ s) ≡ trim s
unfolding trim trim_start is_whitespace
trim_space s = refl

pub contains_char-IsWord :
    (x : ℕ) (w : Str) → is_whitespace x ≡ true → IsWord w → contains_char x w ≡ false
unfolding contains_char
contains_char-IsWord x [] white h = refl
contains_char-IsWord x (c ∷ w) white h = elim (Bool-cases (c == x)) [
  | inl same ↦ absurd (cc (rw ((==_iff c x).0 same) at h.0))
  | inr differ ↦ rw differ (contains_char-IsWord x w white h.1)
]

pub contains_char-append :
    (x : ℕ) (a b : Str)
    → contains_char x a ≡ false
    → contains_char x b ≡ false
    → contains_char x (a ++ b) ≡ false
unfolding contains_char
contains_char-append x [] b ha hb = hb
contains_char-append x (c ∷ a) b ha hb = ground (arith, contains_char-append x a b)

-- A line that ends in `\r\n`, in bytes of which only it needs to be ASCII.
pub lines_crlf :
    (l : Str) (rest : Bytes)
    → IsAscii l
    → contains_char b'\n' l ≡ false
    → lines (from_utf8_lossy (l ++ (codes "\r\n" ++ rest))) ≡ l ∷ lines (from_utf8_lossy rest)
lines_crlf l rest ascii one =
    ap lines (
      from_utf8_lossy-append l (codes "\r\n" ++ rest) ascii
      ∙ ap (◌++◌ l)
          (from_utf8_lossy-append (codes "\r\n") rest (is_ascii-IsAscii (codes "\r\n") refl)))
    ∙ ap lines (sym (append_assoc l (b'\r' ∷ []) (b'\n' ∷ from_utf8_lossy rest)))
    ∙ lines-append (l ++ b'\r' ∷ []) (from_utf8_lossy rest)
        (contains_char-append b'\n' l (b'\r' ∷ []) one (unfold contains_char in refl))
    ∙ ap (λ x. x ∷ lines (from_utf8_lossy rest)) (strip_cr-append l)
