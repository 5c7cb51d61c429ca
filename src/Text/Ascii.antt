-- ===== src/Text/Ascii.antt =====
-- On ASCII text the decoder changes nothing, and neither does the encoder.
use hexbuffer_proxy.Prelude.{
  Bool, true, false, ltb, ltb→lt, Bool-cases, inl, inr, ◌<◌, ◌≡◌, refl, ap, [], ◌∷◌, All, lt→ltb,
  if◌then◌else◌,
}
use hexbuffer_proxy.Text.Defs.{
  Bytes, Str, is_whitespace, utf8_run, utf8_step, utf8_start, idle, from_utf8_lossy, as_bytes,
  utf8_char,
}

abbrev pub IsAscii : Bytes → Type 0
IsAscii = All (λ b. b < 128)

utf8_run-IsAscii : (bs : Bytes) → IsAscii bs → utf8_run idle bs ≡ bs
unfolding utf8_run utf8_step utf8_start
utf8_run-IsAscii [] h = refl
utf8_run-IsAscii (b ∷ bs) h = rw (lt→ltb b 128 h.0) (ap (◌∷◌ b) (utf8_run-IsAscii bs h.1))

pub from_utf8_lossy-IsAscii : (bs : Bytes) → IsAscii bs → from_utf8_lossy bs ≡ bs
unfolding from_utf8_lossy
from_utf8_lossy-IsAscii bs h = utf8_run-IsAscii bs h

pub as_bytes-IsAscii : (bs : Bytes) → IsAscii bs → as_bytes bs ≡ bs
unfolding as_bytes utf8_char
as_bytes-IsAscii [] h = refl
as_bytes-IsAscii (b ∷ bs) h = rw (lt→ltb b 128 h.0) (ap (◌∷◌ b) (as_bytes-IsAscii bs h.1))

-- To read the two predicates off a literal.
abbrev pub is_ascii : Bytes → Bool
is_ascii [] = true
is_ascii (b ∷ bs) = if ltb b 128 then is_ascii bs else false

pub is_ascii-IsAscii : (bs : Bytes) → is_ascii bs ≡ true → IsAscii bs
is_ascii-IsAscii [] h = _
is_ascii-IsAscii (b ∷ bs) h = elim (Bool-cases (ltb b 128)) [
  | inl below ↦ (ltb→lt b 128 below, is_ascii-IsAscii bs (rw below at h))
  | inr above ↦ absurd (cc (rw above at h))
]

-- No white space among the characters.
abbrev pub IsWord : Str → Type 0
IsWord = All (λ c. is_whitespace c ≡ false)

abbrev pub is_word : Str → Bool
is_word [] = true
is_word (c ∷ s) = if is_whitespace c then false else is_word s

pub is_word-IsWord : (s : Str) → is_word s ≡ true → IsWord s
is_word-IsWord [] h = _
is_word-IsWord (c ∷ s) h = elim (Bool-cases (is_whitespace c)) [
  | inl white ↦ absurd (cc (rw white at h))
  | inr black ↦ (black, is_word-IsWord s (rw black at h))
]
