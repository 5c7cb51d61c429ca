-- ===== src/Text/Defs/Utf8.antt =====
-- `String::from_utf8_lossy`, `str::as_bytes`, `char::is_whitespace`, `str::to_lowercase`.
use Prim.Native.Char.{code}
use Prim.Native.String.{String}
use hexbuffer_proxy.Prelude.{
  ℕ, zero, suc, ◌+◌, ◌*◌, ◌/◌, ◌%◌, Bool, ◌&&◌, ◌||◌, List, [], ◌∷◌, ◌++◌, ltb, leb, ◌==◌,
  if◌then◌else◌,
}

abbrev pub Bytes : Type 0
Bytes = List ℕ

-- A `str` is its list of code points.
abbrev pub Str : Type 0
Str = List ℕ

-- The code points of a literal.
abbrev pub codes : String → List ℕ
codes String.[] = []
codes (String.◌∷◌ c s) = code c ∷ codes s

abbrev pub within : ℕ → ℕ → ℕ → Bool
within lo hi c = leb lo c && leb c hi

-- What the decoder waits for: nothing, or `k + 1` more bytes, the next of them from `lo` to `hi`.
pub data Need : Type 0 where
  idle : Need
  want : (k lo hi value : ℕ) → Need

pub record Decoded : Type 0 where
  pub out : Str
  pub need : Need

abbrev pub replacement : ℕ
replacement = 0xFFFD

unfoldable pub utf8_start : ℕ → Decoded
utf8_start b =
    if ltb b 128
    then record { out = b ∷ []; need = idle }
    else if within 0xC2 0xDF b
    then record { out = []; need = want 0 128 191 (b % 32) }
    else if b == 0xE0
    then record { out = []; need = want 1 160 191 0 }
    else if b == 0xED
    then record { out = []; need = want 1 128 159 13 }
    else if within 0xE1 0xEF b
    then record { out = []; need = want 1 128 191 (b % 16) }
    else if b == 0xF0
    then record { out = []; need = want 2 144 191 0 }
    else if b == 0xF4
    then record { out = []; need = want 2 128 143 4 }
    else if within 0xF1 0xF3 b
    then record { out = []; need = want 2 128 191 (b % 8) }
    else record { out = replacement ∷ []; need = idle }

utf8_more : ℕ → ℕ → Decoded
utf8_more zero v = record { out = v ∷ []; need = idle }
utf8_more (suc j) v = record { out = []; need = want j 128 191 v }

-- A byte that cannot continue ends the sequence with one replacement, and is read again as a start.
unfoldable pub utf8_step : Need → ℕ → Decoded
unfolding utf8_start utf8_more
utf8_step idle b = utf8_start b
utf8_step (want k lo hi value) b =
    if within lo hi b
    then utf8_more k (value * 64 + b % 64)
    else record { out = replacement ∷ (utf8_start b).out; need = (utf8_start b).need }

unfoldable pub utf8_end : Need → Str
utf8_end idle = []
utf8_end (want k lo hi value) = replacement ∷ []

unfoldable pub utf8_run : Need → Bytes → Str
unfolding utf8_step utf8_end
utf8_run n [] = utf8_end n
utf8_run n (b ∷ bs) = (utf8_step n b).out ++ utf8_run (utf8_step n b).need bs

unfoldable pub from_utf8_lossy : Bytes → Str
unfolding utf8_run
from_utf8_lossy bs = utf8_run idle bs

-- One character in UTF-8.
unfoldable pub utf8_char : ℕ → Bytes
utf8_char c =
    if ltb c 128
    then c ∷ []
    else if ltb c 2048
    then (192 + c / 64) ∷ (128 + c % 64) ∷ []
    else if ltb c 65536
    then (224 + c / 4096) ∷ (128 + c / 64 % 64) ∷ (128 + c % 64) ∷ []
    else (240 + c / 262144) ∷ (128 + c / 4096 % 64) ∷ (128 + c / 64 % 64) ∷ (128 + c % 64) ∷ []

unfoldable pub as_bytes : Str → Bytes
unfolding utf8_char
as_bytes [] = []
as_bytes (c ∷ cs) = utf8_char c ++ as_bytes cs

-- `char::is_whitespace`: the property White_Space.
unfoldable pub is_whitespace : ℕ → Bool
is_whitespace c =
    within 9 13 c
    || c == 32
    || c == 0x85
    || c == 0xA0
    || c == 0x1680
    || within 0x2000 0x200A c
    || c == 0x2028
    || c == 0x2029
    || c == 0x202F
    || c == 0x205F
    || c == 0x3000

-- `char::to_lowercase`. The proxy only looks for ASCII text in the result, so of the characters
-- past ASCII it lists the two whose lower case holds an ASCII letter: the others stay.
unfoldable pub lower_char : ℕ → Str
lower_char c =
    if within b'A' b'Z' c
    then (c + 32) ∷ []
    else if c == 0x212A
    then b'k' ∷ []
    else if c == 0x130
    then b'i' ∷ 0x307 ∷ []
    else c ∷ []

unfoldable pub to_lowercase : Str → Str
unfolding lower_char
to_lowercase [] = []
to_lowercase (c ∷ cs) = lower_char c ++ to_lowercase cs
