-- ===== src/Text/Defs/Split.antt =====
-- `lines`, `split_whitespace`, `split`, `split_once`, `trim`, `starts_with`, `contains`, `position`.
use hexbuffer_proxy.Prelude.{
  ℕ, suc, Bool, true, false, not, ◌&&◌, ◌||◌, List, [], ◌∷◌, ◌++◌, Option, none, some, ◌==◌,
  if◌then◌else◌,
}
use hexbuffer_proxy.Text.Defs.Utf8.{Str, is_whitespace}

-- Equality of slices.
unfoldable pub equal : List ℕ → List ℕ → Bool
equal [] [] = true
equal (x ∷ xs) (y ∷ ys) = x == y && equal xs ys
equal _ _ = false

abbrev pub is_empty {ℓ} : {A : Type ℓ} → List A → Bool
is_empty [] = true
is_empty (x ∷ xs) = false

unfoldable pub starts_with : List ℕ → List ℕ → Bool
starts_with [] s = true
starts_with (p ∷ ps) [] = false
starts_with (p ∷ ps) (c ∷ s) = p == c && starts_with ps s

-- `ends_with(suffix)`.
unfoldable pub ends_with : List ℕ → List ℕ → Bool
unfolding equal
ends_with suffix [] = equal [] suffix
ends_with suffix (c ∷ s) = equal (c ∷ s) suffix || ends_with suffix s

-- `contains(needle)` of a string.
unfoldable pub contains : List ℕ → List ℕ → Bool
unfolding starts_with
contains needle [] = starts_with needle []
contains needle (c ∷ s) = starts_with needle (c ∷ s) || contains needle s

-- `contains(&byte)` of a slice, and `contains(char)` of a string.
unfoldable pub contains_char : ℕ → List ℕ → Bool
contains_char x [] = false
contains_char x (c ∷ s) = c == x || contains_char x s

-- The part in front of the first `x`, or all.
unfoldable pub before : ℕ → List ℕ → List ℕ
before x [] = []
before x (c ∷ s) = if c == x then [] else c ∷ before x s

-- The part behind the first `x`, if there is one.
unfoldable pub after? : ℕ → List ℕ → Option (List ℕ)
after? x [] = none
after? x (c ∷ s) = if c == x then some s else after? x s

-- `split(x).next()` never fails; `split(x).nth(1)`; `split_once(x)`.
abbrev pub split_first : ℕ → Str → Str
split_first = before

abbrev pub split_second : ℕ → Str → Option Str
split_second x s = elim (after? x s) [ none ↦ none | some rest ↦ some (before x rest) ]

abbrev pub split_once : ℕ → Str → Option (Str × Str)
split_once x s = elim (after? x s) [ none ↦ none | some rest ↦ some (before x s, rest) ]

-- `split(x)`, every piece; `cur` is the piece read so far.
unfoldable pub split_from : ℕ → List ℕ → List ℕ → List (List ℕ)
split_from x cur [] = cur ∷ []
split_from x cur (c ∷ s) =
    let rest = split_from x (if c == x then [] else cur ++ c ∷ []) s in
    if c == x then cur ∷ rest else rest

abbrev pub split : ℕ → List ℕ → List (List ℕ)
split x = split_from x []

-- A line without its `\r`, if it ends in one.
unfoldable pub strip_cr : Str → Str
strip_cr [] = []
strip_cr (c ∷ []) = if c == b'\r' then [] else c ∷ []
strip_cr (c ∷ d ∷ s) = c ∷ strip_cr (d ∷ s)

-- `lines`: a last line with no newline keeps its `\r`, and an empty one is none.
unfoldable pub lines_from : Str → Str → List Str
unfolding strip_cr
lines_from cur [] = if is_empty cur then [] else cur ∷ []
lines_from cur (c ∷ s) =
    let rest = lines_from (if c == b'\n' then [] else cur ++ c ∷ []) s in
    if c == b'\n' then strip_cr cur ∷ rest else rest

unfoldable pub lines : Str → List Str
unfolding lines_from
lines s = lines_from [] s

-- `split_whitespace`.
unfoldable pub words_from : Str → Str → List Str
unfolding is_whitespace
words_from cur [] = if is_empty cur then [] else cur ∷ []
words_from cur (c ∷ s) =
    let rest = words_from (if is_whitespace c then [] else cur ++ c ∷ []) s in
    if is_whitespace c && not (is_empty cur) then cur ∷ rest else rest

unfoldable pub split_whitespace : Str → List Str
unfolding words_from
split_whitespace s = words_from [] s

unfoldable pub trim_start : Str → Str
unfolding is_whitespace
trim_start [] = []
trim_start (c ∷ s) = if is_whitespace c then trim_start s else c ∷ s

unfoldable pub trim_end : Str → Str
unfolding is_whitespace
trim_end [] = []
trim_end (c ∷ s) =
    let rest = trim_end s in if is_whitespace c && is_empty rest then [] else c ∷ rest

unfoldable pub trim : Str → Str
unfolding trim_start trim_end
trim s = trim_end (trim_start s)

-- `iter.next()` and `iter.nth(1)`.
abbrev pub next {ℓ} : {A : Type ℓ} → List A → Option A
next [] = none
next (x ∷ xs) = some x

abbrev pub nth_1 {ℓ} : {A : Type ℓ} → List A → Option A
nth_1 [] = none
nth_1 (x ∷ xs) = next xs

abbrev pub unwrap_or {ℓ} : {A : Type ℓ} → Option A → A → A
unwrap_or none d = d
unwrap_or (some a) d = a

abbrev pub and_then {ℓ κ} : {A : Type ℓ} {B : Type κ} → Option A → (A → Option B) → Option B
and_then none f = none
and_then (some a) f = f a

-- `windows(n).position(|w| w == needle)`.
unfoldable pub position : List ℕ → List ℕ → Option ℕ
unfolding starts_with
position needle [] = none
position needle (c ∷ s) =
    let rest = position needle s in
    if starts_with needle (c ∷ s) then some 0 else elim rest [ none ↦ none | some i ↦ some (suc i) ]
