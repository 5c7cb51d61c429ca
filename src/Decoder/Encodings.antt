-- ===== src/Decoder/Encodings.antt =====
-- src/decoder.rs: the helpers on the headers.
use mathlib.Core.List.{reverse}
use hexbuffer_proxy.Prelude.{
  ℕ, suc, ◌-◌, Bool, true, not, ◌&&◌, List, [], ◌∷◌, ◌++◌, map, Option, none, some, ◌==◌,
  if◌then◌else◌, length, take, drop,
}
use hexbuffer_proxy.Text.{Bytes, Str, codes, split, equal, unwrap_or, and_then}
use hexbuffer_proxy.Http.{HttpCrate, get, contains_key}

abbrev pub content_encoding : Str
content_encoding = codes "content-encoding"

abbrev pub content_length : Str
content_length = codes "content-length"

-- `iter().position(|&b| b != x)` and `iter().rposition(|&b| b != x)`.
unfoldable pub position_ne : ℕ → Bytes → Option ℕ
position_ne x [] = none
position_ne x (b ∷ bs) =
    let rest = position_ne x bs in
    if b == x then (elim rest [ none ↦ none | some i ↦ some (suc i) ]) else some 0

unfoldable pub rposition_ne : ℕ → Bytes → Option ℕ
rposition_ne x [] = none
rposition_ne x (b ∷ bs) = elim (rposition_ne x bs) [
  | some i ↦ some (suc i)
  | none ↦ if b == x then none else some 0
]

-- A slice of spaces alone is not trimmed.
unfoldable pub trim_ascii : Bytes → Bytes
unfolding position_ne rposition_ne
trim_ascii bytes =
    let start = unwrap_or (position_ne b' ' bytes) 0 in
    let end = unwrap_or (and_then (rposition_ne b' ' bytes) (λ p. some (suc p))) (length bytes) in
    take (end - start) (drop start bytes)

-- The codings of one header value, the last one first: `rsplit` and `map(trim_ascii)`.
unfoldable pub value_encodings : Bytes → List Bytes
unfolding trim_ascii
value_encodings val = map trim_ascii (reverse (split b',' val))

-- `flat_map`.
unfoldable pub flat_encodings : List Bytes → List Bytes
unfolding value_encodings
flat_encodings [] = []
flat_encodings (val ∷ vals) = value_encodings val ++ flat_encodings vals

module _ (http : HttpCrate) where
  unfoldable pub encodings : http.Headers → List Bytes
  unfolding flat_encodings
  encodings headers = flat_encodings (reverse (http.get_all headers content_encoding))

  unfoldable pub should_decode : http.Headers → Bool
  unfolding equal
  should_decode headers =
      contains_key http headers content_encoding
      && unwrap_or
          (and_then (get http headers content_length) (λ v. some (not (equal v (codes "0"))))) true

  -- `strip_encoding_headers_req` and `strip_encoding_headers_res`.
  unfoldable pub strip_encoding_headers : http.Headers → http.Headers
  strip_encoding_headers headers = http.remove (http.remove headers content_encoding) content_length
