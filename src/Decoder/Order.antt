-- ===== src/Decoder/Order.antt =====
-- The order in which the codings of a message are undone.
use mathlib.Core.List.{reverse, reverse-append, reverse-cons, map-append}
use hexbuffer_proxy.Prelude.{
  ◌≡◌, refl, sym, ap, ap₂, ◌∙◌, List, [], ◌∷◌, ◌++◌, map, append-nil, append_assoc,
}
use hexbuffer_proxy.Text.{Bytes, split}
use hexbuffer_proxy.Http.{HttpCrate}
use hexbuffer_proxy.Decoder.Encodings.{
  content_encoding, trim_ascii, value_encodings, flat_encodings, encodings,
}

-- The codings in the order in which the header values name them.
abbrev pub as_listed : List Bytes → List Bytes
as_listed [] = []
as_listed (val ∷ vals) = map trim_ascii (split b',' val) ++ as_listed vals

map-reverse : (f : Bytes → Bytes) (xs : List Bytes) → map f (reverse xs) ≡ reverse (map f xs)
map-reverse f [] = refl
map-reverse f (x ∷ xs) =
    ap (map f) (reverse-cons x xs)
    ∙ map-append f (reverse xs) (x ∷ [])
    ∙ ap (λ l. l ++ f x ∷ []) (map-reverse f xs)
    ∙ sym (reverse-cons (f x) (map f xs))

flat_encodings-append :
    (xs ys : List Bytes) → flat_encodings (xs ++ ys) ≡ flat_encodings xs ++ flat_encodings ys
unfolding flat_encodings
flat_encodings-append [] ys = refl
flat_encodings-append (x ∷ xs) ys =
    ap (◌++◌ (value_encodings x)) (flat_encodings-append xs ys)
    ∙ sym (append_assoc (value_encodings x) (flat_encodings xs) (flat_encodings ys))

flat_encodings_one :
    (val : Bytes) → flat_encodings (val ∷ []) ≡ reverse (map trim_ascii (split b',' val))
unfolding flat_encodings
flat_encodings_one val = append-nil (value_encodings val) ∙ map-reverse trim_ascii (split b',' val)

flat_encodings-reverse :
    (vals : List Bytes) → flat_encodings (reverse vals) ≡ reverse (as_listed vals)
flat_encodings-reverse [] = unfold flat_encodings in refl
flat_encodings-reverse (val ∷ vals) =
    ap flat_encodings (reverse-cons val vals)
    ∙ flat_encodings-append (reverse vals) (val ∷ [])
    ∙ ap₂ ◌++◌ (flat_encodings-reverse vals) (flat_encodings_one val)
    ∙ sym (reverse-append (map trim_ascii (split b',' val)) (as_listed vals))

-- `encodings` lists the codings to undo: the reverse of the order in which the header fields name
-- them, across
-- the commas of one field and across several fields.
pub encodings-as_listed :
    (http : HttpCrate) (headers : http.Headers)
    → encodings http headers ≡ reverse (as_listed (http.get_all headers content_encoding))
unfolding encodings
encodings-as_listed http headers = flat_encodings-reverse (http.get_all headers content_encoding)
