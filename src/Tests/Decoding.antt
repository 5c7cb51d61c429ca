-- ===== src/Tests/Decoding.antt =====
-- Runs of src/decoder.rs.
use mathlib.Core.List.{reverse}
use hexbuffer_proxy.Prelude.{◌≡◌, refl, [], ◌∷◌, ok}
use hexbuffer_proxy.Text.{Bytes, codes, split_from, equal}
use hexbuffer_proxy.Handler.Types.{Request, Response, full}
use hexbuffer_proxy.Decoder.Encodings.{
  encodings, should_decode, strip_encoding_headers, content_encoding, content_length,
}
use hexbuffer_proxy.Decoder.Order.{as_listed, encodings-as_listed}
use hexbuffer_proxy.Decoder.Bodies.{decode_body, encode_body}
use hexbuffer_proxy.Decoder.Messages.{decode_response}
use hexbuffer_proxy.Decoder.RoundTrip.{encode_all, ZstdStarts, decode_body-encode_all}
use hexbuffer_proxy.Tests.Instances.{HeaderList, http, codecs}

-- Two fields, three codings.
abbrev headers : HeaderList
headers =
    (content_encoding, codes "gzip, br")
    ∷ (codes "accept", codes "*")
    ∷ (content_encoding, codes "zstd")
    ∷ (content_length, codes "5")
    ∷ []

abbrev encoded : Bytes
encoded = 4 ∷ 3 ∷ 1 ∷ codes "hi"

abbrev asked : Request http
asked = record { method = codes "POST"; uri = codes "/"; headers = headers; body = full encoded }

abbrev plain : Request http
plain = record asked { headers = (codes "accept", codes "*") ∷ []; body = full (codes "hi") }

abbrev answered : Response http
answered = record { status = 200; headers = headers; body = full encoded }

abbrev plain_answer : Response http
plain_answer = record answered {
  headers = (codes "accept", codes "*") ∷ [];
  body = full (codes "hi");
}

encodings-as_listed_example :
    encodings http headers ≡ reverse (as_listed (codes "gzip, br" ∷ codes "zstd" ∷ []))
unfolding split_from equal
encodings-as_listed_example = encodings-as_listed http headers

answered_decoded : decode_response codecs http answered ≡ ok plain_answer
unfolding decode_response should_decode decode_body encodings split_from strip_encoding_headers
answered_decoded = refl

starts : ZstdStarts codecs http
starts r = (_, refl)

encoded_by_all :
    encode_all codecs http (codes "gzip" ∷ codes "br" ∷ codes "zstd" ∷ []) (full (codes "hi"))
    ≡ ok (full encoded)
unfolding encode_body
encoded_by_all = refl

decode_body-encode_all_example :
    decode_body codecs http (codes "zstd" ∷ codes "br" ∷ codes "gzip" ∷ []) (full encoded)
    ≡ ok (full (codes "hi"))
decode_body-encode_all_example =
    decode_body-encode_all codecs http starts (codes "gzip" ∷ codes "br" ∷ codes "zstd" ∷ [])
      (codes "hi") encoded encoded_by_all
