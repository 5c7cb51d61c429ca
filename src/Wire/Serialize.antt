-- ===== src/Wire/Serialize.antt =====
-- src/proxy.rs: `serialize_request`, `serialize_response` and `serialize_response_head`.
use hexbuffer_proxy.Prelude.{List, [], ◌∷◌, ◌++◌}
use hexbuffer_proxy.Text.{Bytes, codes, as_bytes, to_string, unwrap_or}
use hexbuffer_proxy.Http.{HttpCrate}
use hexbuffer_proxy.Handler.Types.{Body, full, streaming, Request, Response}
use hexbuffer_proxy.Wire.Syntax.{HttpSyntax}

-- The header lines, then the empty one.
unfoldable pub serialize_headers : List (Bytes × Bytes) → Bytes
serialize_headers [] = codes "\r\n"
serialize_headers ((key, value) ∷ rest) =
    key ++ codes ": " ++ value ++ codes "\r\n" ++ serialize_headers rest

module _ (http : HttpCrate) (syntax : HttpSyntax http) where
  abbrev pub full_bytes : Body http → Bytes
  full_bytes (full b) = b
  full_bytes (streaming boxed) = []

  unfoldable pub serialize_request : Request http → Bytes
  serialize_request req =
      as_bytes (req.method ++ codes " " ++ syntax.uri_to_string req.uri ++ codes " HTTP/1.1\r\n")
      ++ serialize_headers (http.iter req.headers)
      ++ full_bytes req.body

  abbrev status_line : Response http → Bytes
  status_line res = as_bytes (
      codes "HTTP/1.1 "
      ++ to_string res.status
      ++ codes " "
      ++ unwrap_or (syntax.canonical_reason res.status) (codes "OK")
      ++ codes "\r\n")

  unfoldable pub serialize_response : Response http → Bytes
  serialize_response res =
      status_line res ++ serialize_headers (http.iter res.headers) ++ full_bytes res.body

  unfoldable pub serialize_response_head : Response http → Bytes
  serialize_response_head res = status_line res ++ serialize_headers (http.iter res.headers)
