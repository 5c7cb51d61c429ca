-- ===== src/Inspector/Triggers.antt =====
-- examples/test_app/triggers.rs: what the triggered tests write on their connection to the proxy.
use hexbuffer_proxy.Prelude.{Bool, List, [], ◌∷◌, ◌++◌, if◌then◌else◌, length, concat}
use hexbuffer_proxy.Text.{Str, codes, lines, starts_with, to_string}

abbrev pub plain_payload : Str
plain_payload = codes "{\"client\": \"Hexbuffer Dashboard\", \"type\": \"plain_http_test\"}"

unfoldable pub plain_request : Str
unfolding to_string
plain_request =
    codes
      "POST /api/echo HTTP/1.1\r\nHost: 127.0.0.1:8082\r\nContent-Type: application/json\r\nContent-Length: "
    ++ to_string (length plain_payload)
    ++ codes "\r\nConnection: close\r\n\r\n"
    ++ plain_payload

abbrev pub mock_request : Str
mock_request =
    codes
      "GET /mock/synthetic-short-circuit HTTP/1.1\r\nHost: 127.0.0.1:8082\r\nConnection: close\r\n\r\n"

abbrev pub connect_request : Str
connect_request =
    codes "CONNECT secure.internal.local:443 HTTP/1.1\r\nHost: secure.internal.local:443\r\n\r\n"

abbrev pub secure_request : Str
secure_request =
    codes
      "GET /mock/synthetic-short-circuit HTTP/1.1\r\nHost: secure.internal.local\r\nConnection: close\r\n\r\n"

-- A certificate's lines without the marks at its begin and its end.
unfoldable pub pem_base64 : Str → Str
unfolding lines starts_with
pem_base64 pem = concat (kept (lines pem))
  where
    kept : List Str → List Str
    kept [] = []
    kept (l ∷ ls) = let rest = kept ls in if starts_with (codes "-----") l then rest else l ∷ rest

-- What the task of the HTTPS test writes on the connection, and then inside of TLS: the answer to CONNECT must not
-- be empty, the certificate must decode and the handshake succeed.
unfoldable pub https_writes : (answered decoded shaken : Bool) → List Str × List Str
https_writes answered decoded shaken = (
  connect_request ∷ [],
  if answered then (if decoded then (if shaken then secure_request ∷ [] else []) else []) else [],
)
