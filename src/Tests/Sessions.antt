-- ===== src/Tests/Sessions.antt =====
-- Runs of the application's test requests.
use hexbuffer_proxy.Prelude.{◌≡◌, refl, true, [], ◌∷◌, ok}
use hexbuffer_proxy.Text.{
  codes, lines, starts_with, to_string, from_utf8_lossy, split_whitespace, contains_char, as_bytes,
}
use hexbuffer_proxy.Handler.Types.{text, binary, close}
use hexbuffer_proxy.Server.Dispatch.{route, https}
use hexbuffer_proxy.Server.Dispatch
use hexbuffer_proxy.Ws.Relay.{message}
use hexbuffer_proxy.Inspector.Triggers.{
  plain_request, connect_request, pem_base64, https_writes, secure_request,
}
use hexbuffer_proxy.Inspector.Mock.{echo_loop}

-- The test of HTTPS opens a tunnel, the plain one does not.
triggers_routed :
    (route connect_request ≡ ok (https (codes "secure.internal.local:443")))
    × (route plain_request ≡ ok (Dispatch.http plain_request))
unfolding route starts_with from_utf8_lossy split_whitespace plain_request to_string lines
    contains_char
triggers_routed = (refl, refl)

pem_read : pem_base64 (codes "-----BEGIN X-----\nAb\nCd\n-----END X-----\n") ≡ codes "AbCd"
unfolding pem_base64 lines starts_with
pem_read = refl

secure_written : (https_writes true true true).1 ≡ secure_request ∷ []
unfolding https_writes
secure_written = refl

-- Binary messages are not echoed, and nothing is behind a close.
echoed :
    echo_loop (
      (message (text (codes "hi")), true)
      ∷ (message (binary (codes "x")), true)
      ∷ (message (close []), true)
      ∷ (message (text (codes "late")), true)
      ∷ [])
    ≡ text (codes "Upstream Echo: hi") ∷ close [] ∷ []
unfolding echo_loop as_bytes
echoed = refl
