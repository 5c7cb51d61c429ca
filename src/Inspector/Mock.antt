-- ===== src/Inspector/Mock.antt =====
-- examples/test_app/upstream.rs: the server that the application tests with.
use hexbuffer_proxy.Prelude.{ℕ, Bool, ◌||◌, List, [], ◌∷◌, ◌++◌, Option, if◌then◌else◌, take}
use hexbuffer_proxy.Text.{Bytes, Str, codes, contains, equal, from_utf8_lossy, as_bytes}
use hexbuffer_proxy.Handler.Types.{WebSocketMessage, text, binary, ping, pong, close, frame}
use hexbuffer_proxy.Ws.Relay.{Item, message, failed, finished}
use hexbuffer_proxy.Inspector.Clock.{time_str}

-- Whether the first bytes, at most 512, ask for a WebSocket.
unfoldable pub asks_websocket : Bytes → Bool
unfolding from_utf8_lossy contains
asks_websocket peeked =
    let peek_str = from_utf8_lossy (take 512 peeked) in
    contains (codes "Upgrade: websocket") peek_str || contains (codes "upgrade: websocket") peek_str

-- The loop over what `read.next()` gives, each item with whether a `send` would go well: what is sent.
unfoldable pub echo_loop : List (Item × Bool) → List WebSocketMessage
echo_loop [] = []
echo_loop ((message (text t), sends) ∷ rest) =
    let more = echo_loop rest in
    text (as_bytes (codes "Upstream Echo: ") ++ t) ∷ (if sends then more else [])
echo_loop ((message (close b), sends) ∷ rest) = close b ∷ []
echo_loop ((message (binary b), sends) ∷ rest) = echo_loop rest
echo_loop ((message (ping b), sends) ∷ rest) = echo_loop rest
echo_loop ((message (pong b), sends) ∷ rest) = echo_loop rest
echo_loop ((message (frame b), sends) ∷ rest) = echo_loop rest
echo_loop ((failed, sends) ∷ rest) = []
echo_loop ((finished, sends) ∷ rest) = []

pub record MockResponse : Type 0 where
  pub headers : List (Str × Str)
  pub body : Bytes

abbrev json_type : List (Str × Str)
json_type = (codes "Content-Type", codes "application/json") ∷ []

-- The service, always with status 200. `debug` is `{:?}` of a string, and the time is that of `time_now_str`.
unfoldable pub mock_service : (Str → Str) → Str → Bytes → Option ℕ → MockResponse
unfolding equal as_bytes from_utf8_lossy time_str
mock_service debug path body time =
    if equal path (codes "/api/echo")
    then record {
      headers = json_type;
      body = as_bytes (
          codes "{\"message\": \"Hello from upstream mock server!\", \"received_body\": "
          ++ debug (from_utf8_lossy body)
          ++ codes ", \"timestamp\": \""
          ++ time_str time
          ++ codes "\"}");
    }
    else if equal path (codes "/api/user")
    then record {
      headers = json_type;
      body = codes "{\"id\": 42, \"username\": \"alex\", \"role\": \"admin\", \"verified\": true}";
    }
    else record { headers = []; body = codes "Upstream mock server generic 200 OK" }
