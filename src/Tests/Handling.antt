-- ===== src/Tests/Handling.antt =====
-- Runs of the builder, its handler stack and the WebSocket relays.
use hexbuffer_proxy.Prelude.{
  ℕ, suc, ◌+◌, List, ◌≡◌, ◌≢◌, refl, true, false, [], ◌∷◌, none, some, ok,
}
use hexbuffer_proxy.Text.{codes}
use hexbuffer_proxy.Handler.Types.{
  HttpContext, HttpHandler, full, response, pure, text, close, client_to_server, server_to_client,
  WebSocketHandler,
}
use hexbuffer_proxy.Handler.Noop.{noop_handler}
use hexbuffer_proxy.Builder.Stack.{stack_intercept, handler_stack}
use hexbuffer_proxy.Builder.Enabled.{Shared, load, enabled_wrapper_handler}
use hexbuffer_proxy.Builder.Proxy.{
  ProxyBuilder, Proxy, calls, build, enable, disable, add_http_handler, with_http_handler,
  with_addr, chosen_ca,
}
use hexbuffer_proxy.Builder.Assembly.{build_toggle, calls_reset}
use hexbuffer_proxy.Ca.Store.{CertificationAuthority, build_ca_params}
use hexbuffer_proxy.Tests.Instances.{http, tools, machine}
use hexbuffer_proxy.Ws.Relay.{Event, message, relay_upgraded, stopped}
use hexbuffer_proxy.Ws.Passed.{relay_upgraded-passed}

abbrev World : Type 0
World = Shared ℕ

abbrev world : World
world = record { flag = λ c. false; flags = 0; rest = 0 }

-- One that answers every request itself, and keeps its hands off the TLS of one host.
abbrev blocker : HttpHandler http World
blocker = record {
  handle_request = λ req. pure (response (record { status = 403; headers = []; body = full [] }));
  handle_response = λ res. pure (record res { status = 500 });
  should_intercept_tls = λ host w. (false, w);
}

abbrev noop : HttpHandler http World
unfolding noop_handler
noop = noop_handler http

abbrev authority : CertificationAuthority tools
authority = record {
  ca_params = build_ca_params;
  ca_key = 7;
  ca_cert_pem = codes "pem";
  cert_cache = [];
}

-- A builder with an authority and two handlers; its flag is the first cell.
abbrev builder : ProxyBuilder http tools ℕ
builder = record {
  addr = codes "127.0.0.1:8080";
  ca = some authority;
  handlers = noop ∷ blocker ∷ [];
  ws_handler = none;
  request_buffer_size = 16384;
  cert_dir = none;
  enabled = 0;
}

abbrev proxy : Proxy http tools ℕ
proxy = record {
  addr = codes "127.0.0.1:8080";
  ca = authority;
  handler = enabled_wrapper_handler http (handler_stack http (noop ∷ blocker ∷ [])) 0;
  ws_handler = none;
  request_buffer_size = 16384;
  enabled = 0;
}

built : build http tools ℕ builder machine ≡ ok (proxy, machine)
unfolding build chosen_ca
built = refl

build_toggle_example :
    (proxy.handler.should_intercept_tls (codes "a.example") (disable http tools ℕ proxy world)
      ≡ (false, disable http tools ℕ proxy world))
    × (proxy.handler.should_intercept_tls (codes "a.example") (enable http tools ℕ proxy world)
        ≡ stack_intercept http
            (noop ∷ blocker ∷ [])
            (codes "a.example")
            (enable http tools ℕ proxy world))
    × ((other : ℕ)
        → other ≢ 0
        → (load other (disable http tools ℕ proxy world) ≡ load other world)
          × (load other (enable http tools ℕ proxy world) ≡ load other world))
build_toggle_example = build_toggle http tools ℕ builder machine built (codes "a.example") world

calls_reset_example :
    (calls http tools ℕ
      (add_http_handler blocker
        ∷ with_http_handler noop
        ∷ with_addr (codes "[::1]:1")
        ∷ add_http_handler blocker
        ∷ [])
      (builder, world)).0.handlers
    ≡ noop ∷ blocker ∷ []
calls_reset_example =
    calls_reset http tools ℕ (add_http_handler blocker ∷ [])
      (with_addr (codes "[::1]:1") ∷ add_http_handler blocker ∷ []) noop (builder, world) _

-- A message of the client, the server's close, and what comes too late.
abbrev events : List Event
events =
    (client_to_server, message (text (codes "hi")))
    ∷ (server_to_client, message (close []))
    ∷ (client_to_server, message (text (codes "late")))
    ∷ []

abbrev context : HttpContext × World
context = (
  record { id = 1; host = codes "a.example"; client_addr = codes "127.0.0.1:1"; is_https = true },
  world,
)

-- It drops the client's messages and counts what it sees.
abbrev counter : WebSocketHandler http World
counter = record {
  on_upgrade = λ req st. (req, st);
  on_frame = λ msg direction st. (
    elim direction [ client_to_server ↦ none | server_to_client ↦ some msg ],
    (st.0, record st.1 { rest = suc st.1.rest }),
  );
  on_close = λ st. (st.0, record st.1 { rest = st.1.rest + 100 });
}

relay_upgraded-passed_example : relay_upgraded http counter events context ≡ (
  record { to_client = close [] ∷ []; to_server = [] },
  (context.0, record world { rest = 102 }),
  stopped,
)
relay_upgraded-passed_example = relay_upgraded-passed http counter events context
