-- ===== src/Tests/Forwarding.antt =====
-- A run of a client's connection with a plain request that the server answers.
use hexbuffer_proxy.Prelude.{ℕ, suc, ◌≡◌, refl, [], ◌∷◌, none, true, false, ok, err, arith, length}
use hexbuffer_proxy.Text.{codes, equal, as_bytes, starts_with}
use hexbuffer_proxy.Text.Equal.{equal_self}
use hexbuffer_proxy.Error.{from_external}
use hexbuffer_proxy.Handler.Types.{Response, full, request, HttpHandler}
use hexbuffer_proxy.Ws.Detect.{is_websocket_upgrade}
use hexbuffer_proxy.Reader.Stream.{closed}
use hexbuffer_proxy.Wire.Serialize.{serialize_headers, serialize_request}
use hexbuffer_proxy.Server.Outside.{Outside, absolute}
use hexbuffer_proxy.Server.Blocked.{answered_with}
use hexbuffer_proxy.Server.Refused.{plain_context}
use hexbuffer_proxy.Server.Client.{Later, done, serve_client}
use hexbuffer_proxy.Server.Forwarded.{whole, Exchange}
use hexbuffer_proxy.Server.Exchanged.{IsSendable, serve_client-Exchange}
use hexbuffer_proxy.Tests.Instances.{tools}
use hexbuffer_proxy.Tests.Syntax.{fresh, state, small, small_syntax, small_laws, path-IsToken}
use hexbuffer_proxy.Tests.Serving.{plain_request, value-IsPlain}
use hexbuffer_proxy.Tests.Certifying.{authority, started}

-- One that hides the status of responses.
abbrev hider : HttpHandler small ℕ
hider = record {
  handle_request = λ req st. (ok (request req), st);
  handle_response = λ res st. (ok (record res { status = 204 }), st);
  should_intercept_tls = λ host w. (true, w);
}

abbrev small_outside : Outside small ℕ
small_outside = record {
  send_request =
      λ req w. (ok (record { status = 200; headers = []; body = full (codes "ok") }), suc w);
  connect = λ target w. (err (from_external (codes "refused")), w);
  is_upgrade_request = λ req. false;
  upgrade = λ req. ok (record { status = 101; headers = req.headers; body = full [] });
  with_wss = λ u. ok u;
  path_and_query = λ u. none;
}

abbrev hidden : Response small
hidden = record { status = 204; headers = []; body = full (codes "ok") }

exchange :
    Exchange small small_syntax small_outside hider
      (plain_context (codes "a.example") (codes "127.0.0.1:0") state, 0)
      (codes "a.example")
      plain_request
      hidden
      1
unfolding is_websocket_upgrade absolute equal
exchange = record {
  passed = plain_request;
  sent = record plain_request { uri = 18 };
  got = record hidden { status = 200 };
  ctx = plain_context (codes "a.example") (codes "127.0.0.1:0") state;
  ctx' = plain_context (codes "a.example") (codes "127.0.0.1:0") state;
  w1 = 0;
  w2 = 1;
  plain = refl;
  asked = refl;
  target = refl;
  received = refl;
  shown = refl;
}

printed_length : length (serialize_request small small_syntax plain_request) ≡ 42
unfolding serialize_request serialize_headers as_bytes
printed_length = refl

sendable : IsSendable small small_syntax plain_request (codes "a.example")
unfolding starts_with equal
sendable = record {
  body = 255 ∷ codes "\r\n\r\n";
  method = equal_self (codes "GET");
  plain_http = refl;
  target = path-IsToken 2;
  in_memory = refl;
  values = (value-IsPlain, _);
  host_value = codes "a.example";
  named = refl;
  host_text = refl;
  fits = omega (arith, printed_length);
}

abbrev nothing_later : Later small
nothing_later = record { handshake = ok _; requests = []; frames = λ rest. []; copying = ok _ }

serve_client-Exchange_example :
    serve_client small small_syntax small_outside hider none nothing_later tools
      (λ e. codes "service failed")
      16384
      none
      authority
      started
      (record {
        incoming = serialize_request small small_syntax plain_request;
        arrivals = [];
        ending = closed;
      })
      state
    ≡ (
      ok (done, authority, started),
      record state {
        client = answered_with (whole small small_syntax hidden) fresh;
        request_id = 2;
        world = 1;
      },
    )
serve_client-Exchange_example =
    serve_client-Exchange small small_syntax small_outside hider none nothing_later tools authority
      started (λ e. codes "service failed") 16384 none plain_request (codes "a.example") closed
      state hidden 1 small_laws sendable refl exchange refl
