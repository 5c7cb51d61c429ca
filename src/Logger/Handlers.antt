-- ===== src/Logger/Handlers.antt =====
-- examples/proxy.rs: `LoggingHandler`, `PassthroughHandler`, `WsLogger`.
use hexbuffer_proxy.Prelude.{
  ℕ, zero, suc, ◌-◌, ◌%◌, ◌^◌, Bool, true, false, ◌||◌, List, [], ◌∷◌, ◌++◌, some, if◌then◌else◌,
  length, ok,
}
use hexbuffer_proxy.Text.{Bytes, Str, codes, equal, ends_with, to_string, unwrap_or, within}
use hexbuffer_proxy.Http.{HttpCrate}
use hexbuffer_proxy.Handler.Types.{
  HttpContext, Act, pure, Body, full, streaming, Request, Response, RequestOrResponse, request,
  HttpHandler, Direction, client_to_server, server_to_client, WebSocketMessage, text, binary, ping,
  pong, close, frame, WebSocketHandler, default_should_intercept_tls,
}
use hexbuffer_proxy.Builder.Enabled.{Shared}
use hexbuffer_proxy.Wire.Syntax.{HttpSyntax}

-- The memory of the program: the counter of requests, and the lines on standard error, oldest first.
pub record Terminal : Type 0 where
  pub counter : ℕ
  pub lines : List Str

-- `{:>04}`.
unfoldable pub zeros : ℕ → Str
zeros zero = []
zeros (suc n) = b'0' ∷ zeros n

unfoldable pub four_wide : ℕ → Str
unfolding zeros to_string
four_wide n = zeros (4 - length (to_string n)) ++ to_string n

abbrev tag : ℕ → Str
tag id = codes "[#" ++ four_wide id ++ codes "] "

abbrev pub print : Str → Shared Terminal → Shared Terminal
print line w = record w { rest = record w.rest { lines = w.rest.lines ++ line ∷ [] } }

module _ (http : HttpCrate) (syntax : HttpSyntax http) where
  abbrev body_size : Body http → ℕ
  body_size (full b) = length b
  body_size (streaming boxed) = 0

  -- `is_server_error`, `is_client_error`, `is_redirection`.
  abbrev icon : ℕ → Str
  icon status =
      if within 500 599 status
      then 0x26A0 ∷ 0xFE0F ∷ []
      else if within 400 499 status
      then codes "✗"
      else if within 300 399 status
      then codes "↪"
      else codes "←"

  -- `Display` of a `StatusCode`.
  abbrev status_text : ℕ → Str
  status_text status =
      to_string status
      ++ codes " "
      ++ unwrap_or (syntax.canonical_reason status) (codes "<unknown status code>")

  abbrev pub logged_request : HttpContext → Request http → Str
  logged_request ctx req =
      tag ctx.id
      ++ (if ctx.is_https then codes "🔒" else codes "🌐")
      ++ codes " → "
      ++ req.method
      ++ codes " "
      ++ syntax.uri_to_string req.uri

  abbrev pub logged_response : HttpContext → Response http → Str
  logged_response ctx res =
      tag ctx.id
      ++ icon res.status
      ++ codes " "
      ++ status_text res.status
      ++ codes " ("
      ++ to_string (body_size res.body)
      ++ codes " bytes)"

  -- `fetch_add` wraps.
  unfoldable pub log_request : Request http → Act (Shared Terminal) (RequestOrResponse http)
  unfolding four_wide to_string
  log_request req (ctx, w) =
      let ctx' = record ctx { id = w.rest.counter } in
      let counted = record w { rest = record w.rest { counter = suc w.rest.counter % 2 ^ 64 } } in
      (ok (request req), (ctx', print (logged_request ctx' req) counted))

  unfoldable pub log_response : Response http → Act (Shared Terminal) (Response http)
  unfolding four_wide to_string
  log_response res (ctx, w) = (ok res, (ctx, print (logged_response ctx res) w))

  unfoldable pub logging_handler : HttpHandler http (Shared Terminal)
  unfolding log_request log_response
  logging_handler = record {
    handle_request = log_request;
    handle_response = log_response;
    should_intercept_tls = default_should_intercept_tls http;
  }

-- Whether a host is one of the domains or below one of them.
unfoldable pub is_passed : List Str → Str → Bool
unfolding equal ends_with
is_passed [] host = false
is_passed (p ∷ ps) host =
    let rest = is_passed ps host in
    if equal host p || ends_with (codes "." ++ p) host then true else rest

module _ (http : HttpCrate) {W : Type 0} where
  abbrev decision : Bool → W → Bool × W
  decision true w = (false, w)
  decision false w = (true, w)

  unfoldable pub passthrough_handler : List Str → HttpHandler http W
  unfolding is_passed
  passthrough_handler passthrough = record {
    handle_request = λ req. pure (request req);
    handle_response = λ res. pure res;
    should_intercept_tls = λ host w. decision (is_passed passthrough host) w;
  }

module _ (http : HttpCrate) (syntax : HttpSyntax http) where
  abbrev arrow : Direction → Str
  arrow client_to_server = codes "C→S"
  arrow server_to_client = codes "S→C"

  -- `close_reason` is `{:?}` of the reason.
  abbrev pub desc : (Bytes → Str) → WebSocketMessage → Str
  desc close_reason (text t) = codes "text(" ++ to_string (length t) ++ codes " chars)"
  desc close_reason (binary b) = codes "binary(" ++ to_string (length b) ++ codes " bytes)"
  desc close_reason (ping b) = codes "ping"
  desc close_reason (pong b) = codes "pong"
  desc close_reason (close b) = codes "close(" ++ close_reason b ++ codes ")"
  desc close_reason (frame b) = codes "other"

  unfoldable pub ws_logger : (Bytes → Str) → WebSocketHandler http (Shared Terminal)
  unfolding four_wide to_string
  ws_logger close_reason = record {
    on_upgrade = λ req st. (
      req,
      (
        st.0,
        print (tag st.0.id ++ codes "🔌 WebSocket upgrade: " ++ syntax.uri_to_string req.uri) st.1,
      ),
    );
    on_frame = λ msg direction st. (
      some msg,
      (
        st.0,
        print
            (tag st.0.id ++ codes "🔄 WS " ++ arrow direction ++ codes " " ++ desc close_reason msg)
            st.1,
      ),
    );
    on_close = λ st. (st.0, print (tag st.0.id ++ codes "🔌 WebSocket closed") st.1);
  }
