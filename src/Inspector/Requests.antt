-- ===== src/Inspector/Requests.antt =====
-- examples/test_app/handlers.rs: `InspectorHttpHandler`.
use hexbuffer_proxy.Prelude.{
  ℕ, Bool, true, false, ◌||◌, List, [], ◌∷◌, ◌++◌, Option, none, some, ◌==◌, if◌then◌else◌, Outcome,
  ok, err, panic, out_of_fuel,
}
use hexbuffer_proxy.Text.{Bytes, Str, codes, contains, equal, from_utf8_lossy, and_then, unwrap_or}
use hexbuffer_proxy.Error.{ProxyError}
use hexbuffer_proxy.Http.{HttpCrate, get}
use hexbuffer_proxy.Handler.Types.{
  HttpContext, Act, Body, full, streaming, into_bytes, Request, Response, RequestOrResponse,
  request, response, HttpHandler, default_should_intercept_tls,
}
use hexbuffer_proxy.Builder.Enabled.{Shared}
use hexbuffer_proxy.Wire.Syntax.{HttpSyntax}
use hexbuffer_proxy.Inspector.Clock.{instant_now, elapsed_ms, time_now_str}
use hexbuffer_proxy.Inspector.Traffic.{
  HeaderEntry, TrafficRecord, Metadata, find, discard, put, App, record_traffic,
}
use hexbuffer_proxy.Inspector.Web.{HttpMore, header_entries}

abbrev pub mock_path : Str
mock_path = codes "/mock/synthetic-short-circuit"

abbrev pub mock_json : Str
mock_json =
    codes
      "{\"mocked\": true, \"message\": \"Synthetic response generated directly by hexbuffer-proxy without contacting upstream!\", \"status\": \"intercepted_and_short_circuited\"}"

abbrev pub is_port : Option ℕ → Bool
is_port none = false
is_port (some port) = port == 8081

abbrev pub protocol_of : HttpContext → Str
protocol_of ctx = if ctx.is_https then codes "HTTPS" else codes "HTTP"

-- The response headers of the mock, as the record shows them.
abbrev mock_entries : List HeaderEntry
mock_entries =
    record { name = codes "Content-Type"; value = codes "application/json" }
    ∷ record { name = codes "X-Hexbuffer-Mock"; value = codes "active" }
    ∷ []

module _ (http : HttpCrate) (syntax : HttpSyntax http) (more : HttpMore http) where
  -- The traffic of the dashboard itself, by host or by port; a response is told by its host alone.
  unfoldable pub is_dashboard : HttpContext → Request http → Bool
  unfolding contains
  is_dashboard ctx req = contains (codes ":8081") ctx.host || is_port (more.port_u16 req.uri)

  abbrev pub mark_request : Request http → Request http
  mark_request req = record req {
    headers = more.insert req.headers (codes "x-hexbuffer-intercepted") (codes "true");
  }

  abbrev pub body_text : Body http → Str
  body_text (full b) = from_utf8_lossy b
  body_text (streaming boxed) = codes "<streaming>"

  abbrev pub mock_response : Response http
  mock_response = record {
    status = 200;
    headers =
        syntax.append (syntax.append syntax.empty (codes "content-type") (codes "application/json"))
          (codes "x-hexbuffer-mock") (codes "active");
    body = full mock_json;
  }

  -- The answer to a request for the mock, which is recorded. The arguments are the request as marked, its start, and
  -- the state.
  unfoldable pub answer_mock : Request http → ℕ → Act (Shared App) (RequestOrResponse http)
  unfolding record_traffic
  answer_mock req start (ctx, w) =
      let (timestamp, clock) = time_now_str w.rest.clock in
      let (duration, clock) = elapsed_ms start clock in
      let r : TrafficRecord = record {
        id = ctx.id;
        timestamp = timestamp;
        protocol = protocol_of ctx;
        method = req.method;
        url = syntax.uri_to_string req.uri;
        status = 200;
        status_text = codes "OK (Synthetic Mock)";
        duration_ms = duration;
        client_addr = ctx.client_addr;
        req_headers = header_entries http req.headers;
        res_headers = mock_entries;
        req_body = body_text req.body;
        res_body = mock_json;
        short_circuited = true;
        ws_frames = [];
      } in
      (
        ok (response mock_response),
        (ctx, record w { rest = record_traffic r (record w.rest { clock = clock }) }),
      )

  -- Any other request waits for its response.
  unfoldable pub note_request : Request http → ℕ → Act (Shared App) (RequestOrResponse http)
  note_request req start (ctx, w) =
      let entry : Metadata = (start, header_entries http req.headers, body_text req.body) in
      (
        ok (request req),
        (ctx, record w { rest = record w.rest { req_start = put ctx.id entry w.rest.req_start } }),
      )

  unfoldable pub inspect_request : Request http → Act (Shared App) (RequestOrResponse http)
  unfolding answer_mock note_request equal
  inspect_request req (ctx, w) =
      let (start, clock) = instant_now w.rest.clock in
      let st : HttpContext × Shared App =
        (ctx, record w { rest = record w.rest { clock = clock } }) in
      if is_dashboard ctx req
      then (ok (request req), (ctx, w))
      else if equal (more.path req.uri) mock_path
      then answer_mock (mark_request req) start st
      else note_request (mark_request req) start st

  -- What was kept of the request, or a start of now and nothing else.
  abbrev pub entry_or_now : Option Metadata → App → Metadata × App
  entry_or_now (some entry) app = (entry, app)
  entry_or_now none app =
      let (now, clock) = instant_now app.clock in ((now, [], []), record app { clock = clock })

  abbrev pub mark_response : Response http → Response http
  mark_response res = record res {
    headers = more.insert res.headers (codes "x-hexbuffer-response-header") (codes "processed");
  }

  abbrev pub response_url : HttpContext → http.Headers → Str
  response_url ctx headers =
      codes "http"
      ++ (if ctx.is_https then codes "s" else [])
      ++ codes "://"
      ++ ctx.host
      ++ unwrap_or (and_then (get http headers (codes "x-original-uri")) http.to_str) (codes "/")

  -- What follows once the body is read: the record, and the response with its body in memory. The arguments are the
  -- response as marked, what was kept of its request, and the time that it took.
  unfoldable pub record_response :
      Response http
      → Metadata
      → ℕ
      → Outcome ProxyError Bytes
      → HttpContext × Shared App
      → Outcome ProxyError (Response http) × (HttpContext × Shared App)
  unfolding record_traffic
  record_response res (start, req_headers, req_body) duration (ok body_bytes) (ctx, w) =
      let (timestamp, clock) = time_now_str w.rest.clock in
      let r : TrafficRecord = record {
        id = ctx.id;
        timestamp = timestamp;
        protocol = protocol_of ctx;
        method = codes "FORWARD";
        url = response_url ctx res.headers;
        status = res.status;
        status_text = unwrap_or (syntax.canonical_reason res.status) (codes "Unknown");
        duration_ms = duration;
        client_addr = ctx.client_addr;
        req_headers = req_headers;
        res_headers = header_entries http res.headers;
        req_body = req_body;
        res_body = from_utf8_lossy body_bytes;
        short_circuited = false;
        ws_frames = [];
      } in
      (
        ok (record res { body = full body_bytes }),
        (ctx, record w { rest = record_traffic r (record w.rest { clock = clock }) }),
      )
  record_response res entry duration (err e) st = (err e, st)
  record_response res entry duration panic st = (panic, st)
  record_response res entry duration out_of_fuel st = (out_of_fuel, st)

  unfoldable pub inspect_response : Response http → Act (Shared App) (Response http)
  unfolding record_response contains find discard into_bytes
  inspect_response res (ctx, w) =
      let app = record w.rest { req_start = discard ctx.id w.rest.req_start } in
      let (entry, app) = entry_or_now (find ctx.id w.rest.req_start) app in
      let (duration, clock) = elapsed_ms entry.0 app.clock in
      let st : HttpContext × Shared App = (ctx, record w { rest = record app { clock = clock } }) in
      if contains (codes ":8081") ctx.host
      then (ok res, (ctx, w))
      else record_response (mark_response res) entry duration (into_bytes http res.body) st

  unfoldable pub inspector_http_handler : HttpHandler http (Shared App)
  unfolding inspect_request inspect_response
  inspector_http_handler = record {
    handle_request = inspect_request;
    handle_response = inspect_response;
    should_intercept_tls = default_should_intercept_tls http;
  }
