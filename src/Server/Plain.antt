-- ===== src/Server/Plain.antt =====
-- src/http_proxy.rs: `handle_http`, up to where a relay takes the two connections.
use hexbuffer_proxy.Prelude.{ℕ, Bool, true, false, ◌++◌, Option, none, some, if◌then◌else◌}
use hexbuffer_proxy.Text.{Bytes, Str, codes, contains_char}
use hexbuffer_proxy.Http.{HttpCrate}
use hexbuffer_proxy.Handler.Types.{
  HttpContext, Request, RequestOrResponse, Response, request, response, HttpHandler,
}
use hexbuffer_proxy.Ws.Detect.{is_websocket_upgrade, is_websocket_response}
use hexbuffer_proxy.Wire.Syntax.{HttpSyntax}
use hexbuffer_proxy.Wire.Parse.{parse_raw_request, parse_raw_response}
use hexbuffer_proxy.Wire.Serialize.{serialize_request, serialize_response, serialize_response_head}
use hexbuffer_proxy.Server.Conn.{write_all, shutdown, write_body_to_stream}
use hexbuffer_proxy.Server.Run.{
  Upstream, Run, returns, lift, ◌>>=◌, on_client, call_handler, new_context,
}
use hexbuffer_proxy.Server.Host.{extract_host}
use hexbuffer_proxy.Server.Outside.{
  Outside, ask, connect_to, write_upstream, read_upstream, absolute,
}

-- The client has its answer, or a relay takes over with the connection to the server.
pub data Served : Type 0 where
  answered : Served
  relays : HttpContext → Upstream → Served

abbrev pub bad_request : Bytes
bad_request = codes "HTTP/1.1 400 Bad Request\r\nContent-Length: 0\r\nConnection: close\r\n\r\n"

abbrev pub with_http_port : Str → Str
with_http_port host = if contains_char b':' host then host else host ++ codes ":80"

module _ (http : HttpCrate) (syntax : HttpSyntax http) {W : Type 0} (outside : Outside http W)
    (handler : HttpHandler http W) where
  abbrev pub send_and_shut : Bytes → Run W Served
  send_and_shut bytes = do _ ← on_client (write_all bytes); _ ← on_client shutdown; returns answered

  abbrev behind_response : HttpContext → Upstream → Bool → Run W Served
  behind_response ctx up true = returns (relays ctx up)
  behind_response ctx up false = do _ ← on_client shutdown; returns answered

  -- The branch for a WebSocket upgrade.
  unfoldable pub forward_websocket : ℕ → Str → HttpContext → Request http → Run W Served
  forward_websocket buf_size host ctx req = do
    up ← connect_to outside.connect (with_http_port host)
    up ← write_upstream (serialize_request http syntax req) up
    (full_response, up) ← read_upstream buf_size up
    from_server ← lift (parse_raw_response http syntax full_response)
    (modified, ctx) ← call_handler (handler.handle_response from_server) ctx
    _ ← on_client (write_all (serialize_response http syntax modified))
    behind_response ctx up (is_websocket_response http modified)

  -- The head first, then the body piece by piece.
  abbrev pub reply_with : Response http → Run W Served
  reply_with modified = do
    _ ← on_client (write_all (serialize_response_head http syntax modified))
    _ ← on_client (write_body_to_stream http syntax modified.body)
    _ ← on_client shutdown
    returns answered

  -- The branch for all other requests.
  unfoldable pub forward_request : Str → HttpContext → Request http → Run W Served
  forward_request host ctx req = do
    req ← lift (absolute http syntax (codes "http://") host req)
    from_server ← ask (outside.send_request req)
    (modified, ctx) ← call_handler (handler.handle_response from_server) ctx
    reply_with modified

  -- The `match` on the handler's answer.
  unfoldable pub answer_http : ℕ → Str → Bool → RequestOrResponse http × HttpContext → Run W Served
  unfolding forward_websocket forward_request
  answer_http buf_size host is_ws (response res, ctx) =
      send_and_shut (serialize_response http syntax res)
  answer_http buf_size host is_ws (request req, ctx) =
      if is_ws then forward_websocket buf_size host ctx req else forward_request host ctx req

  unfoldable pub serve_http : ℕ → Str → Str → Request http → Run W Served
  unfolding answer_http
  serve_http buf_size client_addr host req = do
    ctx ← new_context host client_addr false
    answer ← call_handler (handler.handle_request req) ctx
    answer_http buf_size host (is_websocket_upgrade http req) answer

  -- The `match` on the host.
  abbrev pub with_host : ℕ → Str → Request http → Option Str → Run W Served
  with_host buf_size client_addr req none = send_and_shut bad_request
  with_host buf_size client_addr req (some host) = serve_http buf_size client_addr host req

  unfoldable pub handle_http : ℕ → Str → Bytes → Run W Served
  handle_http buf_size client_addr request_bytes = do
    req ← lift (parse_raw_request http syntax request_bytes)
    with_host buf_size client_addr req (extract_host http req request_bytes)
