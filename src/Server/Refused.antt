-- ===== src/Server/Refused.antt =====
-- Plain requests that end in an error.
use hexbuffer_proxy.Prelude.{ℕ, suc, ◌%◌, ◌^◌, ◌≡◌, refl, ◌∙◌, false, some, ok, err}
use hexbuffer_proxy.Text.{Bytes, Str, codes}
use hexbuffer_proxy.Error.{Failure, from_proxy, ProxyError}
use hexbuffer_proxy.Http.{HttpCrate}
use hexbuffer_proxy.Handler.Types.{HttpContext, Request, Response, request, HttpHandler}
use hexbuffer_proxy.Ws.Detect.{is_websocket_upgrade}
use hexbuffer_proxy.Wire.Syntax.{HttpSyntax}
use hexbuffer_proxy.Wire.Parse.{parse_raw_request}
use hexbuffer_proxy.Server.Run.{State}
use hexbuffer_proxy.Server.Host.{extract_host}
use hexbuffer_proxy.Server.Outside.{Outside, absolute}
use hexbuffer_proxy.Server.Plain.{answer_http, forward_request, serve_http, handle_http}
use hexbuffer_proxy.Server.Blocked.{parsed_lem}

-- The context that the handler is first called with.
abbrev pub plain_context : {W : Type 0} → Str → Str → State W → HttpContext
plain_context host client_addr st = record {
  id = st.request_id;
  host = host;
  client_addr = client_addr;
  is_https = false;
}

module _ (http : HttpCrate) (syntax : HttpSyntax http) {W : Type 0} (outside : Outside http W)
    (handler : HttpHandler http W) where
  -- Who makes a plain request fail, with which error, and the world behind it: the handler of the request, the
  -- server, or the handler of the response. The last two are about requests that are no WebSocket upgrade.
  pub data Refusal (s : HttpContext × W) (host : Str) (req : Request http) (f : Failure) (w : W)
      : Type 0 where
    by_request :
        (e : ProxyError) (ctx : HttpContext)
        → handler.handle_request req s ≡ (err e, (ctx, w))
        → from_proxy e ≡ f
        → Refusal s host req f w
    by_server :
        (req' req'' : Request http) (ctx : HttpContext) (w' : W)
        → is_websocket_upgrade http req ≡ false
        → handler.handle_request req s ≡ (ok (request req'), (ctx, w'))
        → absolute http syntax (codes "http://") host req' ≡ ok req''
        → outside.send_request req'' w' ≡ (err f, w)
        → Refusal s host req f w
    by_response :
        (req' req'' : Request http) (res : Response http) (e : ProxyError) (ctx ctx' : HttpContext)
        (w' w'' : W)
        → is_websocket_upgrade http req ≡ false
        → handler.handle_request req s ≡ (ok (request req'), (ctx, w'))
        → absolute http syntax (codes "http://") host req' ≡ ok req''
        → outside.send_request req'' w' ≡ (ok res, w'')
        → handler.handle_response res (ctx, w'') ≡ (err e, (ctx', w))
        → from_proxy e ≡ f
        → Refusal s host req f w

  serve_http_refused :
      (buf_size : ℕ) (client_addr host : Str) (req : Request http) (st : State W) (f : Failure)
      (w : W)
      → Refusal (plain_context host client_addr st, st.world) host req f w
      → serve_http http syntax outside handler buf_size client_addr host req st
        ≡ (err f, record st { request_id = suc st.request_id % 2 ^ 64; world = w })
  unfolding serve_http answer_http forward_request
  serve_http_refused buf_size client_addr host req st f w (by_request e ctx refused same) =
      rw (refused, same) refl
  serve_http_refused buf_size client_addr host req st f w
        (by_server req' req'' ctx w' plain asked target down) =
      rw (asked, plain) (rw target (rw down refl))
  serve_http_refused buf_size client_addr host req st f w
        (by_response req' req'' res e ctx ctx' w' w'' plain asked target up refused same) =
      rw (asked, plain) (rw target (rw up (rw (refused, same) refl)))

  -- A plain request that the handler refuses, whose server cannot be reached, or whose response the
  -- handler refuses, ends in that error. Nothing is written to the client, no status either, and
  -- `shutdown` is not called. Of the state only the next request's number and the world change.
  pub handle_http_refused :
      (buf_size : ℕ) (client_addr host : Str) (bytes : Bytes) (req : Request http) (st : State W)
      (f : Failure) (w : W)
      → parse_raw_request http syntax bytes ≡ ok req
      → extract_host http req bytes ≡ some host
      → Refusal (plain_context host client_addr st, st.world) host req f w
      → handle_http http syntax outside handler buf_size client_addr bytes st
        ≡ (err f, record st { request_id = suc st.request_id % 2 ^ 64; world = w })
  handle_http_refused buf_size client_addr host bytes req st f w parsed found refusal =
      parsed_lem http syntax outside handler buf_size client_addr bytes req st parsed
      ∙ rw found (serve_http_refused buf_size client_addr host req st f w refusal)
