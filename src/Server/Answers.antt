-- ===== src/Server/Answers.antt =====
-- What each request of a connection in a tunnel is answered with.
use hexbuffer_proxy.Prelude.{suc, ◌%◌, ◌^◌, ◌≡◌, refl, true, false, List, [], ◌∷◌, ok, err}
use hexbuffer_proxy.Text.{Str, codes}
use hexbuffer_proxy.Error.{Failure, ProxyError}
use hexbuffer_proxy.Http.{HttpCrate}
use hexbuffer_proxy.Handler.Types.{HttpContext, Request, Response, request, response, HttpHandler}
use hexbuffer_proxy.Wire.Syntax.{HttpSyntax}
use hexbuffer_proxy.Server.Run.{State}
use hexbuffer_proxy.Server.Outside.{Outside, absolute}
use hexbuffer_proxy.Server.Tunnel.{bad_gateway, handle_https_request, answer_https, forward_https}
use hexbuffer_proxy.Server.Upgrade.{handle_https_websocket}
use hexbuffer_proxy.Server.Session.{serve_requests}

module _ (http : HttpCrate) (syntax : HttpSyntax http) {W : Type 0} (outside : Outside http W)
    (handler : HttpHandler http W) (host client_addr : Str) where
  -- The context that the handler is called with.
  abbrev pub tunnel_context : State W → HttpContext
  tunnel_context st = record {
    id = st.request_id;
    host = host;
    client_addr = client_addr;
    is_https = true;
  }

  abbrev pub behind : State W → W → State W
  behind st w = record st { request_id = suc st.request_id % 2 ^ 64; world = w }

  -- The handler lets a request pass, and it has a target and asks for no WebSocket.
  pub record Passes (req : Request http) (st : State W) (sent : Request http) (ctx : HttpContext)
      (w : W) : Type 0 where
    pub passed : Request http
    pub asked :
        handler.handle_request req (tunnel_context st, st.world) ≡ (ok (request passed), (ctx, w))
    pub no_upgrade : outside.is_upgrade_request passed ≡ false
    pub target : absolute http syntax (codes "https://") host passed ≡ ok sent

  -- One answer: the handler's own; a 502 where the handler refuses the request, the server does not answer, or
  -- the handler refuses its response; the server's response as the handler left it; or, to a request for
  -- a WebSocket, that of `handle_https_websocket`.
  pub data Answer (req : Request http) (st : State W) : Response http → State W → Type 0 where
    by_handler :
        (res : Response http) (ctx : HttpContext) (w : W)
        → handler.handle_request req (tunnel_context st, st.world) ≡ (ok (response res), (ctx, w))
        → Answer req st res (behind st w)
    refused :
        (e : ProxyError) (ctx : HttpContext) (w : W)
        → handler.handle_request req (tunnel_context st, st.world) ≡ (err e, (ctx, w))
        → Answer req st (bad_gateway http syntax outside handler) (behind st w)
    unreachable :
        (sent : Request http) (ctx : HttpContext) (w1 w : W) (e : Failure)
        → Passes req st sent ctx w1
        → outside.send_request sent w1 ≡ (err e, w)
        → Answer req st (bad_gateway http syntax outside handler) (behind st w)
    kept_back :
        (sent : Request http) (got : Response http) (ctx ctx' : HttpContext) (w1 w2 w : W)
        (e : ProxyError)
        → Passes req st sent ctx w1
        → outside.send_request sent w1 ≡ (ok got, w2)
        → handler.handle_response got (ctx, w2) ≡ (err e, (ctx', w))
        → Answer req st (bad_gateway http syntax outside handler) (behind st w)
    exchanged :
        (sent : Request http) (got modified : Response http) (ctx ctx' : HttpContext) (w1 w2 w : W)
        → Passes req st sent ctx w1
        → outside.send_request sent w1 ≡ (ok got, w2)
        → handler.handle_response got (ctx, w2) ≡ (ok modified, (ctx', w))
        → Answer req st modified (behind st w)
    upgraded :
        (passed : Request http) (res : Response http) (ctx : HttpContext) (w : W) (s : State W)
        → handler.handle_request req (tunnel_context st, st.world) ≡ (ok (request passed), (ctx, w))
        → outside.is_upgrade_request passed ≡ true
        → handle_https_websocket http syntax outside host ctx passed (behind st w) ≡ (ok res, s)
        → Answer req st res s

  -- The answers to a row of requests.
  pub data Answers : List (Request http) → State W → List (Response http) → State W → Type 0 where
    none_left : (st : State W) → Answers [] st [] st
    answered_first :
        (req : Request http) (reqs : List (Request http)) (res : Response http)
        (responses : List (Response http)) (st st1 st' : State W)
        → Answer req st res st1
        → Answers reqs st1 responses st'
        → Answers (req ∷ reqs) st (res ∷ responses) st'

  handle_https_request-Answer :
      (req : Request http) (st : State W) {a : Response http} {s : State W}
      → Answer req st a s
      → handle_https_request http syntax outside handler host client_addr req st ≡ (ok a, s)
  unfolding handle_https_request answer_https forward_https
  handle_https_request-Answer req st (by_handler res ctx w asked) = rw asked refl
  handle_https_request-Answer req st (refused e ctx w asked) = rw asked refl
  handle_https_request-Answer req st (unreachable sent ctx w1 w e p received) =
      rw (p.asked, p.no_upgrade) (rw p.target (rw received refl))
  handle_https_request-Answer req st (kept_back sent got ctx ctx' w1 w2 w e p received shown) =
      rw (p.asked, p.no_upgrade) (rw p.target (rw received (rw shown refl)))
  handle_https_request-Answer req st
        (exchanged sent got modified ctx ctx' w1 w2 w p received shown) =
      rw (p.asked, p.no_upgrade) (rw p.target (rw received (rw shown refl)))
  handle_https_request-Answer req st (upgraded passed res ctx w s asked up done) =
      rw (asked, up) (rw done refl)

  -- The requests of one connection in a tunnel are answered one after the other, each with its answer in the state that
  -- the one before it left, and the connection ends well: the handler's own answer; a 502 where the handler refuses the
  -- request or the response, or the server does not answer; the server's response as the handler left it; or that of
  -- the upgrade to a WebSocket.
  pub serve_requests-Answers :
      (server_error : Failure → Str) {reqs : List (Request http)} {responses : List (Response http)}
      {st st' : State W}
      → Answers reqs st responses st'
      → serve_requests http syntax outside handler server_error host client_addr reqs st
        ≡ (responses, (ok _, st'))
  unfolding serve_requests
  serve_requests-Answers server_error (none_left s) = refl
  serve_requests-Answers server_error (answered_first req reqs res more s s1 s' one rest) =
      rw (handle_https_request-Answer req s one)
        (rw (serve_requests-Answers server_error rest) refl)
