-- ===== src/Server/Tunnel.antt =====
-- src/https_proxy.rs: `handle_https` up to the TLS handshake, and `handle_https_request`.
use hexbuffer_proxy.Prelude.{
  Bool, true, false, Option, none, some, if◌then◌else◌, Outcome, ok, err, panic, out_of_fuel,
}
use hexbuffer_proxy.Text.{Bytes, Str, codes, split_first}
use hexbuffer_proxy.Error.{Failure}
use hexbuffer_proxy.Http.{HttpCrate}
use hexbuffer_proxy.Handler.Types.{
  HttpContext, full, Request, Response, RequestOrResponse, request, response, HttpHandler,
}
use hexbuffer_proxy.Ca.Tools.{CertTools, Machine}
use hexbuffer_proxy.Ca.Store.{CertificationAuthority}
use hexbuffer_proxy.Ca.Forge.{forge_certificate}
use hexbuffer_proxy.Wire.Syntax.{HttpSyntax}
use hexbuffer_proxy.Server.Conn.{write_all}
use hexbuffer_proxy.Server.Run.{
  Upstream, State, Run, returns, lift, ◌>>=◌, on_client, call_handler, new_context, attempt,
}
use hexbuffer_proxy.Server.Upgrade.{handle_https_websocket}
use hexbuffer_proxy.Server.Outside.{Outside, ask, connect_to, absolute}

abbrev pub established : Bytes
established = codes "HTTP/1.1 200 Connection Established\r\n\r\n"

-- A raw relay with the server, or a TLS server with a certificate and its key for the client.
pub data Tunnel : Type 0 where
  passthrough : Upstream → Tunnel
  intercepted : (host : Str) → Bytes × Bytes → Tunnel

module _ (http : HttpCrate) (syntax : HttpSyntax http) {W : Type 0} (outside : Outside http W)
    (handler : HttpHandler http W) where
  abbrev told : Bool × W → State W → Outcome Failure Bool × State W
  told (b, w) st = (ok b, record st { world = w })

  abbrev pub ask_handler : Str → Run W Bool
  ask_handler host st = told (handler.should_intercept_tls host st.world) st

  -- What the forged certificate makes of the authority, beside the state.
  abbrev pub with_certificate :
      {tools : CertTools}
      → Str
      → Outcome Failure ((Bytes × Bytes) × CertificationAuthority tools × Machine)
      → Outcome Failure (Tunnel × CertificationAuthority tools × Machine)
  with_certificate host (ok (pair, ca, m)) = ok (intercepted host pair, ca, m)
  with_certificate host (err e) = err e
  with_certificate host panic = panic
  with_certificate host out_of_fuel = out_of_fuel

  unfoldable pub open_tunnel :
      (tools : CertTools)
      → CertificationAuthority tools
      → Machine
      → Str
      → Bool
      → Run W (Tunnel × CertificationAuthority tools × Machine)
  unfolding forge_certificate
  open_tunnel tools ca m target false =
      connect_to outside.connect target >>= λ up. returns (passthrough up, ca, m)
  open_tunnel tools ca m target true =
      let host = split_first b':' target in
      lift (with_certificate host (forge_certificate tools ca host m))

  unfoldable pub handle_https :
      (tools : CertTools)
      → CertificationAuthority tools
      → Machine
      → Str
      → Run W (Tunnel × CertificationAuthority tools × Machine)
  unfolding open_tunnel
  handle_https tools ca m target = do
    _ ← on_client (write_all established)
    intercept ← ask_handler (split_first b':' target)
    open_tunnel tools ca m target intercept

  -- Status 502 with the body "Bad Gateway".
  abbrev pub bad_gateway : Response http
  bad_gateway = record { status = 502; headers = syntax.empty; body = full (codes "Bad Gateway") }

  abbrev pub or_bad_gateway : Option (Response http × HttpContext) → Run W (Response http)
  or_bad_gateway none = returns bad_gateway
  or_bad_gateway (some (res, ctx)) = returns res

  abbrev pub behind_upstream : HttpContext → Option (Response http) → Run W (Response http)
  behind_upstream ctx none = returns bad_gateway
  behind_upstream ctx (some res) =
      attempt (call_handler (handler.handle_response res) ctx) >>= or_bad_gateway

  unfoldable pub forward_https : Str → HttpContext → Request http → Run W (Response http)
  unfolding absolute
  forward_https target_host ctx req = do
    req ← lift (absolute http syntax (codes "https://") target_host req)
    res ← attempt (ask (outside.send_request req))
    behind_upstream ctx res

  -- The `match` on the handler's answer.
  unfoldable pub answer_https :
      Str → Option (RequestOrResponse http × HttpContext) → Run W (Response http)
  unfolding forward_https
  answer_https target_host none = returns bad_gateway
  answer_https target_host (some (response res, ctx)) = returns res
  answer_https target_host (some (request req, ctx)) =
      if outside.is_upgrade_request req
      then handle_https_websocket http syntax outside target_host ctx req
      else forward_https target_host ctx req

  unfoldable pub handle_https_request : Str → Str → Request http → Run W (Response http)
  unfolding answer_https
  handle_https_request target_host client_addr req = do
    ctx ← new_context target_host client_addr true
    answer ← attempt (call_handler (handler.handle_request req) ctx)
    answer_https target_host answer
