-- ===== src/Server/Upgrade.antt =====
-- src/ws_proxy.rs: `handle_https_websocket` and the task that it starts.
use hexbuffer_proxy.Prelude.{
  Bool, true, false, List, [], ◌∷◌, ◌++◌, Option, none, some, if◌then◌else◌, Outcome, ok, err,
  panic, out_of_fuel, map_err,
}
use hexbuffer_proxy.Text.{Str, codes, unwrap_or, and_then}
use hexbuffer_proxy.Error.{Failure, message}
use hexbuffer_proxy.Http.{HttpCrate, get}
use hexbuffer_proxy.Handler.Types.{HttpContext, full, Request, Response, WebSocketHandler}
use hexbuffer_proxy.Wire.Syntax.{HttpSyntax, append_all}
use hexbuffer_proxy.Wire.Parse.{add_headers}
use hexbuffer_proxy.Server.Run.{Task, Run, returns, lift, ◌>>=◌}
use hexbuffer_proxy.Server.Outside.{Outside}
use hexbuffer_proxy.Ws.Relay.{Event, Sinks, Status, relay_upgraded, relay_raw_upgraded}

-- What the task asks of the outside: a random key, the client's side once it is upgraded, the server's
-- side, and what `select!` takes next.
pub record WebSockets (http : HttpCrate) (W : Type 0) : Type 0 where
  pub generate_key : W → Str × W
  pub client_upgrades : W → Bool × W
  pub server_connects : http.Uri → http.Headers → W → Bool × W
  pub events : W → List Event

-- How the task ends: with a side that did not come up, or a relay.
pub data Relayed : Type 0 where
  upgrade_error connect_error : Relayed
  relayed : Sinks → Status → Relayed

module _ (http : HttpCrate) (syntax : HttpSyntax http) {W : Type 0} (outside : Outside http W) where
  -- The first two blocks: an absolute target, then the scheme `wss`.
  unfoldable pub websocket_target : Str → Request http → Outcome Failure (Request http)
  websocket_target target_host req =
      let uri = codes "https://" ++ target_host ++ syntax.uri_to_string req.uri in
      if syntax.has_scheme req.uri then with_scheme req.uri else elim (syntax.parse_uri uri) [
        | some u ↦ with_scheme u
        | none ↦ err (message (codes "[ws] invalid absolute URI: " ++ syntax.uri_error uri))
      ]
    where
      with_scheme : http.Uri → Outcome Failure (Request http)
      with_scheme u = elim (outside.with_wss u) [
        | ok v ↦ ok (record req { uri = v })
        | err e ↦ err (message (codes "[ws] invalid URI: " ++ e))
        | panic ↦ panic
        | out_of_fuel ↦ out_of_fuel
      ]

  -- The answer to the client: status and headers of the upgrade, and no body.
  abbrev pub client_response : Response http → Response http
  client_response res = record {
    status = res.status;
    headers = append_all http syntax (http.iter res.headers) syntax.empty;
    body = full [];
  }

  abbrev text_of : Request http → Str → Option Str
  text_of req name = and_then (get http req.headers name) http.to_str

  abbrev pub task_for : Str → HttpContext → Request http → Task
  task_for target_host ctx req = record {
    target_host = target_host;
    path = unwrap_or (outside.path_and_query req.uri) (codes "/");
    origin = text_of req (codes "origin");
    cookie = text_of req (codes "cookie");
    ctx_id = ctx.id;
    ctx_host = ctx.host;
  }

  abbrev spawn : Task → Run W (Unit {0})
  spawn task st = (ok _, record st { spawned = st.spawned ++ task ∷ [] })

  unfoldable pub handle_https_websocket : Str → HttpContext → Request http → Run W (Response http)
  unfolding websocket_target
  handle_https_websocket target_host ctx req = do
    req ← lift (websocket_target target_host req)
    res ← lift (map_err (λ e. message (codes "[ws] upgrade failed: " ++ e)) (outside.upgrade req))
    _ ← spawn (task_for target_host ctx req)
    returns (client_response res)

  abbrev optional : Str → Option Str → List (Str × Str)
  optional name none = []
  optional name (some value) = (name, value) ∷ []

  -- The request to the server, built from scratch; `expect` panics on what is no URI or header.
  unfoldable pub upgrade_request : Task → Str → Outcome Failure (http.Uri × http.Headers)
  unfolding add_headers
  upgrade_request task key =
      let headers =
        add_headers http syntax
          ((codes "Host", task.target_host)
            ∷ (codes "Upgrade", codes "websocket")
            ∷ (codes "Connection", codes "Upgrade")
            ∷ (codes "Sec-WebSocket-Version", codes "13")
            ∷ (codes "Sec-WebSocket-Key", key)
            ∷ (optional (codes "Origin") task.origin ++ optional (codes "Cookie") task.cookie))
          syntax.empty in
      elim (syntax.parse_uri (codes "wss://" ++ task.target_host ++ task.path)) [
        | none ↦ panic
        | some u ↦ elim headers [ none ↦ panic | some h ↦ ok (u, h) ]
      ]

  module _ (sockets : WebSockets http W) where
    -- The relay, by the handler if there is one, with a context of its own.
    unfoldable pub relay_task : Option (WebSocketHandler http W) → Task → W → Relayed × W
    unfolding relay_upgraded relay_raw_upgraded
    relay_task none task w =
        let (sinks, status) = relay_raw_upgraded (sockets.events w) in (relayed sinks status, w)
    relay_task (some handler) task w =
        let ctx : HttpContext = record {
          id = task.ctx_id;
          host = task.ctx_host;
          client_addr = codes "0.0.0.0:0";
          is_https = true;
        } in
        let (sinks, st, status) = relay_upgraded http handler (sockets.events w) (ctx, w) in
        (relayed sinks status, st.1)

    abbrev pub connected : Option (WebSocketHandler http W) → Task → Bool × W → Relayed × W
    connected ws_handler task (false, w) = (connect_error, w)
    connected ws_handler task (true, w) = relay_task ws_handler task w

    abbrev pub client_up :
        Option (WebSocketHandler http W) → Task → http.Uri × http.Headers → Bool × W → Relayed × W
    client_up ws_handler task (uri, headers) (false, w) = (upgrade_error, w)
    client_up ws_handler task (uri, headers) (true, w) =
        connected ws_handler task (sockets.server_connects uri headers w)

    -- The task: the request first, then the client's side, then the server's.
    abbrev pub started :
        Option (WebSocketHandler http W)
        → Task
        → Outcome Failure (http.Uri × http.Headers)
        → W
        → Outcome Failure Relayed × W
    started ws_handler task (ok r) w =
        let (out, w') = client_up ws_handler task r (sockets.client_upgrades w) in (ok out, w')
    started ws_handler task (err e) w = (err e, w)
    started ws_handler task panic w = (panic, w)
    started ws_handler task out_of_fuel w = (out_of_fuel, w)

    unfoldable pub websocket_task :
        Option (WebSocketHandler http W) → Task → W → Outcome Failure Relayed × W
    unfolding upgrade_request relay_task
    websocket_task ws_handler task w =
        let (key, w') = sockets.generate_key w in
        started ws_handler task (upgrade_request task key) w'
