-- ===== src/Server/Relays.antt =====
-- The relay of a WebSocket inside a tunnel, with and without a handler.
use hexbuffer_proxy.Prelude.{
  ◌≡◌, refl, sym, ap, Bool, true, false, Option, none, some, Outcome, ok, err, panic, out_of_fuel,
}
use hexbuffer_proxy.Text.{codes}
use hexbuffer_proxy.Error.{Failure}
use hexbuffer_proxy.Http.{HttpCrate}
use hexbuffer_proxy.Handler.Types.{HttpContext, WebSocketHandler}
use hexbuffer_proxy.Handler.Noop.{noop_websocket_handler}
use hexbuffer_proxy.Wire.Syntax.{HttpSyntax}
use hexbuffer_proxy.Server.Run.{Task}
use hexbuffer_proxy.Server.Outside.{Outside}
use hexbuffer_proxy.Server.Upgrade.{
  WebSockets, relayed, upgrade_request, relay_task, connected, client_up, started, websocket_task,
}
use hexbuffer_proxy.Ws.Passed.{relay_raw_upgraded-noop}

module _ (http : HttpCrate) (syntax : HttpSyntax http) {W : Type 0} (outside : Outside http W)
    (sockets : WebSockets http W) (task : Task) where
  abbrev quiet : Option (WebSocketHandler http W)
  quiet = some (noop_websocket_handler http)

  relay_task-noop :
      (w : W)
      → relay_task http syntax outside sockets none task w
        ≡ relay_task http syntax outside sockets quiet task w
  unfolding relay_task
  relay_task-noop w =
      let ctx : HttpContext = record {
        id = task.ctx_id;
        host = task.ctx_host;
        client_addr = codes "0.0.0.0:0";
        is_https = true;
      } in
      ap (λ x. (relayed x.0 x.2, x.1.1))
        (sym (relay_raw_upgraded-noop http (sockets.events w) (ctx, w)))

  connected-noop :
      (o : Bool × W)
      → connected http syntax outside sockets none task o
        ≡ connected http syntax outside sockets quiet task o
  connected-noop (false, w) = refl
  connected-noop (true, w) = relay_task-noop w

  client_up-noop :
      (r : http.Uri × http.Headers) (o : Bool × W)
      → client_up http syntax outside sockets none task r o
        ≡ client_up http syntax outside sockets quiet task r o
  client_up-noop (uri, headers) (false, w) = refl
  client_up-noop (uri, headers) (true, w) = connected-noop (sockets.server_connects uri headers w)

  started-noop :
      (o : Outcome Failure (http.Uri × http.Headers)) (w : W)
      → started http syntax outside sockets none task o w
        ≡ started http syntax outside sockets quiet task o w
  started-noop (ok r) w = ap (λ x. (ok x.0, x.1)) (client_up-noop r (sockets.client_upgrades w))
  started-noop (err e) w = refl
  started-noop panic w = refl
  started-noop out_of_fuel w = refl

  -- The task of a WebSocket in a tunnel ends the same with no handler and with one that changes nothing:
  -- the same messages to both sides, the same state of the relay and of the world, and the same error
  -- where a side does not come up.
  pub websocket_task-noop :
      (w : W)
      → websocket_task http syntax outside sockets none task w
        ≡ websocket_task http syntax outside sockets (some (noop_websocket_handler http)) task w
  unfolding websocket_task
  websocket_task-noop w =
      let (key, w') = sockets.generate_key w in
      started-noop (upgrade_request http syntax outside task key) w'
