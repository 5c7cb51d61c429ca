-- ===== src/Tests/Tunneling.antt =====
-- Runs of the WebSocket task of a tunnel.
use hexbuffer_proxy.Prelude.{ℕ, suc, ◌≡◌, true, [], ◌∷◌, none, some}
use hexbuffer_proxy.Text.{codes}
use hexbuffer_proxy.Handler.Types.{text, close, server_to_client}
use hexbuffer_proxy.Handler.Noop.{noop_websocket_handler}
use hexbuffer_proxy.Ws.Relay
use hexbuffer_proxy.Server.Run.{Task}
use hexbuffer_proxy.Server.Upgrade.{WebSockets, websocket_task}
use hexbuffer_proxy.Server.Relays.{websocket_task-noop}
use hexbuffer_proxy.Tests.Instances.{http}
use hexbuffer_proxy.Tests.Syntax.{syntax, outside}

-- A server that sends one message and then closes.
abbrev sockets : WebSockets http ℕ
sockets = record {
  generate_key = λ w. (codes "key", suc w);
  client_upgrades = λ w. (true, w);
  server_connects = λ uri headers w. (true, w);
  events = λ w.
      ((server_to_client, Relay.message (text (codes "hi")))
        ∷ (server_to_client, Relay.message (close []))
        ∷ []);
}

abbrev task : Task
task = record {
  target_host = codes "a.example";
  path = codes "/";
  origin = none;
  cookie = some (codes "a=b");
  ctx_id = 3;
  ctx_host = codes "a.example";
}

websocket_task-noop_example :
    websocket_task http syntax outside sockets none task 0
    ≡ websocket_task http syntax outside sockets (some (noop_websocket_handler http)) task 0
websocket_task-noop_example = websocket_task-noop http syntax outside sockets task 0
