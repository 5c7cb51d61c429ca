-- ===== src/Tests/Switching.antt =====
-- A run of a client's connection with a request for a WebSocket that the server accepts.
use hexbuffer_proxy.Prelude.{ℕ, suc, [], ◌∷◌, ◌++◌, none, true, false, ok, err}
use hexbuffer_proxy.Text.{codes}
use hexbuffer_proxy.Error.{from_external}
use hexbuffer_proxy.Handler.Types.{HttpContext, Request, Response, full, request, HttpHandler}
use hexbuffer_proxy.Reader.Stream.{Stream, closed}
use hexbuffer_proxy.Wire.Serialize.{serialize_response}
use hexbuffer_proxy.Server.Outside.{Outside}
use hexbuffer_proxy.Server.Refused.{plain_context}
use hexbuffer_proxy.Server.Client.{Later}
use hexbuffer_proxy.Handler.Types.{client_to_server, server_to_client, text, close}
use hexbuffer_proxy.Ws.Relay.{message}
use hexbuffer_proxy.Tests.Syntax.{state}
use hexbuffer_proxy.Tests.Wide.{host, upgrade, connection, wide, wide_syntax}

abbrev asked : Request wide
asked = record {
  method = codes "GET";
  uri = 2;
  headers =
      (host, codes "a.example") ∷ (upgrade, codes "websocket") ∷ (connection, codes "Upgrade") ∷ [];
  body = full [];
}

abbrev accepted : Response wide
accepted = record { status = 101; headers = (upgrade, codes "websocket") ∷ []; body = full [] }

abbrev early : Stream
early = record {
  incoming = serialize_response wide wide_syntax accepted ++ codes "frame";
  arrivals = 9 ∷ [];
  ending = closed;
}

-- One that lets all pass.
abbrev passer : HttpHandler wide ℕ
passer = record {
  handle_request = λ req st. (ok (request req), st);
  handle_response = λ res st. (ok res, st);
  should_intercept_tls = λ host w. (true, w);
}

abbrev wide_outside : Outside wide ℕ
wide_outside = record {
  send_request = λ req w. (err (from_external (codes "refused")), w);
  connect = λ target w. (ok ([], early), suc w);
  is_upgrade_request = λ req. false;
  upgrade = λ req. ok (record { status = 101; headers = req.headers; body = full [] });
  with_wss = λ u. ok u;
  path_and_query = λ u. none;
}

abbrev ctx : HttpContext
ctx = plain_context (codes "a.example") (codes "127.0.0.1:0") state

-- A message of the client, the server's close, and what comes too late.
abbrev talk : Later wide
talk = record {
  handshake = ok _;
  requests = [];
  frames = λ rest.
      (client_to_server, message (text (codes "hi")))
      ∷ (server_to_client, message (close []))
      ∷ (client_to_server, message (text (codes "late")))
      ∷ [];
  copying = ok _;
}
