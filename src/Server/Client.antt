-- ===== src/Server/Client.antt =====
-- One client's connection from its first bytes on: `handle_client` of src/proxy.rs with what it calls.
use hexbuffer_proxy.Prelude.{
  ℕ, Bool, List, Option, none, some, Outcome, ok, err, panic, out_of_fuel,
}
use hexbuffer_proxy.Text.{Bytes, Str, codes, unwrap_or}
use hexbuffer_proxy.Error.{Failure}
use hexbuffer_proxy.Http.{HttpCrate}
use hexbuffer_proxy.Handler.Types.{HttpContext, Request, Response, HttpHandler, WebSocketHandler}
use hexbuffer_proxy.Ca.Tools.{CertTools, Machine}
use hexbuffer_proxy.Ca.Store.{CertificationAuthority}
use hexbuffer_proxy.Ws.Relay
use hexbuffer_proxy.Ws.Relay.{Sinks, Status, relay_framed}
use hexbuffer_proxy.Wire.Syntax.{HttpSyntax}
use hexbuffer_proxy.Reader.Stream.{Stream}
use hexbuffer_proxy.Server.Conn.{shutdown}
use hexbuffer_proxy.Server.Run.{on_client, attempt, Upstream, State, Run, returns, lift, ◌>>=◌}
use hexbuffer_proxy.Server.Outside.{Outside}
use hexbuffer_proxy.Server.Dispatch.{Route, https, handle_client}
use hexbuffer_proxy.Server.Dispatch
use hexbuffer_proxy.Server.Plain.{Served, answered, relays, handle_http}
use hexbuffer_proxy.Server.Tunnel.{Tunnel, passthrough, intercepted, handle_https}
use hexbuffer_proxy.Server.Session.{serve_requests, SessionEnd}

module _ (http : HttpCrate) where
  -- What comes on the connection behind its first bytes: how setting up TLS for it ends; the requests that Hyper's
  -- server reads inside of TLS; the messages that a relay of WebSocket frames takes from its two
  -- sides, of which the server's is what is left on that stream; and how `copy_bidirectional` ends.
  pub record Later : Type 0 where
    pub handshake : Outcome Failure (Unit {0})
    pub requests : List (Request http)
    pub frames : Stream → List Relay.Event
    pub copying : Outcome Failure (Unit {0})

  -- What the connection comes to: an answer; a relay of frames; two connections that bytes are copied between; or
  -- a TLS server that has given these responses.
  pub data Finish : Type 0 where
    done : Finish
    framed : Sinks → Status → Finish
    copied : Upstream → Finish
    tunnelled : (host : Str) → Bytes × Bytes → List (Response http) → Finish

module _ (http : HttpCrate) (syntax : HttpSyntax http) {W : Type 0} (outside : Outside http W)
    (handler : HttpHandler http W) (ws_handler : Option (WebSocketHandler http W))
    (later : Later http) where
  abbrev relayed_world :
      Sinks × (HttpContext × W) × Relay.Status × Bool
      → State W
      → Outcome Failure (Finish http) × State W
  relayed_world (sinks, (ctx, w), status, closed) st =
      (ok (framed sinks status), record st { world = w })

  -- Bytes are copied both ways, then the client's side is shut down; an error of that is dropped.
  unfoldable pub relay_websocket : Upstream → Run W (Finish http)
  relay_websocket up = do
    _ ← lift later.copying
    _ ← attempt (on_client shutdown)
    returns (copied up)

  -- The end of `handle_http`.
  unfoldable pub finish_http : Served → Run W (Finish http)
  unfolding relay_framed relay_websocket
  finish_http answered st = (ok done, st)
  finish_http (relays ctx up) st = elim ws_handler [
    | none ↦ relay_websocket up st
    | some ws ↦ relayed_world (relay_framed http ws (later.frames up.reply) (ctx, st.world)) st
  ]

  module _ (tools : CertTools) where
    abbrev pub Kept : Type 0
    Kept = Finish http × CertificationAuthority tools × Machine

    abbrev pub session :
        Str
        → Bytes × Bytes
        → CertificationAuthority tools
        → Machine
        → SessionEnd http syntax outside handler
        → Outcome Failure Kept × State W
    session host pair ca m (responses, (ok u, st)) = (ok (tunnelled host pair responses, ca, m), st)
    session host pair ca m (responses, (err e, st)) = (err e, st)
    session host pair ca m (responses, (panic, st)) = (panic, st)
    session host pair ca m (responses, (out_of_fuel, st)) = (out_of_fuel, st)

    abbrev pub serve_session :
        (Failure → Str)
        → Str
        → Str
        → Bytes × Bytes
        → CertificationAuthority tools
        → Machine
        → Run W Kept
    serve_session server_error client_addr host pair ca m st =
        session host pair ca m (
          serve_requests http syntax outside handler server_error host client_addr later.requests
            st)

    -- The end of `handle_https`: TLS with the certificate, then Hyper's server.
    unfoldable pub finish_https :
        (Failure → Str) → Str → Tunnel × CertificationAuthority tools × Machine → Run W Kept
    unfolding serve_requests
    finish_https server_error client_addr (passthrough up, ca, m) = returns (copied up, ca, m)
    finish_https server_error client_addr (intercepted host pair, ca, m) = do
      _ ← lift later.handshake
      serve_session server_error client_addr host pair ca m

    -- The two calls that the first bytes lead to. Plain HTTP leaves the authority alone.
    unfoldable pub serve_route :
        (Failure → Str) → ℕ → Str → CertificationAuthority tools → Machine → Route → Run W Kept
    unfolding finish_http finish_https handle_http handle_https
    serve_route server_error buf_size client_addr ca m (Dispatch.http bytes) = do
      served ← handle_http http syntax outside handler buf_size client_addr bytes
      finish ← finish_http served
      returns (finish, ca, m)
    serve_route server_error buf_size client_addr ca m (https target) = do
      tunnel ← handle_https http syntax outside handler tools ca m target
      finish_https server_error client_addr tunnel

    -- All of `handle_client`. An address that is not known is "127.0.0.1:0".
    unfoldable pub serve_client :
        (Failure → Str)
        → ℕ
        → Option Str
        → CertificationAuthority tools
        → Machine
        → Stream
        → Run W Kept
    unfolding serve_route handle_client
    serve_client server_error buf_size peer_addr ca m client_stream = do
      (r, rest) ← lift (handle_client client_stream)
      serve_route server_error buf_size (unwrap_or peer_addr (codes "127.0.0.1:0")) ca m r
