-- ===== src/Server/Tunnelled.antt =====
-- A client's connection through an intercepted tunnel, from its first bytes to the responses inside of TLS.
use hexbuffer_proxy.Prelude.{ℕ, ◌≡◌, refl, true, List, [], ◌++◌, Option, ok}
use hexbuffer_proxy.Text.{Bytes, Str, codes, split_first, unwrap_or}
use hexbuffer_proxy.Error.{Failure}
use hexbuffer_proxy.Http.{HttpCrate}
use hexbuffer_proxy.Handler.Types.{Response, HttpHandler, WebSocketHandler}
use hexbuffer_proxy.Ca.Tools.{CertTools, Machine}
use hexbuffer_proxy.Ca.Store.{CertificationAuthority}
use hexbuffer_proxy.Ca.Forge.{forge_certificate}
use hexbuffer_proxy.Wire.Syntax.{HttpSyntax}
use hexbuffer_proxy.Reader.Stream.{Stream, read}
use hexbuffer_proxy.Server.Run.{State}
use hexbuffer_proxy.Server.Outside.{Outside}
use hexbuffer_proxy.Server.Dispatch.{https, handle_client, route}
use hexbuffer_proxy.Server.Streaming.{write_all_lucky}
use hexbuffer_proxy.Server.Tunnel.{established, intercepted, handle_https, open_tunnel}
use hexbuffer_proxy.Server.Answers.{Answers, serve_requests-Answers}
use hexbuffer_proxy.Server.Client.{Later, tunnelled, finish_https, serve_route, serve_client}

module _ (http : HttpCrate) (syntax : HttpSyntax http) {W : Type 0} (outside : Outside http W)
    (handler : HttpHandler http W) (ws_handler : Option (WebSocketHandler http W))
    (later : Later http) (tools : CertTools) (ca : CertificationAuthority tools) (m : Machine) where
  abbrev pub connected : State W → W → State W
  connected st w = record st {
    client = record st.client { written = st.client.written ++ established };
    world = w;
  }

  handle_https-tunnelled :
      (target : Str) (st : State W) (w : W) {pair : Bytes × Bytes}
      {ca' : CertificationAuthority tools} {m' : Machine}
      → st.client.luck ≡ []
      → handler.should_intercept_tls (split_first b':' target) st.world ≡ (true, w)
      → forge_certificate tools ca (split_first b':' target) m ≡ ok (pair, ca', m')
      → handle_https http syntax outside handler tools ca m target st
        ≡ (ok (intercepted (split_first b':' target) pair, ca', m'), connected st w)
  unfolding handle_https open_tunnel
  handle_https-tunnelled target st w lucky asked forged =
      rw (write_all_lucky established st.client lucky) (rw asked (rw forged refl))

  -- A client whose first bytes are a CONNECT request, to a host that the handler agrees to intercept and for which a
  -- certificate is forged, is told that the connection is established. Once TLS is set up, each of its requests is
  -- answered in the state that the one before it left: by the handler itself; by a 502 where the handler refuses the
  -- request or the response, or the server does not answer; by the server's response as the handler left it; or by that
  -- of the upgrade to a WebSocket. The client's connection stays up.
  pub serve_client-Answers :
      (server_error : Failure → Str) (buf_size : ℕ) (peer_addr : Option Str)
      (client_stream rest : Stream) (bytes : Bytes) (target : Str) (st st' : State W) (w : W)
      (pair : Bytes × Bytes) (ca' : CertificationAuthority tools) (m' : Machine)
      (responses : List (Response http))
      → read 4096 client_stream ≡ ok (bytes, rest)
      → route bytes ≡ ok (https target)
      → st.client.luck ≡ []
      → handler.should_intercept_tls (split_first b':' target) st.world ≡ (true, w)
      → forge_certificate tools ca (split_first b':' target) m ≡ ok (pair, ca', m')
      → later.handshake ≡ ok _
      → Answers http syntax outside handler
          (split_first b':' target)
          (unwrap_or peer_addr (codes "127.0.0.1:0"))
          later.requests
          (connected st w)
          responses
          st'
      → serve_client http syntax outside handler ws_handler later tools server_error buf_size
          peer_addr ca m client_stream st
        ≡ (ok (tunnelled (split_first b':' target) pair responses, ca', m'), st')
  unfolding serve_client handle_client serve_route finish_https
  serve_client-Answers server_error buf_size peer_addr client_stream rest bytes target st st' w pair
        ca' m' responses got routed lucky asked forged shaken answers =
      rw got (
        rw routed (
          rw (handle_https-tunnelled target st w lucky asked forged) (
            rw shaken (
              rw
                (serve_requests-Answers http syntax outside handler (split_first b':' target)
                  (unwrap_or peer_addr (codes "127.0.0.1:0")) server_error answers)
                refl))))
