-- ===== src/Server/Unparsable.antt =====
-- Connections whose first bytes are no request.
use hexbuffer_proxy.Prelude.{ℕ, ◌≡◌, refl, false, ◌⊎◌, inl, inr, Option, ok, panic}
use hexbuffer_proxy.Text.{Bytes, Str, codes, starts_with, unwrap_or}
use hexbuffer_proxy.Error.{Failure}
use hexbuffer_proxy.Http.{HttpCrate}
use hexbuffer_proxy.Handler.Types.{Request, HttpHandler, WebSocketHandler}
use hexbuffer_proxy.Ca.Tools.{CertTools, Machine}
use hexbuffer_proxy.Ca.Store.{CertificationAuthority}
use hexbuffer_proxy.Wire.Syntax.{HttpSyntax}
use hexbuffer_proxy.Wire.Parse.{parse_raw_request}
use hexbuffer_proxy.Wire.Malformed.{IsParsable, parse_raw_request-Parses}
use hexbuffer_proxy.Reader.Stream.{Stream, read}
use hexbuffer_proxy.Server.Run.{State}
use hexbuffer_proxy.Server.Outside.{Outside}
use hexbuffer_proxy.Server.Dispatch.{handle_client, route}
use hexbuffer_proxy.Server.Dispatch
use hexbuffer_proxy.Server.Plain.{handle_http}
use hexbuffer_proxy.Server.Client.{Later, serve_route, serve_client}

handle_client-plain :
    (client_stream rest : Stream) (bytes : Bytes)
    → read 4096 client_stream ≡ ok (bytes, rest)
    → starts_with (codes "CONNECT") bytes ≡ false
    → handle_client client_stream ≡ ok (Dispatch.http bytes, rest)
unfolding handle_client route
handle_client-plain client_stream rest bytes got plain = rw got (rw plain refl)

module _ (http : HttpCrate) (syntax : HttpSyntax http) {W : Type 0} (outside : Outside http W)
    (handler : HttpHandler http W) (ws_handler : Option (WebSocketHandler http W))
    (later : Later http) (tools : CertTools) (ca : CertificationAuthority tools) (m : Machine) where
  serve_route-unparsable :
      (server_error : Failure → Str) (buf_size : ℕ) (client_addr : Str) (bytes : Bytes)
      (st : State W)
      → parse_raw_request http syntax bytes ≡ panic
      → serve_route http syntax outside handler ws_handler later tools server_error buf_size
          client_addr ca m
          (Dispatch.http bytes)
          st
        ≡ (panic, st)
  unfolding serve_route handle_http
  serve_route-unparsable server_error buf_size client_addr bytes st bad = rw bad refl

  -- First bytes that are no CONNECT request are read as a request exactly if they are parsable: the first word is a
  -- method and the second a target, where there are such words, and each header line with a colon is a header.
  -- If they are not, the task of the connection panics: nothing is written to the client, no handler is called,
  -- and no connection is opened.
  pub serve_client-unparsable :
      (server_error : Failure → Str) (buf_size : ℕ) (peer_addr : Option Str)
      (client_stream rest : Stream) (bytes : Bytes) (st : State W)
      → read 4096 client_stream ≡ ok (bytes, rest)
      → starts_with (codes "CONNECT") bytes ≡ false
      → (IsParsable http syntax bytes
          × (req : Request http) × (parse_raw_request http syntax bytes ≡ ok req))
        ⊎ ((IsParsable http syntax bytes → ⊥)
            × (serve_client http syntax outside handler ws_handler later tools server_error buf_size
                  peer_addr ca m client_stream st
                ≡ (panic, st)))
  unfolding serve_client
  serve_client-unparsable server_error buf_size peer_addr client_stream rest bytes st got plain =
      elim (parse_raw_request-Parses http syntax bytes) [
        | inl parsed ↦ inl parsed
        | inr (bad, e) ↦ inr (
          bad,
          rw (handle_client-plain client_stream rest bytes got plain) (
              serve_route-unparsable server_error buf_size
                (unwrap_or peer_addr (codes "127.0.0.1:0")) bytes st e),
        )
      ]
