-- ===== src/Server/Untunnelled.antt =====
-- Connections of plain HTTP never come to a TLS server.
use hexbuffer_proxy.Prelude.{◌≡◌, List, Option, none, some, ok}
use hexbuffer_proxy.Text.{Bytes, Str}
use hexbuffer_proxy.Http.{HttpCrate}
use hexbuffer_proxy.Handler.Types.{Response, HttpHandler, WebSocketHandler}
use hexbuffer_proxy.Ca.Tools.{CertTools, Machine}
use hexbuffer_proxy.Ca.Store.{CertificationAuthority}
use hexbuffer_proxy.Wire.Syntax.{HttpSyntax}
use hexbuffer_proxy.Server.Conn.{shutdown}
use hexbuffer_proxy.Server.Run.{on_client, attempt, Upstream, State, continue, returns, lift}
use hexbuffer_proxy.Server.Outside.{Outside}
use hexbuffer_proxy.Server.Plain.{Served, answered, relays}
use hexbuffer_proxy.Server.Certified.{continue-eq-ok}
use hexbuffer_proxy.Server.Client.{Later, Finish, tunnelled, finish_http, relay_websocket}

module _ (http : HttpCrate) (syntax : HttpSyntax http) {W : Type 0} (outside : Outside http W)
    (handler : HttpHandler http W) (ws_handler : Option (WebSocketHandler http W))
    (later : Later http) (tools : CertTools) where
  relay_websocket-untunnelled :
      (up : Upstream) (ca1 ca' : CertificationAuthority tools) (m1 m' : Machine) (st st' : State W)
      {host : Str} {pair : Bytes × Bytes} {responses : List (Response http)}
      → continue {B = Finish http × CertificationAuthority tools × Machine}
          (relay_websocket http syntax outside handler ws_handler later up st)
          (λ finish. returns (finish, ca1, m1))
        ≡ (ok (tunnelled host pair responses, ca', m'), st')
      → ⊥
  unfolding relay_websocket
  relay_websocket-untunnelled up ca1 ca' m1 m' st st' h =
      let (finish, st1, ran, ends) =
        continue-eq-ok (relay_websocket http syntax outside handler ws_handler later up st) _ h in
      let (_, st2, _, more) = continue-eq-ok (lift later.copying st) _ ran in
      let (_, st3, _, last) = continue-eq-ok (attempt (on_client shutdown) st2) _ more in
      cc (ends, last)

  -- Plain HTTP never comes to a TLS server.
  pub finish_http-untunnelled :
      (served : Served) (ca1 ca' : CertificationAuthority tools) (m1 m' : Machine)
      (st st' : State W) {host : Str} {pair : Bytes × Bytes} {responses : List (Response http)}
      → continue {B = Finish http × CertificationAuthority tools × Machine}
          (finish_http http syntax outside handler ws_handler later served st)
          (λ finish. returns (finish, ca1, m1))
        ≡ (ok (tunnelled host pair responses, ca', m'), st')
      → ⊥
  unfolding finish_http
  finish_http-untunnelled answered ca1 ca' m1 m' st st' h = cc
  finish_http-untunnelled (relays ctx up) ca1 ca' m1 m' st st' {host} {pair} {responses} h =
      (elim ws_handler
          as (λ ws.
            continue {B = Finish http × CertificationAuthority tools × Machine}
                (finish_http http syntax outside handler ws later (relays ctx up) st)
                (λ finish. returns (finish, ca1, m1))
              ≡ (ok (tunnelled host pair responses, ca', m'), st')
            → ⊥) [ none ↦ relay_websocket-untunnelled up ca1 ca' m1 m' st st' | some ws ↦ λ h. cc ])
        h
