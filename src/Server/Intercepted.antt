-- ===== src/Server/Intercepted.antt =====
-- Connections of clients that the proxy intercepts.
use hexbuffer_proxy.Prelude.{
  ℕ, ◌≡◌, refl, ap, subst, true, List, Option, ok, err, panic, out_of_fuel, >>=-eq-ok,
}
use hexbuffer_proxy.Text.{Bytes, Str, codes, split_first, unwrap_or}
use hexbuffer_proxy.Error.{Failure}
use hexbuffer_proxy.Http.{HttpCrate}
use hexbuffer_proxy.Handler.Types.{Response, HttpHandler, WebSocketHandler}
use hexbuffer_proxy.Ca.Tools.{CertTools, Machine}
use hexbuffer_proxy.Ca.Store.{CertificationAuthority}
use hexbuffer_proxy.Ca.Cache.{CacheIsIssued, Forges}
use hexbuffer_proxy.Wire.Syntax.{HttpSyntax}
use hexbuffer_proxy.Reader.Stream.{Stream, read}
use hexbuffer_proxy.Server.Run.{State, lift}
use hexbuffer_proxy.Server.Outside.{Outside}
use hexbuffer_proxy.Server.Dispatch.{Route, https, route, handle_client}
use hexbuffer_proxy.Server.Dispatch
use hexbuffer_proxy.Server.Plain.{handle_http}
use hexbuffer_proxy.Server.Tunnel.{Tunnel, passthrough, intercepted, handle_https}
use hexbuffer_proxy.Server.Session.{SessionEnd, serve_requests}
use hexbuffer_proxy.Server.Certified.{continue-eq-ok, handle_https-Forges}
use hexbuffer_proxy.Server.Answered.{serve_requests-answered}
use hexbuffer_proxy.Server.Answers.{Answers}
use hexbuffer_proxy.Server.Untunnelled.{finish_http-untunnelled}
use hexbuffer_proxy.Server.Client.{
  Later, tunnelled, session, finish_https, serve_route, serve_client,
}

-- What the route of first bytes and a read say of both.
handle_client-parts :
    (client_stream : Stream) (r : Route) (rest : Stream)
    → handle_client client_stream ≡ ok (r, rest)
    → (bytes : Bytes) × (read 4096 client_stream ≡ ok (bytes, rest)) × (route bytes ≡ ok r)
unfolding handle_client
handle_client-parts client_stream r rest h =
    let ((bytes, s), got, more) = >>=-eq-ok (read 4096 client_stream) _ h in
    let (r', routed, same) = >>=-eq-ok (route bytes) _ more in (bytes, cc, cc)

module _ (http : HttpCrate) (syntax : HttpSyntax http) {W : Type 0} (outside : Outside http W)
    (handler : HttpHandler http W) where
  module _ (ws_handler : Option (WebSocketHandler http W)) (later : Later http) (tools : CertTools)
      (ca : CertificationAuthority tools) (m : Machine) where
    -- All requests inside of TLS are answered, from some state on.
    abbrev pub AllAnswered : Str → Str → List (Response http) → State W → Type 0
    AllAnswered host client_addr responses st' =
        (begun : State W) × Answers http syntax outside handler host client_addr later.requests
          begun responses st'

    -- What is known of a connection that has come to a TLS server.
    pub record Intercepts (bytes : Bytes) (client_addr : Str) (st : State W) (host : Str)
        (pair : Bytes × Bytes) (responses : List (Response http))
        (ca' : CertificationAuthority tools) (st' : State W) : Type 0 where
      pub target : Str
      pub connect : route bytes ≡ ok (https target)
      pub asked_host : host ≡ split_first b':' target
      pub agreed : (handler.should_intercept_tls host st.world).0 ≡ true
      pub certificate : Forges tools ca m.now host pair ca'
      pub all_answered : AllAnswered host client_addr responses st'

    -- What a finished connection says of the end of its session.
    session_parts :
        (host : Str) (pair : Bytes × Bytes) (ca1 ca' : CertificationAuthority tools)
        (m1 m' : Machine) (end : SessionEnd http syntax outside handler) {host' : Str}
        {pair' : Bytes × Bytes} {responses : List (Response http)} {st' : State W}
        → session http syntax outside handler ws_handler later tools host pair ca1 m1 end
          ≡ (ok (tunnelled host' pair' responses, ca', m'), st')
        → (host ≡ host') × (pair ≡ pair') × (ca1 ≡ ca') × (end ≡ (responses, (ok _, st')))
    session_parts host pair ca1 ca' m1 m' (responses, (ok u, st)) h = (cc, cc, cc, cc)
    session_parts host pair ca1 ca' m1 m' (responses, (err e, st)) h = cc
    session_parts host pair ca1 ca' m1 m' (responses, (panic, st)) h = cc
    session_parts host pair ca1 ca' m1 m' (responses, (out_of_fuel, st)) h = cc

    finish_https_parts :
        (server_error : Failure → Str) (client_addr : Str) (t : Tunnel)
        (ca1 ca' : CertificationAuthority tools) (m1 m' : Machine) (st st' : State W) {host' : Str}
        {pair' : Bytes × Bytes} {responses : List (Response http)}
        → finish_https http syntax outside handler ws_handler later tools server_error client_addr
            (t, ca1, m1)
            st
          ≡ (ok (tunnelled host' pair' responses, ca', m'), st')
        → (t ≡ intercepted host' pair') × (ca1 ≡ ca') × AllAnswered host' client_addr responses st'
    unfolding finish_https
    finish_https_parts server_error client_addr (passthrough up) ca1 ca' m1 m' st st' {host'}
          {pair'} {responses} h =
        cc
    finish_https_parts server_error client_addr (intercepted host pair) ca1 ca' m1 m' st st' {host'}
          {pair'} {responses} h =
        let (_, st1, _, served) = continue-eq-ok (lift later.handshake st) _ h in
        let (hosts, pairs, cas, ended) =
          session_parts host pair ca1 ca' m1 m'
            (serve_requests http syntax outside handler server_error host client_addr later.requests
              st1)
            served in
        (
          cc,
          cas,
          (
            st1,
            subst
                (λ x.
                  Answers http syntax outside handler x client_addr later.requests st1 responses
                    st')
                hosts
                (serve_requests-answered http syntax outside handler server_error host client_addr
                  later.requests st1 ended),
          ),
        )

    serve_route-tunnelled :
        (server_error : Failure → Str) (buf_size : ℕ) (client_addr : Str) (r : Route)
        (ca' : CertificationAuthority tools) (m' : Machine) (st st' : State W) {host : Str}
        {pair : Bytes × Bytes} {responses : List (Response http)}
        → serve_route http syntax outside handler ws_handler later tools server_error buf_size
            client_addr ca m r st
          ≡ (ok (tunnelled host pair responses, ca', m'), st')
        → (target : Str) × (m1 : Machine) × (st1 : State W) × (r ≡ https target)
          × (handle_https http syntax outside handler tools ca m target st
              ≡ (ok (intercepted host pair, ca', m1), st1))
          × AllAnswered host client_addr responses st'
    unfolding serve_route
    serve_route-tunnelled server_error buf_size client_addr (Dispatch.http bytes) ca' m' st st' h =
        let (served, st1, _, ends) =
          continue-eq-ok (handle_http http syntax outside handler buf_size client_addr bytes st) _
            h in
        absurd (
          finish_http-untunnelled http syntax outside handler ws_handler later tools served ca ca' m
            m' st1 st' ends)
    serve_route-tunnelled server_error buf_size client_addr (https target) ca' m' st st' h =
        let ((t, ca1, m1), st1, tunnel, ends) =
          continue-eq-ok (handle_https http syntax outside handler tools ca m target st) _ h in
        let (same, cas, count) =
          finish_https_parts server_error client_addr t ca1 ca' m1 m' st1 st' ends in
        (target, m1, st1, refl, cc, count)

    -- A run of one client's connection that comes to a TLS server and ends well began with a first read of at most 4096
    -- bytes that are a CONNECT request. The handler, asked about the host of its target, agreed; the server has a
    -- certificate that the authority issued for that host; and the requests that came inside of TLS were answered,
    -- each by the handler, a 502, or what the handler left of the server's response or of an upgrade.
    -- Before, the authority's cache held only certificates for their hosts.
    pub serve_client-Intercepts :
        (server_error : Failure → Str) (buf_size : ℕ) (peer_addr : Option Str)
        (client_stream : Stream) (st st' : State W) (host : Str) (pair : Bytes × Bytes)
        (responses : List (Response http)) (ca' : CertificationAuthority tools) (m' : Machine)
        → CacheIsIssued tools ca
        → serve_client http syntax outside handler ws_handler later tools server_error buf_size
            peer_addr ca m client_stream st
          ≡ (ok (tunnelled host pair responses, ca', m'), st')
        → (bytes : Bytes) × (rest : Stream) × (read 4096 client_stream ≡ ok (bytes, rest))
          × Intercepts bytes
              (unwrap_or peer_addr (codes "127.0.0.1:0"))
              st
              host
              pair
              responses
              ca'
              st'
    unfolding serve_client
    serve_client-Intercepts server_error buf_size peer_addr client_stream st st' host pair responses
          ca' m' inv h =
        let ((r, rest), st1, first, more) =
          continue-eq-ok (lift (handle_client client_stream) st) _ h in
        let (target, m1, st2, same, tunnel, count) =
          serve_route-tunnelled server_error buf_size (unwrap_or peer_addr (codes "127.0.0.1:0")) r
            ca' m' st1 st' more in
        let (bytes, got, routed) = handle_client-parts client_stream r rest (ap (λ x. x.0) first) in
        let (asked, forged, agreed) =
          handle_https-Forges http syntax outside handler tools ca m target host st1 st2 pair ca' m1
            inv tunnel in
        let world : st.world ≡ st1.world = ap (λ x. x.1.world) first in
        (
          bytes,
          rest,
          got,
          record {
            target = target;
            connect = cc;
            asked_host = asked;
            agreed = rw world agreed;
            certificate = forged;
            all_answered = count;
          },
        )
