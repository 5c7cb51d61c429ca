-- ===== src/Server/Switched.antt =====
-- Plain HTTP requests for a WebSocket that the server accepts.
use hexbuffer_proxy.Prelude.{
  length, ℕ, suc, ◌%◌, ◌^◌, ◌<◌, ◌≡◌, refl, ap, ◌∙◌, true, false, some, [], ok, ◌++◌, ◌==◌, Outcome,
  Option,
}
use hexbuffer_proxy.Text.{Bytes, Str, codes, unwrap_or}
use hexbuffer_proxy.Error.{Failure}
use hexbuffer_proxy.Http.{HttpCrate}
use hexbuffer_proxy.Handler.Types.{
  HttpContext, Request, Response, request, HttpHandler, WebSocketHandler,
}
use hexbuffer_proxy.Ws.Detect.{is_websocket_upgrade, is_websocket_response}
use hexbuffer_proxy.Reader.Stream.{Stream, Ending}
use hexbuffer_proxy.Wire.Syntax.{HttpSyntax}
use hexbuffer_proxy.Wire.Parse.{parse_raw_request}
use hexbuffer_proxy.Wire.Serialize.{serialize_request, serialize_response}
use hexbuffer_proxy.Wire.Laws.{SyntaxLaws}
use hexbuffer_proxy.Wire.Responses.{StatusLaws, parse_raw_response-serialize_response}
use hexbuffer_proxy.Wire.Switching.{IsBodyless, read_full_response-bodyless}
use hexbuffer_proxy.Server.Conn.{new_conn}
use hexbuffer_proxy.Ca.Tools.{CertTools, Machine}
use hexbuffer_proxy.Ca.Store.{CertificationAuthority}
use hexbuffer_proxy.Server.Run.{Upstream, State, continue, returns}
use hexbuffer_proxy.Server.Host.{extract_host}
use hexbuffer_proxy.Server.Dispatch
use hexbuffer_proxy.Server.Client.{Finish, Later, finish_http, serve_route, serve_client}
use hexbuffer_proxy.Server.Exchanged.{IsSendable, handle_client-printed, extract_host-named}
use hexbuffer_proxy.Wire.RoundTrip.{parse_raw_request-serialize_request}
use hexbuffer_proxy.Server.Outside.{Outside}
use hexbuffer_proxy.Server.Plain.{
  Served, relays, with_http_port, forward_websocket, answer_http, serve_http, handle_http,
}
use hexbuffer_proxy.Server.Streaming.{write_all_lucky}
use hexbuffer_proxy.Server.Blocked.{parsed_lem}
use hexbuffer_proxy.Server.Refused.{plain_context}

module _ (http : HttpCrate) (syntax : HttpSyntax http) (laws : SyntaxLaws http syntax)
    (statuses : StatusLaws http syntax) {W : Type 0} (outside : Outside http W)
    (handler : HttpHandler http W) where
  -- A request for a WebSocket that the handler lets through, the server's answer without a body, which it prints, in
  -- pieces of any size and with anything behind it, and what the handler makes of the answer.
  pub record Switch (s : HttpContext × W) (host : Str) (req passed : Request http)
      (ctx' : HttpContext) (modified : Response http) (w : W) (tail : Bytes) : Type 0 where
    pub got : Response http
    pub reply : Stream
    pub ctx : HttpContext
    pub w1 : W
    pub w2 : W
    pub upgrade : is_websocket_upgrade http req ≡ true
    pub asked : handler.handle_request req s ≡ (ok (request passed), (ctx, w1))
    pub connected : outside.connect (with_http_port host) w1 ≡ (ok ([], reply), w2)
    pub printed : reply.incoming ≡ serialize_response http syntax got ++ tail
    pub bodyless : IsBodyless http syntax laws statuses got
    pub shown : handler.handle_response got (ctx, w2) ≡ (ok modified, (ctx', w))
    pub switching : modified.status ≡ 101

  -- The connection to the server behind its answer.
  abbrev pub upstream_behind : Str → Request http → Stream → Upstream
  upstream_behind host passed rest = record {
    target = with_http_port host;
    sent = record { written = serialize_request http syntax passed; shut = false; luck = [] };
    reply = rest;
  }

  -- The state behind the answer.
  abbrev pub switched : Str → Request http → Stream → Response http → W → State W → State W
  switched host passed rest modified w st = record st {
    client = record st.client {
      written = st.client.written ++ serialize_response http syntax modified;
    };
    upstream = some (upstream_behind host passed rest);
    request_id = suc st.request_id % 2 ^ 64;
    world = w;
  }

  handle_http-switched :
      (buf_size : ℕ) (client_addr host : Str) (bytes : Bytes) (req passed : Request http)
      (st : State W) (ctx' : HttpContext) (modified : Response http) (w : W) (tail : Bytes)
      → 0 < buf_size
      → st.client.luck ≡ []
      → parse_raw_request http syntax bytes ≡ ok req
      → extract_host http req bytes ≡ some host
      → Switch (plain_context host client_addr st, st.world) host req passed ctx' modified w tail
      → (rest : Stream) × (lost : Bytes) × (handle_http http syntax outside handler buf_size
            client_addr bytes st
          ≡ (
            ok (relays ctx' (upstream_behind host passed rest)),
            switched host passed rest modified w st,
          ))
        × (tail ≡ lost ++ rest.incoming)
        × (length lost < buf_size)
  unfolding serve_http answer_http forward_websocket is_websocket_response
  handle_http-switched buf_size client_addr host bytes req passed st ctx' modified w tail pos lucky
        parsed found sw =
      let (rest, lost, read, split, few) =
        read_full_response-bodyless http syntax laws statuses buf_size sw.reply sw.got tail pos
          sw.printed sw.bodyless in
      let back =
        parse_raw_response-serialize_response http syntax laws statuses sw.got [] sw.bodyless.status
          sw.bodyless.empty sw.bodyless.values in
      let answer : is_websocket_response http modified ≡ true = ap (λ n. n == 101) sw.switching in
      (
        rest,
        lost,
        parsed_lem http syntax outside handler buf_size client_addr bytes req st parsed
            ∙ rw (found, sw.asked, sw.upgrade, sw.connected)
                (rw (write_all_lucky (serialize_request http syntax passed) (new_conn []) refl) (
                  rw read (
                    rw back (
                      rw sw.shown (
                        rw
                          (write_all_lucky (serialize_response http syntax modified) st.client
                            lucky)
                          (rw answer refl)))))),
        split,
        few,
      )

  module _ (ws_handler : Option (WebSocketHandler http W)) (later : Later http) (tools : CertTools)
      (ca : CertificationAuthority tools) (m : Machine) where
    -- A relay of the connections, as `handle_http` ends.
    abbrev pub relayed :
        Served
        → State W
        → Outcome Failure (Finish http × CertificationAuthority tools × Machine) × State W
    relayed served st =
        continue (finish_http http syntax outside handler ws_handler later served st)
          (λ finish. returns (finish, ca, m))

    serve_route-relayed :
        (server_error : Failure → Str) (buf_size : ℕ) (client_addr : Str) (bytes : Bytes)
        (served : Served) (st st' : State W)
        → handle_http http syntax outside handler buf_size client_addr bytes st ≡ (ok served, st')
        → serve_route http syntax outside handler ws_handler later tools server_error buf_size
            client_addr ca m
            (Dispatch.http bytes)
            st
          ≡ relayed served st'
    unfolding serve_route
    serve_route-relayed server_error buf_size client_addr bytes served st st' done = rw done refl

    -- A client that asks for a WebSocket by a plain HTTP request, all at once, has it sent on as the handler left it, on
    -- a connection to the host's port 80 or the one it names. Where the server answers without a body, in pieces of
    -- any size, the handler sees that answer as the server meant it, and where the handler leaves it a 101, the
    -- client gets it and a relay takes both connections, which stay open. Of what
    -- the server sent behind the answer, some first bytes, fewer than the buffer has room for, or none, are lost, and
    -- the rest is left for the relay. The crate `http` behaves as documented, and the connections stay up.
    pub serve_client-Switch :
        (server_error : Failure → Str) (buf_size : ℕ) (peer_addr : Option Str) (req : Request http)
        (host : Str) (ending : Ending) (st : State W) (passed : Request http) (ctx' : HttpContext)
        (modified : Response http) (w : W) (tail : Bytes)
        → 0 < buf_size
        → IsSendable http syntax req host
        → st.client.luck ≡ []
        → Switch
            (plain_context host (unwrap_or peer_addr (codes "127.0.0.1:0")) st, st.world)
            host
            req
            passed
            ctx'
            modified
            w
            tail
        → (rest : Stream) × (lost : Bytes) × (serve_client http syntax outside handler ws_handler
              later tools server_error buf_size peer_addr ca m
              (record {
                incoming = serialize_request http syntax req;
                arrivals = [];
                ending = ending;
              })
              st
            ≡ relayed
                (relays ctx' (upstream_behind host passed rest))
                (switched host passed rest modified w st))
          × (tail ≡ lost ++ rest.incoming)
          × (length lost < buf_size)
    unfolding serve_client
    serve_client-Switch server_error buf_size peer_addr req host ending st passed ctx' modified w
          tail pos s lucky sw =
        let bytes = serialize_request http syntax req in
        let client_addr = unwrap_or peer_addr (codes "127.0.0.1:0") in
        let parsed =
          parse_raw_request-serialize_request http syntax laws req s.body s.method s.target
            s.in_memory s.values in
        let (rest, lost, served, split, few) =
          handle_http-switched buf_size client_addr host bytes req passed st ctx' modified w tail
            pos lucky parsed (extract_host-named http syntax req host bytes s) sw in
        (
          rest,
          lost,
          rw (handle_client-printed http syntax laws req host ending s)
              (serve_route-relayed server_error buf_size client_addr bytes _ st _ served),
          split,
          few,
        )
