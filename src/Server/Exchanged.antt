-- ===== src/Server/Exchanged.antt =====
-- A client's connection with a plain HTTP request, from the bytes it sends to the bytes it gets.
use hexbuffer_proxy.Prelude.{
  ℕ, suc, ◌%◌, ◌^◌, ◌≤◌, ◌≡◌, refl, ◌∙◌, true, false, [], ◌∷◌, ◌++◌, append_assoc, Option, some,
  All, ok, length,
}
use hexbuffer_proxy.Text.{Bytes, Str, codes, starts_with, is_empty, contains_char, unwrap_or}
use hexbuffer_proxy.Text.Search.{starts_with-word}
use hexbuffer_proxy.Text.Lines.{is_empty-append}
use hexbuffer_proxy.Error.{Failure}
use hexbuffer_proxy.Http.{HttpCrate, get}
use hexbuffer_proxy.Handler.Types.{full, Request, Response, HttpHandler, WebSocketHandler}
use hexbuffer_proxy.Ca.Tools.{CertTools, Machine}
use hexbuffer_proxy.Ca.Store.{CertificationAuthority}
use hexbuffer_proxy.Wire.Syntax.{HttpSyntax}
use hexbuffer_proxy.Wire.Serialize.{serialize_headers, serialize_request}
use hexbuffer_proxy.Wire.Laws.{IsToken, SyntaxLaws, IsPlain}
use hexbuffer_proxy.Wire.RoundTrip.{
  serialize_request-request_line, parse_raw_request-serialize_request,
}
use hexbuffer_proxy.Reader.Stream.{Ending, read_whole}
use hexbuffer_proxy.Server.Run.{State}
use hexbuffer_proxy.Server.Host.{extract_host}
use hexbuffer_proxy.Server.Outside.{Outside}
use hexbuffer_proxy.Server.Dispatch.{handle_client, route}
use hexbuffer_proxy.Server.Dispatch
use hexbuffer_proxy.Server.Plain.{answered, handle_http}
use hexbuffer_proxy.Server.Client.{Later, done, finish_http, serve_route, serve_client}
use hexbuffer_proxy.Server.Streaming.{body_end}
use hexbuffer_proxy.Server.Blocked.{answered_with}
use hexbuffer_proxy.Server.Refused.{plain_context}
use hexbuffer_proxy.Server.Forwarded.{whole, Exchange, handle_http_forwarded}

module _ (http : HttpCrate) (syntax : HttpSyntax http) where
  -- A request that a client can print: its method is one, and no CONNECT; the target is ASCII text without white
  -- space; the body is in memory; header values are visible text with no white space at their ends; one of them
  -- names the host. It fits into the first read.
  pub record IsSendable (req : Request http) (host : Str) : Type 0 where
    pub body : Bytes
    pub method : syntax.is_method req.method ≡ true
    pub plain_http : starts_with (codes "CONNECT") req.method ≡ false
    pub target : IsToken (syntax.uri_to_string req.uri)
    pub in_memory : req.body ≡ full body
    pub values : All (λ kv. IsPlain http syntax kv.1) (http.iter req.headers)
    pub host_value : Bytes
    pub named : get http req.headers (codes "host") ≡ some host_value
    pub host_text : http.to_str host_value ≡ some host
    pub fits : length (serialize_request http syntax req) ≤ 4096

  printed-words :
      (laws : SyntaxLaws http syntax) (req : Request http) (host : Str)
      → IsSendable req host
      → (rest : Bytes) × (serialize_request http syntax req ≡ req.method ++ b' ' ∷ rest)
  printed-words laws req host s =
      let u = syntax.uri_to_string req.uri in
      (
        (u ++ codes " HTTP/1.1")
            ++ (codes "\r\n" ++ (serialize_headers (http.iter req.headers) ++ s.body)),
        serialize_request-request_line http syntax req s.body
              (laws.method-IsToken req.method s.method) s.target s.in_memory
            ∙ append_assoc req.method (b' ' ∷ (u ++ codes " HTTP/1.1")) _,
      )

  serialize_request-plain_http :
      (laws : SyntaxLaws http syntax) (req : Request http) (host : Str)
      → IsSendable req host
      → (starts_with (codes "CONNECT") (serialize_request http syntax req) ≡ false)
        × (is_empty (serialize_request http syntax req) ≡ false)
  serialize_request-plain_http laws req host s =
      let (rest, e) = printed-words laws req host s in
      (
        rw e (
            starts_with-word b' ' (codes "CONNECT") req.method rest (unfold contains_char in refl)
              s.plain_http),
        rw e (
            is_empty-append req.method (b' ' ∷ rest)
              (laws.method-IsToken req.method s.method).nonempty),
      )

  pub handle_client-printed :
      (laws : SyntaxLaws http syntax) (req : Request http) (host : Str) (ending : Ending)
      → IsSendable req host
      → handle_client
          (record { incoming = serialize_request http syntax req; arrivals = []; ending = ending })
        ≡ ok (
          Dispatch.http (serialize_request http syntax req),
          record { incoming = []; arrivals = []; ending = ending },
        )
  unfolding handle_client route
  handle_client-printed laws req host ending s =
      let (plain, nonempty) = serialize_request-plain_http laws req host s in
      rw (read_whole 4096 (serialize_request http syntax req) ending nonempty s.fits)
        (rw plain refl)

  pub extract_host-named :
      (req : Request http) (host : Str) (bytes : Bytes)
      → IsSendable req host
      → extract_host http req bytes ≡ some host
  unfolding extract_host
  extract_host-named req host bytes s = rw (extract_host, s.named, s.host_text) refl

module _ (http : HttpCrate) (syntax : HttpSyntax http) {W : Type 0} (outside : Outside http W)
    (handler : HttpHandler http W) (ws_handler : Option (WebSocketHandler http W))
    (later : Later http) (tools : CertTools) (ca : CertificationAuthority tools) (m : Machine) where
  serve_route-plain :
      (server_error : Failure → Str) (buf_size : ℕ) (client_addr : Str) (bytes : Bytes)
      (st st' : State W)
      → handle_http http syntax outside handler buf_size client_addr bytes st ≡ (ok answered, st')
      → serve_route http syntax outside handler ws_handler later tools server_error buf_size
          client_addr ca m
          (Dispatch.http bytes)
          st
        ≡ (ok (done, ca, m), st')
  unfolding serve_route finish_http
  serve_route-plain server_error buf_size client_addr bytes st st' served = rw served refl

  -- A client that sends a plain HTTP request, all at once, gets the server's response as the handler left it, head and
  -- body, and a shutdown; the handler sees the request as the client meant it, and the server gets it as the
  -- handler left it, in absolute form. The certificate authority is left alone, and of the rest of the state only
  -- the next request's number and the world change. The crate `http` behaves as documented, the client's
  -- connection stays up, and the response's body is in memory or its stream does not fail.
  pub serve_client-Exchange :
      (server_error : Failure → Str) (buf_size : ℕ) (peer_addr : Option Str) (req : Request http)
      (host : Str) (ending : Ending) (st : State W) (modified : Response http) (w : W)
      → SyntaxLaws http syntax
      → IsSendable http syntax req host
      → st.client.luck ≡ []
      → Exchange http syntax outside handler
          (plain_context host (unwrap_or peer_addr (codes "127.0.0.1:0")) st, st.world)
          host
          req
          modified
          w
      → body_end http syntax modified.body ≡ ok _
      → serve_client http syntax outside handler ws_handler later tools server_error buf_size
          peer_addr ca m
          (record { incoming = serialize_request http syntax req; arrivals = []; ending = ending })
          st
        ≡ (
          ok (done, ca, m),
          record st {
            client = answered_with (whole http syntax modified) st.client;
            request_id = suc st.request_id % 2 ^ 64;
            world = w;
          },
        )
  unfolding serve_client
  serve_client-Exchange server_error buf_size peer_addr req host ending st modified w laws s lucky
        ex clean =
      let bytes = serialize_request http syntax req in
      let client_addr = unwrap_or peer_addr (codes "127.0.0.1:0") in
      let parsed =
        parse_raw_request-serialize_request http syntax laws req s.body s.method s.target
          s.in_memory s.values in
      rw (handle_client-printed http syntax laws req host ending s) (
        serve_route-plain server_error buf_size client_addr bytes st _ (
          handle_http_forwarded http syntax outside handler buf_size client_addr host bytes req st
            modified w lucky parsed (extract_host-named http syntax req host bytes s) ex clean))
