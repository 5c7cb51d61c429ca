-- ===== src/Inspector/Exchange.antt =====
-- A request and its response, as the application records them.
use hexbuffer_proxy.Prelude.{
  ℕ, ◌-◌, ◌%◌, ◌^◌, ◌≡◌, ◌≢◌, refl, ◌∙◌, false, List, [], ◌∷◌, ◌++◌, none, some, All, arith, ok,
}
use hexbuffer_proxy.Text.{Bytes, Str, codes, contains, equal, from_utf8_lossy}
use hexbuffer_proxy.Http.{HttpCrate}
use hexbuffer_proxy.Handler.Types.{HttpContext, Request, Response, request, full, into_bytes}
use hexbuffer_proxy.Builder.Enabled.{Shared}
use hexbuffer_proxy.Builder.Proxy.{Proxy}
use hexbuffer_proxy.Ca.Tools.{CertTools}
use hexbuffer_proxy.Wire.Syntax.{HttpSyntax}
use hexbuffer_proxy.Inspector.Traffic.{App, TrafficRecord, find, record_traffic}
use hexbuffer_proxy.Inspector.Web.{HttpMore, header_entries}
use hexbuffer_proxy.Inspector.Requests.{
  is_dashboard, mock_path, mark_request, body_text, note_request, inspect_request, record_response,
  mark_response, inspect_response,
}
use hexbuffer_proxy.Inspector.Dashboard.{Json}
use hexbuffer_proxy.Inspector.Recent.{AppEvent, run_app}
use hexbuffer_proxy.Inspector.Pending.{IsOther, find-put_self, find-discard_self, run_app_other}

module _ (http : HttpCrate) (syntax : HttpSyntax http) (more : HttpMore http) where
  -- One record was sent and is the last of the history; it shows the request as it was sent on and the response as
  -- the client gets it, and the time between the two. Nothing waits for the response any more.
  pub record Recorded (ctx : HttpContext) (req : Request http) (res : Response http) (b : Bytes)
      (start now : ℕ) (w w' : App) : Type 0 where
    pub entry : TrafficRecord
    pub sent : w'.sent ≡ w.sent ++ entry ∷ []
    pub id : entry.id ≡ ctx.id
    pub status : entry.status ≡ res.status
    pub req_headers : entry.req_headers ≡ header_entries http req.headers
    pub req_body : entry.req_body ≡ body_text http syntax more req.body
    pub res_headers : entry.res_headers ≡ header_entries http res.headers
    pub res_body : entry.res_body ≡ from_utf8_lossy b
    pub duration : entry.duration_ms ≡ (now - start) % 2 ^ 64
    pub forwarded : entry.short_circuited ≡ false
    pub nothing_waits : find ctx.id w'.req_start ≡ none

  -- A header has this one value, and the others are as before.
  pub record HasHeader (before after : http.Headers) (name : Str) (value : Bytes) : Type 0 where
    pub set : http.get_all after name ≡ value ∷ []
    pub others : (other : Str) → name ≢ other → http.get_all after other ≡ http.get_all before other

  insert-HasHeader :
      (h : http.Headers) (name : Str) (v : Bytes) → HasHeader h (more.insert h name v) name v
  insert-HasHeader h name v = record {
    set = more.get_all-insert_self h name v;
    others = λ other ne. more.get_all-insert_ne h name other v ne;
  }

  host_other :
      (ctx : HttpContext) (req : Request http)
      → is_dashboard http syntax more ctx req ≡ false
      → contains (codes ":8081") ctx.host ≡ false
  unfolding is_dashboard
  host_other ctx req other = ground arith

  inspect_request_kept :
      (ctx : HttpContext) (req : Request http) (w : Shared App)
      → is_dashboard http syntax more ctx req ≡ false
      → equal (more.path req.uri) mock_path ≡ false
      → let (o, (_, w')) = inspect_request http syntax more req (ctx, w) in
        let sent = mark_request http syntax more req in
        (o ≡ ok (request sent))
        × (find ctx.id w'.rest.req_start
            ≡ some (
              w.rest.clock.instants w.rest.clock.readings,
              header_entries http sent.headers,
              body_text http syntax more req.body,
            ))
  unfolding inspect_request note_request
  inspect_request_kept ctx req w other real =
      rw (other, real) (refl, find-put_self ctx.id _ w.rest.req_start)

  inspect_response-Recorded :
      (ctx : HttpContext) (req : Request http) (res : Response http) (b : Bytes) (start : ℕ)
      (w : Shared App)
      → contains (codes ":8081") ctx.host ≡ false
      → into_bytes http res.body ≡ ok b
      → find ctx.id w.rest.req_start
        ≡ some (start, header_entries http req.headers, body_text http syntax more req.body)
      → let (o, (_, w')) = inspect_response http syntax more res (ctx, w) in
        let marked = record (mark_response http syntax more res) { body = full b } in
        (o ≡ ok marked)
        × Recorded ctx req marked b start
            (w.rest.clock.instants w.rest.clock.readings)
            w.rest
            w'.rest
  unfolding inspect_response record_response record_traffic
  inspect_response-Recorded ctx req res b start w other readable found =
      rw (other, readable, found)
        (
          refl,
          record {
            entry = _;
            sent = refl;
            id = refl;
            status = refl;
            req_headers = refl;
            req_body = refl;
            res_headers = refl;
            res_body = refl;
            duration = refl;
            forwarded = refl;
            nothing_waits = find-discard_self ctx.id w.rest.req_start;
          },
        )

  -- A request that is neither the dashboard's own nor one for the mock is sent on with a header that marks it, and
  -- waits for its response. Whatever happens about other requests in between, its response is then given to the client
  -- with its own mark and its body in memory, and one record is made: of this request's headers and body, this
  -- response's headers, status and body, and the milliseconds between the two readings of the clock. Nothing
  -- is left waiting under its number. The response's body can be read.
  pub inspect_request-inspect_response :
      (tools : CertTools) (json : Json) (proxy : Proxy http tools App) (ctx : HttpContext)
      (req : Request http) (res : Response http) (b : Bytes) (es : List (AppEvent http))
      (w : Shared App)
      → is_dashboard http syntax more ctx req ≡ false
      → equal (more.path req.uri) mock_path ≡ false
      → All (IsOther http ctx.id) es
      → into_bytes http res.body ≡ ok b
      → let (o, (_, w1)) = inspect_request http syntax more req (ctx, w) in
        let w2 = run_app http syntax more tools json proxy es w1 in
        let (answer, (_, w3)) = inspect_response http syntax more res (ctx, w2) in
        let sent = mark_request http syntax more req in
        let marked = record (mark_response http syntax more res) { body = full b } in
        (o ≡ ok (request sent))
        × (answer ≡ ok marked)
        × HasHeader req.headers sent.headers (codes "x-hexbuffer-intercepted") (codes "true")
        × HasHeader res.headers marked.headers
            (codes "x-hexbuffer-response-header")
            (codes "processed")
        × Recorded ctx sent marked b
            (w.rest.clock.instants w.rest.clock.readings)
            (w2.rest.clock.instants w2.rest.clock.readings)
            w2.rest
            w3.rest
  inspect_request-inspect_response tools json proxy ctx req res b es w other real others readable =
      let (_, (_, w1)) = inspect_request http syntax more req (ctx, w) in
      let w2 = run_app http syntax more tools json proxy es w1 in
      let (passed, kept) = inspect_request_kept ctx req w other real in
      let still = run_app_other http syntax more tools json proxy ctx.id es w1 others ∙ kept in
      let (answer, recorded) =
        inspect_response-Recorded ctx (mark_request http syntax more req) res b
          (w.rest.clock.instants w.rest.clock.readings) w2 (host_other ctx req other) readable
          still in
      (passed, answer, insert-HasHeader req.headers _ _, insert-HasHeader res.headers _ _, recorded)
