-- ===== src/Server/Forwarded.antt =====
-- Plain requests that the server answers.
use hexbuffer_proxy.Prelude.{
  ℕ, suc, ◌%◌, ◌^◌, ◌≡◌, refl, ap, ◌∙◌, true, false, some, [], ok, ◌++◌, append_assoc,
}
use hexbuffer_proxy.Text.{Bytes, Str, codes}
use hexbuffer_proxy.Http.{HttpCrate}
use hexbuffer_proxy.Handler.Types.{HttpContext, Request, Response, request, full, HttpHandler}
use hexbuffer_proxy.Ws.Detect.{is_websocket_upgrade}
use hexbuffer_proxy.Wire.Syntax.{HttpSyntax}
use hexbuffer_proxy.Wire.Parse.{parse_raw_request}
use hexbuffer_proxy.Wire.Serialize.{serialize_response, serialize_response_head}
use hexbuffer_proxy.Server.Run.{State}
use hexbuffer_proxy.Server.Host.{extract_host}
use hexbuffer_proxy.Server.Outside.{Outside, absolute}
use hexbuffer_proxy.Server.Plain.{
  answered, reply_with, answer_http, forward_request, serve_http, handle_http,
}
use hexbuffer_proxy.Server.Streaming.{
  write_all_lucky, write_body_to_stream_lucky, body_data, body_end,
}
use hexbuffer_proxy.Server.Blocked.{parsed_lem, shutdown_lucky, answered_with}
use hexbuffer_proxy.Server.Refused.{plain_context}

module _ (http : HttpCrate) (syntax : HttpSyntax http) where
  -- All bytes of a response, its body in memory.
  abbrev pub whole : Response http → Bytes
  whole res =
      serialize_response http syntax (record res { body = full (body_data http syntax res.body) })

module _ (http : HttpCrate) (syntax : HttpSyntax http) {W : Type 0} (outside : Outside http W)
    (handler : HttpHandler http W) where
  reply_with_lucky :
      (res : Response http) (st : State W)
      → st.client.luck ≡ []
      → body_end http syntax res.body ≡ ok _
      → reply_with http syntax outside handler res st
        ≡ (ok answered, record st { client = answered_with (whole http syntax res) st.client })
  unfolding serialize_response serialize_response_head
  reply_with_lucky res st lucky clean =
      let head = serialize_response_head http syntax res in
      let c1 = record st.client { written = st.client.written ++ head } in
      let c2 = record c1 { written = c1.written ++ body_data http syntax res.body } in
      rw (write_all_lucky head st.client lucky) (
        rw (write_body_to_stream_lucky http syntax res.body c1 lucky) (
          rw clean (
            rw (shutdown_lucky c2 lucky) (
              ap
                (λ w. (
                  ok answered,
                  record st { client = record st.client { written = w; shut = true } },
                ))
                (append_assoc st.client.written head (body_data http syntax res.body))))))

  -- A plain request that the handler lets through, the server's response to it, and what the handler makes of this.
  pub record Exchange (s : HttpContext × W) (host : Str) (req : Request http)
      (modified : Response http) (w : W) : Type 0 where
    pub passed : Request http
    pub sent : Request http
    pub got : Response http
    pub ctx : HttpContext
    pub ctx' : HttpContext
    pub w1 : W
    pub w2 : W
    pub plain : is_websocket_upgrade http req ≡ false
    pub asked : handler.handle_request req s ≡ (ok (request passed), (ctx, w1))
    pub target : absolute http syntax (codes "http://") host passed ≡ ok sent
    pub received : outside.send_request sent w1 ≡ (ok got, w2)
    pub shown : handler.handle_response got (ctx, w2) ≡ (ok modified, (ctx', w))

  serve_http_forwarded :
      (buf_size : ℕ) (client_addr host : Str) (req : Request http) (st : State W)
      (modified : Response http) (w : W)
      → Exchange (plain_context host client_addr st, st.world) host req modified w
      → serve_http http syntax outside handler buf_size client_addr host req st
        ≡ reply_with http syntax outside handler modified
            (record st { request_id = suc st.request_id % 2 ^ 64; world = w })
  unfolding serve_http answer_http forward_request
  serve_http_forwarded buf_size client_addr host req st modified w ex =
      rw (ex.asked, ex.plain) (rw ex.target (rw ex.received (rw ex.shown refl)))

  -- A plain request that the handler lets through is sent on as the handler left it, in absolute form, and the
  -- client gets the server's response as the handler left it, head and body, and a shutdown. Of the
  -- rest of the state only the next request's number and the world change. The client's connection
  -- stays up, and the body is in memory or its stream does not fail.
  pub handle_http_forwarded :
      (buf_size : ℕ) (client_addr host : Str) (bytes : Bytes) (req : Request http) (st : State W)
      (modified : Response http) (w : W)
      → st.client.luck ≡ []
      → parse_raw_request http syntax bytes ≡ ok req
      → extract_host http req bytes ≡ some host
      → Exchange (plain_context host client_addr st, st.world) host req modified w
      → body_end http syntax modified.body ≡ ok _
      → handle_http http syntax outside handler buf_size client_addr bytes st ≡ (
        ok answered,
        record st {
          client = answered_with (whole http syntax modified) st.client;
          request_id = suc st.request_id % 2 ^ 64;
          world = w;
        },
      )
  handle_http_forwarded buf_size client_addr host bytes req st modified w lucky parsed found ex
        clean =
      parsed_lem http syntax outside handler buf_size client_addr bytes req st parsed
      ∙ rw found (
          serve_http_forwarded buf_size client_addr host req st modified w ex
          ∙ reply_with_lucky modified
              (record st { request_id = suc st.request_id % 2 ^ 64; world = w }) lucky clean)
