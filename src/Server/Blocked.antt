-- ===== src/Server/Blocked.antt =====
-- Requests that the proxy answers itself.
use hexbuffer_proxy.Prelude.{
  ℕ, suc, ◌%◌, ◌^◌, ◌≡◌, refl, ◌∙◌, true, false, [], ◌++◌, some, none, ok,
}
use hexbuffer_proxy.Text.{Bytes, Str}
use hexbuffer_proxy.Http.{HttpCrate}
use hexbuffer_proxy.Handler.Types.{HttpContext, Request, Response, response, HttpHandler}
use hexbuffer_proxy.Wire.Syntax.{HttpSyntax}
use hexbuffer_proxy.Wire.Parse.{parse_raw_request}
use hexbuffer_proxy.Wire.Serialize.{serialize_response}
use hexbuffer_proxy.Server.Conn.{Conn, shutdown}
use hexbuffer_proxy.Server.Streaming.{write_all_lucky}
use hexbuffer_proxy.Server.Run.{State}
use hexbuffer_proxy.Server.Host.{extract_host}
use hexbuffer_proxy.Server.Outside.{Outside}
use hexbuffer_proxy.Server.Plain.{
  answered, bad_request, send_and_shut, answer_http, with_host, serve_http, handle_http,
}

-- The connection behind an answer.
abbrev pub answered_with : Bytes → Conn → Conn
answered_with b c = record c { written = c.written ++ b; shut = true }

pub shutdown_lucky : (c : Conn) → c.luck ≡ [] → shutdown c ≡ (ok _, record c { shut = true })
unfolding shutdown
shutdown_lucky c h = rw (h, shutdown) (λ i. (ok _, record c { shut = true; luck = h i }))

module _ (http : HttpCrate) (syntax : HttpSyntax http) {W : Type 0} (outside : Outside http W)
    (handler : HttpHandler http W) where
  send_and_shut_lucky :
      (b : Bytes) (st : State W)
      → st.client.luck ≡ []
      → send_and_shut http syntax outside handler b st
        ≡ (ok answered, record st { client = answered_with b st.client })
  send_and_shut_lucky b st h =
      rw (write_all_lucky b st.client h)
        (rw (shutdown_lucky (record st.client { written = st.client.written ++ b }) h) refl)

  pub parsed_lem :
      (buf_size : ℕ) (client_addr : Str) (bytes : Bytes) (req : Request http) (st : State W)
      → parse_raw_request http syntax bytes ≡ ok req
      → handle_http http syntax outside handler buf_size client_addr bytes st
        ≡ with_host http syntax outside handler buf_size client_addr req
            (extract_host http req bytes)
            st
  unfolding handle_http
  parsed_lem buf_size client_addr bytes req st parsed = rw parsed refl

  served_lem :
      (buf_size : ℕ) (client_addr host : Str) (req : Request http) (st : State W)
      {res : Response http} {ctx : HttpContext} {w : W}
      → handler.handle_request req (
        record { id = st.request_id; host = host; client_addr = client_addr; is_https = false },
        st.world,
      )
        ≡ (ok (response res), (ctx, w))
      → serve_http http syntax outside handler buf_size client_addr host req st
        ≡ send_and_shut http syntax outside handler
            (serialize_response http syntax res)
            (record st { request_id = suc st.request_id % 2 ^ 64; world = w })
  unfolding serve_http answer_http
  served_lem buf_size client_addr host req st answer = rw answer refl

  -- On a connection that stays up, a request for which no host is found gets status 400 and nothing else, no
  -- handler is called, and the proxy opens no connection.
  handle_http_hostless :
      (buf_size : ℕ) (client_addr : Str) (bytes : Bytes) (req : Request http) (st : State W)
      → st.client.luck ≡ []
      → parse_raw_request http syntax bytes ≡ ok req
      → extract_host http req bytes ≡ none
      → handle_http http syntax outside handler buf_size client_addr bytes st
        ≡ (ok answered, record st { client = answered_with bad_request st.client })
  handle_http_hostless buf_size client_addr bytes req st lucky parsed hostless =
      parsed_lem buf_size client_addr bytes req st parsed
      ∙ rw hostless (send_and_shut_lucky bad_request st lucky)

  -- On a connection that stays up, a request that the handler answers gets that answer and nothing else, and
  -- the proxy opens no connection: of the rest of the state only the next request's number and the
  -- handler's own world change. The handler sees the host, the number and the request as read.
  pub handle_http_blocked :
      (buf_size : ℕ) (client_addr host : Str) (bytes : Bytes) (req : Request http) (st : State W)
      (res : Response http) (ctx : HttpContext) (w : W)
      → st.client.luck ≡ []
      → parse_raw_request http syntax bytes ≡ ok req
      → extract_host http req bytes ≡ some host
      → handler.handle_request req (
        record { id = st.request_id; host = host; client_addr = client_addr; is_https = false },
        st.world,
      )
        ≡ (ok (response res), (ctx, w))
      → handle_http http syntax outside handler buf_size client_addr bytes st ≡ (
        ok answered,
        record st {
          client = answered_with (serialize_response http syntax res) st.client;
          request_id = suc st.request_id % 2 ^ 64;
          world = w;
        },
      )
  handle_http_blocked buf_size client_addr host bytes req st res ctx w lucky parsed found answer =
      parsed_lem buf_size client_addr bytes req st parsed
      ∙ rw found (
          served_lem buf_size client_addr host req st answer
          ∙ (send_and_shut_lucky (serialize_response http syntax res)
              (record st { request_id = suc st.request_id % 2 ^ 64; world = w }) lucky))
