-- ===== src/Tests/Serving.antt =====
-- Runs of what serves a client, and of the printer and reader of messages.
use hexbuffer_proxy.Prelude.{ℕ, suc, ◌≡◌, refl, true, false, [], ◌∷◌, some, ok, err}
use hexbuffer_proxy.Text.{
  Bytes, codes, contains_char, equal, from_utf8_lossy, lines, split_whitespace, trim, to_lowercase,
  is_whitespace, after?, before, split_first,
}
use hexbuffer_proxy.Text.Ascii.{is_ascii-IsAscii, is_word-IsWord}
use hexbuffer_proxy.Text.Equal.{equal_self}
use hexbuffer_proxy.Error.{protocol, message}
use hexbuffer_proxy.Handler.Types.{
  Request, Response, full, streaming, request, response, HttpHandler,
}
use hexbuffer_proxy.Wire.Parse.{
  parse_raw_request, header_lines, add_headers, build_request, body_bytes,
}
use hexbuffer_proxy.Wire.Serialize.{serialize_request, serialize_response, serialize_response_head}
use hexbuffer_proxy.Wire.Laws.{IsPlain}
use hexbuffer_proxy.Wire.RoundTrip.{parse_raw_request-serialize_request}
use hexbuffer_proxy.Server.Conn.{write_all, after_ok, write_body_to_stream}
use hexbuffer_proxy.Server.Host.{extract_host}
use hexbuffer_proxy.Server.Dispatch.{https, route}
use hexbuffer_proxy.Server.Connect.{connect_line, route-connect_line}
use hexbuffer_proxy.Server.Plain.{answered, handle_http}
use hexbuffer_proxy.Server.Tunnel.{handle_https_request}
use hexbuffer_proxy.Server.Streaming.{streamed-serialize_response}
use hexbuffer_proxy.Server.Replies.{AllEnd, Reply, handle_https_request-Reply}
use hexbuffer_proxy.Server.Blocked.{answered_with, handle_http_blocked}
use hexbuffer_proxy.Tests.Instances.{http}
use hexbuffer_proxy.Tests.Syntax.{
  fresh, state, syntax, outside, small, small_syntax, small_laws, path-IsToken,
}

abbrev pub plain_request : Request small
plain_request = record {
  method = codes "GET";
  uri = 2;
  headers = codes "a.example" ∷ [];
  body = full (255 ∷ codes "\r\n\r\n");
}

pub value-IsPlain : IsPlain small small_syntax (codes "a.example")
unfolding contains_char trim
value-IsPlain = record {
  ascii = is_ascii-IsAscii (codes "a.example") refl;
  one_line = refl;
  no_return = refl;
  trimmed = refl;
  same = refl;
}

parse_raw_request-serialize_request_example :
    parse_raw_request small small_syntax (serialize_request small small_syntax plain_request)
    ≡ ok plain_request
parse_raw_request-serialize_request_example =
    parse_raw_request-serialize_request small small_syntax small_laws plain_request
      (255 ∷ codes "\r\n\r\n") (equal_self (codes "GET")) (path-IsToken 2) refl (value-IsPlain, _)

route-connect_line_example :
    (route (connect_line (codes "a.example") []) ≡ ok (https (codes "a.example:443")))
    × (route (connect_line (codes "a.example:8443") []) ≡ ok (https (codes "a.example:8443")))
    × (split_first b':' (codes "a.example:443") ≡ codes "a.example")
    × (split_first b':' (codes "a.example:8443") ≡ codes "a.example")
unfolding is_whitespace contains_char
route-connect_line_example =
    route-connect_line (codes "a.example") (codes "8443") []
      (is_ascii-IsAscii (codes "a.example") refl) (is_word-IsWord (codes "a.example") refl)
      (is_ascii-IsAscii (codes "8443") refl) (is_word-IsWord (codes "8443") refl) refl refl

-- One that refuses a request by an answer of its own, and every response by an error.
abbrev refusal : Response http
refusal = record {
  status = 403;
  headers = (codes "content-length", codes "0") ∷ [];
  body = full [];
}

abbrev blocker : HttpHandler http ℕ
blocker = record {
  handle_request = λ req st. (ok (response refusal), (st.0, suc st.1));
  handle_response = λ res st. (err (protocol (codes "no")), st);
  should_intercept_tls = λ host w. (true, w);
}

abbrev pub grumbler : HttpHandler http ℕ
grumbler = record {
  handle_request = λ req st. (ok (request req), st);
  handle_response = λ res st. (err (protocol (codes "no")), st);
  should_intercept_tls = λ host w. (true, w);
}

abbrev pub asked : Bytes
asked = codes "GET / HTTP/1.1\r\nHost: a.example\r\n\r\n"

abbrev pub asked_request : Request http
asked_request = record {
  method = codes "GET";
  uri = codes "/";
  headers = (codes "host", codes "a.example") ∷ [];
  body = full [];
}

pub asked_parsed : parse_raw_request http syntax asked ≡ ok asked_request
unfolding parse_raw_request build_request add_headers header_lines lines from_utf8_lossy after?
    before split_whitespace to_lowercase body_bytes
asked_parsed = refl

pub asked_host : extract_host http asked_request asked ≡ some (codes "a.example")
unfolding extract_host equal
asked_host = refl

handle_http_blocked_example :
    handle_http http syntax outside blocker 16384 (codes "127.0.0.1:1") asked state ≡ (
      ok answered,
      record state {
        client = answered_with (serialize_response http syntax refusal) fresh;
        request_id = 2;
        world = 1;
      },
    )
handle_http_blocked_example =
    handle_http_blocked http syntax outside blocker 16384 (codes "127.0.0.1:1") (codes "a.example")
      asked asked_request state refusal
      (record {
        id = 1;
        host = codes "a.example";
        client_addr = codes "127.0.0.1:1";
        is_https = false;
      })
      1 refl asked_parsed asked_host refl

abbrev streamed : Response http
streamed = record { status = 200; headers = []; body = streaming (codes "abc") }

streamed-serialize_response_example :
    after_ok
      (write_all (serialize_response_head http syntax streamed) fresh)
      (write_body_to_stream http syntax streamed.body)
    ≡ (
      err (message (codes "body stream error: reset")),
      record fresh {
        written = serialize_response http syntax (record streamed { body = full (codes "abc") });
      },
    )
streamed-serialize_response_example = streamed-serialize_response http syntax streamed fresh refl

pub all_end : AllEnd http syntax outside grumbler
all_end = record {
  request_ends = λ req s. _;
  response_ends = λ res s. _;
  upstream_ends = λ req w. _;
}

handle_https_request-Reply_example : Reply http syntax outside grumbler (codes "a.example") (
    handle_https_request http syntax outside grumbler
      (codes "a.example")
      (codes "127.0.0.1:1")
      asked_request
      state)
handle_https_request-Reply_example =
    handle_https_request-Reply http syntax outside grumbler (codes "a.example") all_end
      (codes "127.0.0.1:1") asked_request state
