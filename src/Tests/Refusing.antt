-- ===== src/Tests/Refusing.antt =====
-- A run of a plain request whose response the handler refuses.
use hexbuffer_proxy.Prelude.{◌≡◌, refl, [], err}
use hexbuffer_proxy.Text.{codes, equal}
use hexbuffer_proxy.Error.{protocol, from_proxy}
use hexbuffer_proxy.Handler.Types.{HttpContext, Request, full}
use hexbuffer_proxy.Ws.Detect.{is_websocket_upgrade}
use hexbuffer_proxy.Server.Outside.{absolute}
use hexbuffer_proxy.Server.Plain.{handle_http}
use hexbuffer_proxy.Server.Refused.{plain_context, Refusal, by_response, handle_http_refused}
use hexbuffer_proxy.Tests.Instances.{http}
use hexbuffer_proxy.Tests.Syntax.{state, syntax, outside}
use hexbuffer_proxy.Tests.Serving.{grumbler, asked, asked_request, asked_parsed, asked_host}

abbrev context : HttpContext
context = plain_context (codes "a.example") (codes "127.0.0.1:1") state

abbrev sent_on : Request http
sent_on = record asked_request { uri = codes "http://a.example/" }

response_refused :
    Refusal http syntax outside grumbler
      (context, 0)
      (codes "a.example")
      asked_request
      (from_proxy (protocol (codes "no")))
      1
unfolding is_websocket_upgrade absolute equal
response_refused =
    by_response asked_request sent_on
      (record { status = 200; headers = []; body = full (codes "ok") }) (protocol (codes "no"))
      context context 0 1 refl refl refl refl refl refl

handle_http_refused_example :
    handle_http http syntax outside grumbler 16384 (codes "127.0.0.1:1") asked state
    ≡ (err (from_proxy (protocol (codes "no"))), record state { request_id = 2; world = 1 })
handle_http_refused_example =
    handle_http_refused http syntax outside grumbler 16384 (codes "127.0.0.1:1") (codes "a.example")
      asked asked_request state (from_proxy (protocol (codes "no"))) 1 asked_parsed asked_host
      response_refused
