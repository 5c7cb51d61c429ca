-- ===== src/Tests/Tunnels.antt =====
-- A run of a client's connection that comes to a TLS server.
use hexbuffer_proxy.Prelude.{ℕ, ◌≡◌, refl, none, Outcome, ok, [], ◌∷◌}
use hexbuffer_proxy.Text.{
  Bytes, Str, codes, before, starts_with, from_utf8_lossy, lines, split_whitespace, contains_char,
}
use hexbuffer_proxy.Dict.{lookup, insert}
use hexbuffer_proxy.Error.{Failure, protocol}
use hexbuffer_proxy.Handler.Types.{Response, full}
use hexbuffer_proxy.Ca.Forge.{forge_certificate, forge_new, issue}
use hexbuffer_proxy.Reader.Stream.{Stream, closed, read}
use hexbuffer_proxy.Server.Conn.{write_all}
use hexbuffer_proxy.Server.Run.{State}
use hexbuffer_proxy.Server.Outside.{absolute}
use hexbuffer_proxy.Server.Dispatch.{https, handle_client, route}
use hexbuffer_proxy.Server.Tunnel.{
  bad_gateway, open_tunnel, handle_https, handle_https_request, answer_https, forward_https,
}
use hexbuffer_proxy.Server.Session.{serve_requests}
use hexbuffer_proxy.Server.Client.{Kept, Later, tunnelled, finish_https, serve_route, serve_client}
use hexbuffer_proxy.Server.Answers.{
  Passes, Answers, kept_back, none_left, answered_first, tunnel_context,
}
use hexbuffer_proxy.Server.Tunnelled.{connected, serve_client-Answers}
use hexbuffer_proxy.Server.Intercepted.{Intercepts, serve_client-Intercepts}
use hexbuffer_proxy.Tests.Instances.{http, tools}
use hexbuffer_proxy.Tests.Syntax.{state, syntax, outside}
use hexbuffer_proxy.Tests.Serving.{grumbler, asked_request}
use hexbuffer_proxy.Tests.Certifying.{
  authority, started, host, pair, with_pair, nothing_cached, forged,
}

abbrev connecting : Bytes
connecting = codes "CONNECT a.example:8443 HTTP/1.1\r\n\r\n"

abbrev client_stream : Stream
client_stream = record { incoming = connecting; arrivals = []; ending = closed }

abbrev client_addr : Str
client_addr = codes "127.0.0.1:0"

abbrev later : Later http
later = record {
  handshake = ok _;
  requests = asked_request ∷ asked_request ∷ [];
  frames = λ rest. [];
  copying = ok _;
}

unfoldable client_run :
    Outcome Failure (Kept http syntax outside grumbler none later tools) × State ℕ
unfolding serve_client
client_run =
    serve_client http syntax outside grumbler none later tools (λ e. codes "service failed") 64 none
      authority started client_stream state

client_run_ok : client_run ≡ (
  ok (
    tunnelled host pair
        (bad_gateway http syntax outside grumbler ∷ bad_gateway http syntax outside grumbler ∷ []),
    with_pair,
    record started { draws = 9 },
  ),
  client_run.1,
)
unfolding client_run serve_client serve_route handle_client route read starts_with from_utf8_lossy
    lines split_whitespace contains_char handle_https open_tunnel forge_certificate forge_new issue
    lookup insert write_all before finish_https serve_requests handle_https_request answer_https
    forward_https absolute
client_run_ok = refl

serve_client-Intercepts_example :
    (bytes : Bytes) × (rest : Stream) × (read 4096 client_stream ≡ ok (bytes, rest))
    × Intercepts http syntax outside grumbler none later tools authority started bytes client_addr
        state host pair
        (bad_gateway http syntax outside grumbler ∷ bad_gateway http syntax outside grumbler ∷ [])
        with_pair
        client_run.1
unfolding client_run
serve_client-Intercepts_example =
    serve_client-Intercepts http syntax outside grumbler none later tools authority started
      (λ e. codes "service failed") 64 none client_stream state client_run.1 host pair
      (bad_gateway http syntax outside grumbler ∷ bad_gateway http syntax outside grumbler ∷ [])
      with_pair (record started { draws = 9 }) nothing_cached client_run_ok

abbrev passing_on : Str
passing_on = codes "https://a.example/"

abbrev told : State ℕ
told = connected http syntax outside grumbler none later tools authority started state 0

-- The second request's state is what the first one leaves.
abbrev first_answered : State ℕ
first_answered = record told { request_id = 2; world = 1 }

first-Passes :
    Passes http syntax outside grumbler host client_addr asked_request told
      (record asked_request { uri = passing_on })
      (tunnel_context http syntax outside grumbler host client_addr told)
      0
unfolding absolute starts_with
first-Passes = record { passed = asked_request; asked = refl; no_upgrade = refl; target = refl }

second-Passes :
    Passes http syntax outside grumbler host client_addr asked_request first_answered
      (record asked_request { uri = passing_on })
      (tunnel_context http syntax outside grumbler host client_addr first_answered)
      1
unfolding absolute starts_with
second-Passes = record { passed = asked_request; asked = refl; no_upgrade = refl; target = refl }

abbrev got : Response http
got = record { status = 200; headers = []; body = full (codes "ok") }

both_answered :
    Answers http syntax outside grumbler host client_addr later.requests told
      (bad_gateway http syntax outside grumbler ∷ bad_gateway http syntax outside grumbler ∷ [])
      (record told { request_id = 3; world = 2 })
both_answered =
    answered_first asked_request (asked_request ∷ []) _ _ told first_answered _
      (kept_back (record asked_request { uri = passing_on }) got
        (tunnel_context http syntax outside grumbler host client_addr told)
        (tunnel_context http syntax outside grumbler host client_addr told) 0 1 1
        (protocol (codes "no")) first-Passes refl refl)
      (answered_first asked_request [] _ _ first_answered _ _
        (kept_back (record asked_request { uri = passing_on }) got
          (tunnel_context http syntax outside grumbler host client_addr first_answered)
          (tunnel_context http syntax outside grumbler host client_addr first_answered) 1 2 2
          (protocol (codes "no")) second-Passes refl refl)
        (none_left _))

read-connecting : read 4096 client_stream ≡ ok (connecting, record client_stream { incoming = [] })
unfolding read
read-connecting = refl

route-connecting : route connecting ≡ ok (https (codes "a.example:8443"))
unfolding route starts_with from_utf8_lossy lines split_whitespace contains_char
route-connecting = refl

serve_client-Answers_example :
    serve_client http syntax outside grumbler none later tools
      (λ e. codes "service failed")
      64
      none
      authority
      started
      client_stream
      state
    ≡ (
      ok (
        tunnelled host pair (
            bad_gateway http syntax outside grumbler
            ∷ bad_gateway http syntax outside grumbler
            ∷ []),
        with_pair,
        record started { draws = 9 },
      ),
      record told { request_id = 3; world = 2 },
    )
unfolding before
serve_client-Answers_example =
    serve_client-Answers http syntax outside grumbler none later tools authority started
      (λ e. codes "service failed") 64 none client_stream (record client_stream { incoming = [] })
      connecting (codes "a.example:8443") state (record told { request_id = 3; world = 2 }) 0 pair
      with_pair (record started { draws = 9 })
      (bad_gateway http syntax outside grumbler ∷ bad_gateway http syntax outside grumbler ∷ [])
      read-connecting route-connecting refl refl forged refl both_answered
