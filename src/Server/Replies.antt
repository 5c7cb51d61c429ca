-- ===== src/Server/Replies.antt =====
-- How the requests of a TLS tunnel are answered.
use hexbuffer_proxy.Prelude.{
  suc, ◌%◌, ◌^◌, ◌≡◌, refl, ◌⊎◌, inl, inr, true, Bool-cases, Option-cases, ◌++◌, Outcome, ok, err,
  panic, out_of_fuel,
}
use hexbuffer_proxy.Text.{Str, codes}
use hexbuffer_proxy.Error.{Failure, message, ProxyError}
use hexbuffer_proxy.Http.{HttpCrate}
use hexbuffer_proxy.Handler.Types.{
  HttpContext, Request, Response, RequestOrResponse, request, response, HttpHandler,
}
use hexbuffer_proxy.Wire.Syntax.{HttpSyntax}
use hexbuffer_proxy.Server.Run.{State, continue, attempted, from_handler}
use hexbuffer_proxy.Server.Upgrade.{handle_https_websocket}
use hexbuffer_proxy.Server.Outside.{Outside, absolute, in_world}
use hexbuffer_proxy.Server.Tunnel.{
  bad_gateway, forward_https, answer_https, handle_https_request, behind_upstream, or_bad_gateway,
}

-- A call that ends: with a value or an error.
abbrev pub Ends : {E A : Type 0} → Outcome E A → Type 0
Ends (ok a) = Unit
Ends (err e) = Unit
Ends panic = ⊥
Ends out_of_fuel = ⊥

module _ (http : HttpCrate) (syntax : HttpSyntax http) {W : Type 0} (outside : Outside http W)
    (handler : HttpHandler http W) where
  -- What becomes of a request: a response; an error, for a target with no absolute form; or the
  -- WebSocket upgrade's own outcome.
  pub data Reply (host : Str) (r : Outcome Failure (Response http) × State W) : Type 0 where
    replied : (res : Response http) (st : State W) → r ≡ (ok res, st) → Reply host r
    no_target :
        (req : Request http) (f : Failure) (st : State W)
        → absolute http syntax (codes "https://") host req ≡ err f
        → r ≡ (err f, st)
        → Reply host r
    upgraded :
        (req : Request http) (ctx : HttpContext) (st : State W)
        → outside.is_upgrade_request req ≡ true
        → r ≡ handle_https_websocket http syntax outside host ctx req st
        → Reply host r

  -- The calls of the handler and of Hyper's client end.
  pub record AllEnd : Type 0 where
    pub request_ends :
        (req : Request http) (s : HttpContext × W) → Ends (handler.handle_request req s).0
    pub response_ends :
        (res : Response http) (s : HttpContext × W) → Ends (handler.handle_response res s).0
    pub upstream_ends : (req : Request http) (w : W) → Ends (outside.send_request req w).0

  absolute_cases :
      (host : Str) (req : Request http)
      → ((req' : Request http) × (absolute http syntax (codes "https://") host req ≡ ok req'))
        ⊎ ((f : Failure) × (absolute http syntax (codes "https://") host req ≡ err f))
  unfolding absolute
  absolute_cases host req = elim (Bool-cases (syntax.has_scheme req.uri)) [
    | inl has ↦ inl (req, rw has refl)
    | inr has_not ↦
        elim (Option-cases
          (syntax.parse_uri (codes "https://" ++ host ++ syntax.uri_to_string req.uri))) [
            | inl e ↦ inr (
              message (
                  codes "invalid absolute URI: "
                  ++ syntax.uri_error (codes "https://" ++ host ++ syntax.uri_to_string req.uri)),
              rw (has_not, e) refl,
            )
            | inr (u, e) ↦ inl (record req { uri = u }, rw (has_not, e) refl)
          ]
  ]

  or_bad_gateway-Reply :
      (host : Str) (o : Outcome ProxyError (Response http) × (HttpContext × W)) (st : State W)
      → Ends o.0
      → Reply host
          (continue (attempted (from_handler o st)) (or_bad_gateway http syntax outside handler))
  or_bad_gateway-Reply host (ok res, s) st e = replied res _ refl
  or_bad_gateway-Reply host (err x, s) st e =
      replied (bad_gateway http syntax outside handler) _ refl
  or_bad_gateway-Reply host (panic, s) st e = elim e [ ]
  or_bad_gateway-Reply host (out_of_fuel, s) st e = elim e [ ]

  module _ (host : Str) (ends : AllEnd) where
    behind_upstream-Reply :
        (o : Outcome Failure (Response http) × W) (ctx : HttpContext) (st : State W)
        → Ends o.0
        → Reply host
            (continue (attempted (in_world o st)) (behind_upstream http syntax outside handler ctx))
    behind_upstream-Reply (ok res, w) ctx st e =
        or_bad_gateway-Reply host (handler.handle_response res (ctx, w)) (record st { world = w })
          (ends.response_ends res (ctx, w))
    behind_upstream-Reply (err x, w) ctx st e =
        replied (bad_gateway http syntax outside handler) _ refl
    behind_upstream-Reply (panic, w) ctx st e = elim e [ ]
    behind_upstream-Reply (out_of_fuel, w) ctx st e = elim e [ ]

    forward_https-Reply :
        (req : Request http) (ctx : HttpContext) (st : State W)
        → Reply host (forward_https http syntax outside handler host ctx req st)
    unfolding forward_https
    forward_https-Reply req ctx st = elim (absolute_cases host req) [
      | inl (req', same) ↦ rw same (
          behind_upstream-Reply (outside.send_request req' st.world) ctx st
            (ends.upstream_ends req' st.world))
      | inr (f, bad) ↦ rw bad (no_target req f st bad refl)
    ]

    answer_https-Reply :
        (o : Outcome ProxyError (RequestOrResponse http) × (HttpContext × W)) (st : State W)
        → Ends o.0
        → Reply host (
            continue
              (attempted (from_handler o st))
              (answer_https http syntax outside handler host))
    unfolding answer_https
    answer_https-Reply (ok (response res), s) st e = replied res _ refl
    answer_https-Reply (ok (request req), s) st e =
        elim (Bool-cases (outside.is_upgrade_request req)) [
          | inl up ↦ rw up (upgraded req s.0 (record st { world = s.1 }) up refl)
          | inr not_up ↦ rw not_up (forward_https-Reply req s.0 (record st { world = s.1 }))
        ]
    answer_https-Reply (err x, s) st e = replied (bad_gateway http syntax outside handler) _ refl
    answer_https-Reply (panic, s) st e = elim e [ ]
    answer_https-Reply (out_of_fuel, s) st e = elim e [ ]

    -- `handle_https_request` gives every request a response, also where the handler refuses the request or
    -- the response and where the server cannot be reached. The exceptions are a request whose target has
    -- no absolute form, which is an error, and a WebSocket upgrade, which has its own outcome. The
    -- handler's calls and Hyper's client end with a value or an error.
    pub handle_https_request-Reply :
        (client_addr : Str) (req : Request http) (st : State W)
        → Reply host (handle_https_request http syntax outside handler host client_addr req st)
    unfolding handle_https_request
    handle_https_request-Reply client_addr req st =
        let ctx : HttpContext = record {
          id = st.request_id;
          host = host;
          client_addr = client_addr;
          is_https = true;
        } in
        answer_https-Reply (handler.handle_request req (ctx, st.world))
          (record st { request_id = suc st.request_id % 2 ^ 64 })
          (ends.request_ends req (ctx, st.world))
