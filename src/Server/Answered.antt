-- ===== src/Server/Answered.antt =====
-- Every connection in a tunnel that ends well has answered its requests as Answers says.
use hexbuffer_proxy.Prelude.{
  suc, ◌%◌, ◌^◌, ◌≡◌, refl, sym, ap, subst, subst₂, false, inl, inr, Bool-cases, List, [], ◌∷◌,
  Outcome, ok, err, panic, out_of_fuel,
}
use hexbuffer_proxy.Text.{Str, codes}
use hexbuffer_proxy.Error.{Failure, ProxyError}
use hexbuffer_proxy.Http.{HttpCrate}
use hexbuffer_proxy.Handler.Types.{
  HttpContext, Request, RequestOrResponse, Response, request, response, HttpHandler,
}
use hexbuffer_proxy.Wire.Syntax.{HttpSyntax}
use hexbuffer_proxy.Server.Run.{State, ◌>>=◌, attempt, attempted, from_handler, continue}
use hexbuffer_proxy.Server.Outside.{Outside, absolute, ask, in_world}
use hexbuffer_proxy.Server.Tunnel.{
  or_bad_gateway, behind_upstream, handle_https_request, answer_https, forward_https,
}
use hexbuffer_proxy.Server.Session.{SessionEnd, next_request, serve_requests}
use hexbuffer_proxy.Server.Answers.{
  behind, tunnel_context, Passes, Answer, by_handler, refused, unreachable, kept_back, exchanged,
  upgraded, Answers, none_left, answered_first,
}

module _ (http : HttpCrate) (syntax : HttpSyntax http) {W : Type 0} (outside : Outside http W)
    (handler : HttpHandler http W) (host client_addr : Str) (req : Request http) (st : State W)
    (a : Response http) (s : State W) where
  abbrev IsAnswer : Type 0
  IsAnswer = Answer http syntax outside handler host client_addr req st a s

  -- An answer by another name.
  as_answer :
      {res : Response http} {st' : State W}
      → ◌≡◌ {A = Outcome Failure (Response http) × State W} (ok res, st') (ok a, s)
      → Answer http syntax outside handler host client_addr req st res st'
      → IsAnswer
  as_answer h one =
      subst₂ (Answer http syntax outside handler host client_addr req st) (cc h) (ap (λ x. x.1) h)
        one

  response-Answer :
      (sent : Request http) (got : Response http) (ctx : HttpContext) (w1 w2 : W)
      (o : Outcome ProxyError (Response http) × (HttpContext × W))
      → Passes http syntax outside handler host client_addr req st sent ctx w1
      → outside.send_request sent w1 ≡ (ok got, w2)
      → handler.handle_response got (ctx, w2) ≡ o
      → continue
          (attempted (from_handler o (behind http syntax outside handler host client_addr st w2)))
          (or_bad_gateway http syntax outside handler)
        ≡ (ok a, s)
      → IsAnswer
  response-Answer sent got ctx w1 w2 (ok modified, (ctx', w)) p received shown h =
      as_answer h (exchanged sent got modified ctx ctx' w1 w2 w p received shown)
  response-Answer sent got ctx w1 w2 (err e, (ctx', w)) p received shown h =
      as_answer h (kept_back sent got ctx ctx' w1 w2 w e p received shown)
  response-Answer sent got ctx w1 w2 (panic, (ctx', w)) p received shown h = cc
  response-Answer sent got ctx w1 w2 (out_of_fuel, (ctx', w)) p received shown h = cc

  sent-Answer :
      (sent : Request http) (ctx : HttpContext) (w1 : W) (o : Outcome Failure (Response http) × W)
      → Passes http syntax outside handler host client_addr req st sent ctx w1
      → outside.send_request sent w1 ≡ o
      → continue
          (attempted (in_world o (behind http syntax outside handler host client_addr st w1)))
          (behind_upstream http syntax outside handler ctx)
        ≡ (ok a, s)
      → IsAnswer
  sent-Answer sent ctx w1 (ok got, w2) p received h =
      response-Answer sent got ctx w1 w2 (handler.handle_response got (ctx, w2)) p received refl h
  sent-Answer sent ctx w1 (err e, w2) p received h =
      as_answer h (unreachable sent ctx w1 w2 e p received)
  sent-Answer sent ctx w1 (panic, w2) p received h = cc
  sent-Answer sent ctx w1 (out_of_fuel, w2) p received h = cc

  absolute-Answer :
      (passed : Request http) (ctx : HttpContext) (w : W) (o : Outcome Failure (Request http))
      → handler.handle_request req
          (tunnel_context http syntax outside handler host client_addr st, st.world)
        ≡ (ok (request passed), (ctx, w))
      → outside.is_upgrade_request passed ≡ false
      → absolute http syntax (codes "https://") host passed ≡ o
      → continue
          (o, behind http syntax outside handler host client_addr st w)
          (λ sent.
            attempt (ask (outside.send_request sent))
            >>= behind_upstream http syntax outside handler ctx)
        ≡ (ok a, s)
      → IsAnswer
  absolute-Answer passed ctx w (ok sent) asked plain target h =
      sent-Answer sent ctx w (outside.send_request sent w)
        (record { passed = passed; asked = asked; no_upgrade = plain; target = target }) refl h
  absolute-Answer passed ctx w (err e) asked plain target h = cc
  absolute-Answer passed ctx w panic asked plain target h = cc
  absolute-Answer passed ctx w out_of_fuel asked plain target h = cc

  asked-Answer :
      (o : Outcome ProxyError (RequestOrResponse http) × (HttpContext × W))
      → handler.handle_request req
          (tunnel_context http syntax outside handler host client_addr st, st.world)
        ≡ o
      → continue
          (attempted (from_handler o (record st { request_id = suc st.request_id % 2 ^ 64 })))
          (answer_https http syntax outside handler host)
        ≡ (ok a, s)
      → IsAnswer
  unfolding answer_https forward_https
  asked-Answer (ok (response res), (ctx, w)) asked h = as_answer h (by_handler res ctx w asked)
  asked-Answer (ok (request passed), (ctx, w)) asked h =
      elim (Bool-cases (outside.is_upgrade_request passed)) [
        | inl up ↦ upgraded passed a ctx w s asked up (rw up at h)
        | inr plain ↦
            absolute-Answer passed ctx w (absolute http syntax (codes "https://") host passed) asked
              plain refl (rw plain at h)
      ]
  asked-Answer (err e, (ctx, w)) asked h = as_answer h (refused e ctx w asked)
  asked-Answer (panic, (ctx, w)) asked h = cc
  asked-Answer (out_of_fuel, (ctx, w)) asked h = cc

  handle_https_request-IsAnswer :
      handle_https_request http syntax outside handler host client_addr req st ≡ (ok a, s)
      → IsAnswer
  unfolding handle_https_request
  handle_https_request-IsAnswer h =
      asked-Answer
        (handler.handle_request req
          (tunnel_context http syntax outside handler host client_addr st, st.world))
        refl h

module _ (http : HttpCrate) (syntax : HttpSyntax http) {W : Type 0} (outside : Outside http W)
    (handler : HttpHandler http W) where
  next_request_parts :
      (server_error : Failure → Str) (o : Outcome Failure (Response http) × State W)
      (rest : State W → SessionEnd http syntax outside handler) {responses : List (Response http)}
      {st' : State W}
      → next_request http syntax outside handler server_error o rest ≡ (responses, (ok _, st'))
      → (res : Response http) × (st1 : State W) × (o ≡ (ok res, st1))
        × (responses ≡ res ∷ (rest st1).0)
        × ((rest st1).1 ≡ (ok _, st'))
  next_request_parts server_error (ok res, st1) rest h =
      (res, st1, refl, ap (λ x. x.0) (sym h), ap (λ x. x.1) h)
  next_request_parts server_error (err x, st1) rest h = cc
  next_request_parts server_error (panic, st1) rest h = cc
  next_request_parts server_error (out_of_fuel, st1) rest h = cc

  pub serve_requests-answered :
      (server_error : Failure → Str) (host client_addr : Str) (reqs : List (Request http))
      (st : State W) {responses : List (Response http)} {st' : State W}
      → serve_requests http syntax outside handler server_error host client_addr reqs st
        ≡ (responses, (ok _, st'))
      → Answers http syntax outside handler host client_addr reqs st responses st'
  unfolding serve_requests
  serve_requests-answered server_error host client_addr [] st {responses} {st'} h =
      subst₂ (Answers http syntax outside handler host client_addr [] st) (ap (λ x. x.0) h)
        (ap (λ x. x.1.1) h) (none_left st)
  serve_requests-answered server_error host client_addr (req ∷ reqs) st {responses} {st'} h =
      let rest = serve_requests http syntax outside handler server_error host client_addr reqs in
      let (res, st1, one, first, ends) =
        next_request_parts server_error
          (handle_https_request http syntax outside handler host client_addr req st) rest h in
      subst (λ x. Answers http syntax outside handler host client_addr (req ∷ reqs) st x st')
        (sym first)
        (answered_first req reqs res (rest st1).0 st st1 st'
          (handle_https_request-IsAnswer http syntax outside handler host client_addr req st res st1
            one)
          (serve_requests-answered server_error host client_addr reqs st1
            (ap (λ e. ((rest st1).0, e)) ends)))
