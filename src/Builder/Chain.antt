-- ===== src/Builder/Chain.antt =====
-- A stack of handlers as one handler behind another.
use hexbuffer_proxy.Prelude.{
  ◌≡◌, refl, Bool, true, false, [], ◌∷◌, Outcome, ok, err, panic, out_of_fuel,
}
use hexbuffer_proxy.Error.{ProxyError}
use hexbuffer_proxy.Http.{HttpCrate}
use hexbuffer_proxy.Handler.Types.{
  HttpContext, Act, pure, continue, ◌>>=◌, Response, RequestOrResponse, request, response,
  HttpHandler,
}
use hexbuffer_proxy.Builder.Stack.{
  stack_request, stack_response, stack_intercept, handler_stack, next_intercept,
}

module _ (http : HttpCrate) {W : Type 0} where
  -- What the second handler does with the answer of the first.
  abbrev pub forward : HttpHandler http W → RequestOrResponse http → Act W (RequestOrResponse http)
  forward h (request req) = h.handle_request req
  forward h (response res) = pure (response res)

  -- The handler that changes nothing and agrees to the interception of every host.
  abbrev pub passes_all : HttpHandler http W
  passes_all = record {
    handle_request = λ req. pure (request req);
    handle_response = λ res. pure res;
    should_intercept_tls = λ host w. (true, w);
  }

  -- Handler `a` in front of handler `b`, for requests, for responses and for the TLS question.
  abbrev pub in_front_of : HttpHandler http W → HttpHandler http W → HttpHandler http W
  in_front_of a b = record {
    handle_request = λ req. (a.handle_request req >>= forward b);
    handle_response = λ res. (a.handle_response res >>= b.handle_response);
    should_intercept_tls =
        λ host w. next_intercept http (a.should_intercept_tls host w) (b.should_intercept_tls host);
  }

  continue-request :
      (o : Outcome ProxyError (RequestOrResponse http) × (HttpContext × W))
      → continue o
          (λ r. elim r [ request q ↦ pure (request q) | response res ↦ pure (response res) ])
        ≡ o
  continue-request (ok (request q), s) = refl
  continue-request (ok (response res), s) = refl
  continue-request (err e, s) = refl
  continue-request (panic, s) = refl
  continue-request (out_of_fuel, s) = refl

  continue-response :
      (o : Outcome ProxyError (Response http) × (HttpContext × W))
      → continue o (λ res. pure res) ≡ o
  continue-response (ok res, s) = refl
  continue-response (err e, s) = refl
  continue-response (panic, s) = refl
  continue-response (out_of_fuel, s) = refl

  next_intercept-true : (o : Bool × W) → next_intercept http o (λ w. (true, w)) ≡ o
  next_intercept-true (true, w) = refl
  next_intercept-true (false, w) = refl

  pub handler_stack_one : (h : HttpHandler http W) → handler_stack http (h ∷ []) ≡ h
  unfolding handler_stack stack_request stack_response stack_intercept
  handler_stack_one h = λ i. record {
    handle_request = λ req st. continue-request (h.handle_request req st) i;
    handle_response = λ res st. continue-response (h.handle_response res st) i;
    should_intercept_tls = λ host w. next_intercept-true (h.should_intercept_tls host w) i;
  }
