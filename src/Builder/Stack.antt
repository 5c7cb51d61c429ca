-- ===== src/Builder/Stack.antt =====
-- src/builder.rs: `HandlerStack`, the chain of handlers.
use hexbuffer_proxy.Prelude.{Bool, true, false, List, [], ◌∷◌}
use hexbuffer_proxy.Text.{Str}
use hexbuffer_proxy.Http.{HttpCrate}
use hexbuffer_proxy.Handler.Types.{
  Act, pure, ◌>>=◌, Request, Response, RequestOrResponse, request, response, HttpHandler,
}

module _ (http : HttpCrate) {W : Type 0} where
  -- The loops of the three methods, over the handlers that are left.
  unfoldable pub stack_request :
      List (HttpHandler http W) → Request http → Act W (RequestOrResponse http)
  stack_request [] req = pure (request req)
  stack_request (h ∷ hs) req = do
    r ← h.handle_request req
    elim r [ request req' ↦ stack_request hs req' | response res ↦ pure (response res) ]

  unfoldable pub stack_response : List (HttpHandler http W) → Response http → Act W (Response http)
  stack_response [] res = pure res
  stack_response (h ∷ hs) res = do res' ← h.handle_response res; stack_response hs res'

  abbrev pub next_intercept : Bool × W → (W → Bool × W) → Bool × W
  next_intercept (true, w) rest = rest w
  next_intercept (false, w) rest = (false, w)

  unfoldable pub stack_intercept : List (HttpHandler http W) → Str → W → Bool × W
  stack_intercept [] host w = (true, w)
  stack_intercept (h ∷ hs) host w =
      next_intercept (h.should_intercept_tls host w) (stack_intercept hs host)

  unfoldable pub handler_stack : List (HttpHandler http W) → HttpHandler http W
  unfolding stack_request stack_response stack_intercept
  handler_stack handlers = record {
    handle_request = stack_request handlers;
    handle_response = stack_response handlers;
    should_intercept_tls = stack_intercept handlers;
  }
