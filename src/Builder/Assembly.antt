-- ===== src/Builder/Assembly.antt =====
-- What a built proxy does with its handlers and its flag.
use hexbuffer_proxy.Prelude.{
  ℕ, ◌≡◌, refl, sym, ap, ◌∙◌, false, List, [], ◌∷◌, ◌++◌, append_assoc, append-nil, some, arith, ok,
  >>=-eq-ok, ◌≢◌,
}
use hexbuffer_proxy.Text.{Str}
use hexbuffer_proxy.Http.{HttpCrate}
use hexbuffer_proxy.Handler.Types.{HttpHandler}
use hexbuffer_proxy.Handler.Noop.{noop_handler}
use hexbuffer_proxy.Builder.Stack.{handler_stack, stack_request, stack_response, stack_intercept}
use hexbuffer_proxy.Builder.Enabled.{Shared, load, store, enabled_wrapper_handler}
use hexbuffer_proxy.Builder.Chain.{handler_stack_one}
use hexbuffer_proxy.Builder.Proxy.{
  ProxyBuilder, Proxy, Call, with_http_handler, add_http_handler, with_addr, with_ca,
  with_ws_handler, with_request_buffer_size, with_enabled, with_cert_dir, call, calls,
  chosen_handler, chosen_ca, build, enable, disable,
}
use hexbuffer_proxy.Ca.Tools.{CertTools, Machine}

module _ (http : HttpCrate) (tools : CertTools) (S : Type 0) where
  chosen_handler-stack :
      (hs : List (HttpHandler http (Shared S)))
      → chosen_handler http tools S hs ≡ handler_stack http hs
  unfolding chosen_handler handler_stack stack_request stack_response stack_intercept noop_handler
  chosen_handler-stack [] = refl
  chosen_handler-stack (h ∷ []) = sym (handler_stack_one http h)
  chosen_handler-stack (h ∷ k ∷ hs) = refl

  -- A built proxy runs all its handlers as a stack behind the flag, also where it has none or only
  -- one and `build` makes no stack.
  pub build_handler :
      (b : ProxyBuilder http tools S) (m : Machine) {p : Proxy http tools S} {m' : Machine}
      → build http tools S b m ≡ ok (p, m')
      → (p.handler ≡ enabled_wrapper_handler http (handler_stack http b.handlers) b.enabled)
        × (p.enabled ≡ b.enabled)
        × (p.addr ≡ b.addr)
        × (p.request_buffer_size ≡ b.request_buffer_size)
  unfolding build
  build_handler b m {p} h =
      let (c, _, e) = >>=-eq-ok (chosen_ca http tools S b.ca b.cert_dir m) _ h in
      let q : (record {
        addr = b.addr;
        ca = c.0;
        handler = enabled_wrapper_handler http (chosen_handler http tools S b.handlers) b.enabled;
        ws_handler = b.ws_handler;
        request_buffer_size = b.request_buffer_size;
        enabled = b.enabled;
      })
          ≡ p =
        cc e in
      (
        sym (ap (λ x. x.handler) q)
            ∙ ap (λ k. enabled_wrapper_handler http k b.enabled) (chosen_handler-stack b.handlers),
        sym (ap (λ x. x.enabled) q),
        sym (ap (λ x. x.addr) q),
        sym (ap (λ x. x.request_buffer_size) q),
      )

  -- While a built proxy is disabled, it intercepts no host and asks no handler. Once it is enabled it
  -- asks its handlers as a stack. Both calls change the proxy's own flag alone.
  pub build_toggle :
      (b : ProxyBuilder http tools S) (m : Machine) {p : Proxy http tools S} {m' : Machine}
      → build http tools S b m ≡ ok (p, m')
      → (host : Str) (w : Shared S)
      → (p.handler.should_intercept_tls host (disable http tools S p w)
          ≡ (false, disable http tools S p w))
        × (p.handler.should_intercept_tls host (enable http tools S p w)
            ≡ stack_intercept http b.handlers host (enable http tools S p w))
        × ((other : ℕ)
            → other ≢ p.enabled
            → (load other (disable http tools S p w) ≡ load other w)
              × (load other (enable http tools S p w) ≡ load other w))
  unfolding enabled_wrapper_handler handler_stack disable enable
  build_toggle b m {p} h host w =
      let (same, flag, _, _) = build_handler b m h in
      (
        rw (same, flag) (ground arith),
        rw (same, flag) (ground arith),
        λ other ne. (ground arith, ground arith),
      )

  -- The handlers that a row of builder calls adds.
  abbrev pub added : List (Call http tools S) → List (HttpHandler http (Shared S))
  added [] = []
  added (add_http_handler h ∷ cs) = h ∷ added cs
  added (_ ∷ cs) = added cs

  -- No call of the row sets the primary handler.
  abbrev pub NeverResets : List (Call http tools S) → Type 0
  NeverResets [] = Unit {0}
  NeverResets (with_http_handler h ∷ cs) = ⊥
  NeverResets (_ ∷ cs) = NeverResets cs

  calls-added :
      (cs : List (Call http tools S)) (b : ProxyBuilder http tools S) (w : Shared S)
      → NeverResets cs
      → (calls http tools S cs (b, w)).0.handlers ≡ b.handlers ++ added cs
  unfolding calls
  calls-added [] b w h = sym (append-nil b.handlers)
  calls-added (add_http_handler k ∷ cs) b w h =
      calls-added cs (record b { handlers = b.handlers ++ k ∷ [] }) w h
      ∙ append_assoc b.handlers (k ∷ []) (added cs)
  calls-added (with_http_handler k ∷ cs) b w h = absurd h
  calls-added (with_addr a ∷ cs) b w h = calls-added cs (record b { addr = a }) w h
  calls-added (with_ca a ∷ cs) b w h = calls-added cs (record b { ca = some a }) w h
  calls-added (with_ws_handler a ∷ cs) b w h = calls-added cs (record b { ws_handler = some a }) w h
  calls-added (with_request_buffer_size a ∷ cs) b w h =
      calls-added cs (record b { request_buffer_size = a }) w h
  calls-added (with_enabled a ∷ cs) b w h = calls-added cs b (store b.enabled a w) h
  calls-added (with_cert_dir a ∷ cs) b w h = calls-added cs (record b { cert_dir = some a }) w h

  calls-append :
      (cs ds : List (Call http tools S)) (st : ProxyBuilder http tools S × Shared S)
      → calls http tools S (cs ++ ds) st ≡ calls http tools S ds (calls http tools S cs st)
  unfolding calls
  calls-append [] ds st = refl
  calls-append (c ∷ cs) ds st = calls-append cs ds (call http tools S c st)

  -- `with_http_handler` forgets the handlers of all calls before it, and the handlers added behind it
  -- follow it in order, whatever other builder calls stand between.
  pub calls_reset :
      (before after : List (Call http tools S)) (h : HttpHandler http (Shared S))
      (st : ProxyBuilder http tools S × Shared S)
      → NeverResets after
      → (calls http tools S (before ++ with_http_handler h ∷ after) st).0.handlers ≡ h ∷ added after
  unfolding calls
  calls_reset before after h st never =
      let (b, w) = calls http tools S before st in
      ap (λ x. x.0.handlers) (calls-append before (with_http_handler h ∷ after) st)
      ∙ calls-added after (record b { handlers = h ∷ [] }) w never
