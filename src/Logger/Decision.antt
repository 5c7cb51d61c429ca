-- ===== src/Logger/Decision.antt =====
-- What the command line proxy does with a host and with a request.
use hexbuffer_proxy.Prelude.{
  ◌↔◌, true, ℕ, suc, ◌%◌, ◌^◌, ◌≡◌, refl, sym, ap₂, subst₂, ◌∙◌, Bool, not, ◌&&◌, inl, inr, List,
  [], ◌∷◌, some, arith, Bool-cases, Option, Outcome, ok, >>=-eq-ok,
}
use hexbuffer_proxy.Text.{Bytes, Str}
use hexbuffer_proxy.Error.{Failure}
use hexbuffer_proxy.Http.{HttpCrate}
use hexbuffer_proxy.Handler.Types.{HttpContext, Request, Response, request, HttpHandler}
use hexbuffer_proxy.Builder.Stack.{handler_stack, stack_request, stack_response, stack_intercept}
use hexbuffer_proxy.Builder.Enabled.{Shared, load, enabled_wrapper_handler}
use hexbuffer_proxy.Builder.Proxy.{Proxy, ProxyBuilder, build, calls, call, new_builder}
use hexbuffer_proxy.Builder.Assembly.{build_handler}
use hexbuffer_proxy.Ca.Tools.{CertTools, Machine}
use hexbuffer_proxy.Ca.Store.{CertificationAuthority}
use hexbuffer_proxy.Ca.Store
use hexbuffer_proxy.Wire.Syntax.{HttpSyntax}
use hexbuffer_proxy.Logger.Handlers.{
  Terminal, print, logged_request, logged_response, log_request, log_response, logging_handler,
  is_passed, passthrough_handler,
}
use hexbuffer_proxy.Logger.Domains.{IsWithin, is_passed_iff}
use hexbuffer_proxy.Logger.Main.{
  enabled_by_default, passthrough_domains, main_calls, start_proxy, main_proxy,
}

module _ (http : HttpCrate) (syntax : HttpSyntax http) where
  -- The two handlers of the program.
  abbrev pub both : List (HttpHandler http (Shared Terminal))
  both = logging_handler http syntax ∷ passthrough_handler http passthrough_domains ∷ []

  -- What a proxy does with these handlers behind its flag.
  pub record Logs (p : HttpHandler http (Shared Terminal)) (enabled : ℕ) : Type 0 where
    pub intercepts :
        (host : Str) (w : Shared Terminal)
        → p.should_intercept_tls host w
          ≡ (load enabled w && not (is_passed passthrough_domains host), w)
    pub passes :
        (host : Str)
        → (is_passed passthrough_domains host ≡ true) ↔ IsWithin passthrough_domains host
    pub requests :
        (req : Request http) (ctx : HttpContext) (w : Shared Terminal)
        → let ctx' = record ctx { id = w.rest.counter } in
          p.handle_request req (ctx, w) ≡ (
            ok (request req),
            (
              ctx',
              print
                  (logged_request http syntax ctx' req)
                  (record w { rest = record w.rest { counter = suc w.rest.counter % 2 ^ 64 } }),
            ),
          )
    pub responses :
        (res : Response http) (ctx : HttpContext) (w : Shared Terminal)
        → p.handle_response res (ctx, w)
          ≡ (ok res, (ctx, print (logged_response http syntax ctx res) w))

  both-Logs :
      (enabled : ℕ) → Logs (enabled_wrapper_handler http (handler_stack http both) enabled) enabled
  unfolding enabled_wrapper_handler handler_stack stack_request stack_response stack_intercept
      logging_handler passthrough_handler log_request log_response
  both-Logs enabled = record {
    intercepts = λ host w. elim (Bool-cases (load enabled w)) [
      | inl on ↦ elim (Bool-cases (is_passed passthrough_domains host)) [
        | inl passed ↦ rw (on, passed) refl
        | inr asked ↦ rw (on, asked) refl
      ]
      | inr off ↦ rw off refl
    ];
    passes = is_passed_iff passthrough_domains;
    requests = λ req ctx w. refl;
    responses = λ res ctx w. refl;
  }

ended_parts :
    {A B C : Type 0} {a a' : A} {b b' : B} {c c' : C}
    → ◌≡◌ {A = Outcome Failure (Option A × B × C)} (ok (some a, b, c)) (ok (some a', b', c'))
    → (a ≡ a') × (b ≡ b') × (c ≡ c')
ended_parts h = (cc, cc, cc)

module _ (http : HttpCrate) (syntax : HttpSyntax http) (tools : CertTools)
    (close_reason : Bytes → Str) where
  -- The builder's state behind the calls of `main`.
  abbrev built :
      CertificationAuthority tools
      → Bool
      → Shared Terminal
      → ProxyBuilder http tools Terminal × Shared Terminal
  built ca enabled w =
      calls http tools Terminal (main_calls http syntax tools close_reason ca enabled)
        (new_builder http tools Terminal w)

  built_lem :
      (ca : CertificationAuthority tools) (enabled : Bool) (w : Shared Terminal)
      → let (b, w') = built ca enabled w in
        (b.handlers ≡ both http syntax) × (load b.enabled w' ≡ enabled)
  unfolding calls call new_builder
  built_lem ca enabled w = (refl, ground arith)

  start_proxy_parts :
      (enabled : Bool) (w w' : Shared Terminal) (m m' : Machine) (p : Proxy http tools Terminal)
      → start_proxy http syntax tools close_reason enabled w m ≡ ok (some p, w', m')
      → (ca : CertificationAuthority tools) × (m1 : Machine) × (build http tools Terminal
            (built ca enabled w).0
            m1
          ≡ ok (p, m'))
        × ((built ca enabled w).1 ≡ w')
  unfolding start_proxy
  start_proxy_parts enabled w w' m m' p h =
      let ((ca, m1), _, rest) = >>=-eq-ok (Store.new tools m) _ h in
      let ((q, m2), made, ends) =
        >>=-eq-ok (build http tools Terminal (built ca enabled w).0 m1) _ rest in
      let (proxies, worlds, machines) = ended_parts ends in
      (ca, m1, made ∙ ap₂ (λ x y. ok (x, y)) proxies machines, worlds)

  main_proxy-start_proxy :
      (args : List Str) (w w' : Shared Terminal) (m m' : Machine) (p : Proxy http tools Terminal)
      → main_proxy http syntax tools close_reason args w m ≡ ok (some p, w', m')
      → start_proxy http syntax tools close_reason (enabled_by_default args) w m
        ≡ ok (some p, w', m')
  unfolding main_proxy
  main_proxy-start_proxy args w w' m m' p h = ground arith

  -- Where `main` starts a proxy, it is enabled unless the arguments say `--disabled` or `--disable`. From then on it
  -- intercepts a host's TLS connections exactly while it is enabled, and if the host is neither one of three domains
  -- nor a name below one, at a dot; every request passes unchanged under the next number, and every response unchanged, and
  -- each of them leaves one line.
  pub main_proxy-Logs :
      (args : List Str) (w w' : Shared Terminal) (m m' : Machine) (p : Proxy http tools Terminal)
      → main_proxy http syntax tools close_reason args w m ≡ ok (some p, w', m')
      → (load p.enabled w' ≡ enabled_by_default args) × Logs http syntax p.handler p.enabled
  unfolding calls
  main_proxy-Logs args w w' m m' p h =
      let enabled = enabled_by_default args in
      let (ca, m1, made, same) =
        start_proxy_parts enabled w w' m m' p (main_proxy-start_proxy args w w' m m' p h) in
      let (handlers, on) = built_lem ca enabled w in
      let (handler, flag, _, _) =
        build_handler http tools Terminal (built ca enabled w).0 m1 made in
      (
        ap₂ load flag (sym same) ∙ on,
        subst₂ (Logs http syntax) (sym handler) (sym flag)
            (both-Logs http syntax (built ca enabled w).0.enabled),
      )
