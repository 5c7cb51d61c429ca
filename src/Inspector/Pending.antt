-- ===== src/Inspector/Pending.antt =====
-- Which requests wait for their response.
use hexbuffer_proxy.Prelude.{
  ℕ, ◌≡◌, ◌≢◌, refl, ap, ◌∙◌, inl, inr, List, [], ◌∷◌, none, some, arith, All, Bool-cases,
  Option-cases, Outcome, ok, err, panic, out_of_fuel,
}
use hexbuffer_proxy.Text.{Bytes, codes, contains, equal}
use hexbuffer_proxy.Error.{ProxyError}
use hexbuffer_proxy.Http.{HttpCrate}
use hexbuffer_proxy.Handler.Types.{HttpContext, Request, Response}
use hexbuffer_proxy.Builder.Enabled.{Shared}
use hexbuffer_proxy.Builder.Proxy.{Proxy}
use hexbuffer_proxy.Ca.Tools.{CertTools}
use hexbuffer_proxy.Wire.Syntax.{HttpSyntax}
use hexbuffer_proxy.Inspector.Traffic.{
  App, Metadata, RequestMetadataMap, find, discard, put, record_traffic,
}
use hexbuffer_proxy.Inspector.Web.{HttpMore}
use hexbuffer_proxy.Inspector.Requests.{
  is_dashboard, mock_path, answer_mock, note_request, inspect_request, record_response,
  inspect_response,
}
use hexbuffer_proxy.Inspector.Frames.{inspect_frame}
use hexbuffer_proxy.Inspector.Dashboard.{
  Json, DashboardRoute, page, ca_download, history, status, clear, toggle, events, not_found,
  trigger, answer_dashboard, handle_dashboard_request, clear_history, dashboard_route,
}
use hexbuffer_proxy.Inspector.Recent.{
  AppEvent, request_seen, response_seen, frame_seen, dashboard_asked, happen, run_app,
}

pub find-discard_self : (id : ℕ) (m : RequestMetadataMap) → find id (discard id m) ≡ none
unfolding find discard
find-discard_self id [] = refl
find-discard_self id ((k, v) ∷ m) = ground (arith, find-discard_self id m)

pub find-discard_ne :
    (id other : ℕ) (m : RequestMetadataMap) → id ≢ other → find other (discard id m) ≡ find other m
unfolding find discard
find-discard_ne id other [] ne = refl
find-discard_ne id other ((k, v) ∷ m) ne = ground (arith, find-discard_ne id other m)

pub find-put_self : (id : ℕ) (v : Metadata) (m : RequestMetadataMap) → find id (put id v m) ≡ some v
unfolding find
find-put_self id v m = ground arith

pub find-put_ne :
    (id other : ℕ) (v : Metadata) (m : RequestMetadataMap)
    → id ≢ other
    → find other (put id v m) ≡ find other m
unfolding find
find-put_ne id other v m ne = ground (arith, find-discard_ne id other m)

module _ (http : HttpCrate) where
  -- The event is not about the request of this number.
  abbrev pub IsOther : ℕ → AppEvent http → Type 0
  IsOther id (request_seen ctx req) = ctx.id ≢ id
  IsOther id (response_seen ctx res) = ctx.id ≢ id
  IsOther id (frame_seen ctx msg direction) = Unit
  IsOther id (dashboard_asked method path) = Unit

module _ (http : HttpCrate) (syntax : HttpSyntax http) (more : HttpMore http) (tools : CertTools)
    (json : Json) (proxy : Proxy http tools App) (id : ℕ) where
  inspect_request_other :
      (ctx : HttpContext) (req : Request http) (w : Shared App)
      → ctx.id ≢ id
      → find id (inspect_request http syntax more req (ctx, w)).1.1.rest.req_start
        ≡ find id w.rest.req_start
  unfolding inspect_request answer_mock note_request record_traffic
  inspect_request_other ctx req w ne = elim (Bool-cases (is_dashboard http syntax more ctx req)) [
    | inl own ↦ rw own refl
    | inr other ↦ elim (Bool-cases (equal (more.path req.uri) mock_path)) [
      | inl mock ↦ rw (other, mock) refl
      | inr real ↦ rw (other, real) (find-put_ne ctx.id id _ w.rest.req_start ne)
    ]
  ]

  record_response_same :
      (res : Response http) (entry : Metadata) (duration : ℕ) (o : Outcome ProxyError Bytes)
      (st : HttpContext × Shared App)
      → (record_response http syntax more res entry duration o st).1.1.rest.req_start
        ≡ st.1.rest.req_start
  unfolding record_response record_traffic
  record_response_same res entry duration (ok b) (ctx, w) = refl
  record_response_same res entry duration (err e) st = refl
  record_response_same res entry duration panic st = refl
  record_response_same res entry duration out_of_fuel st = refl

  inspect_response_other :
      (ctx : HttpContext) (res : Response http) (w : Shared App)
      → ctx.id ≢ id
      → find id (inspect_response http syntax more res (ctx, w)).1.1.rest.req_start
        ≡ find id w.rest.req_start
  unfolding inspect_response
  inspect_response_other ctx res w ne = elim (Bool-cases (contains (codes ":8081") ctx.host)) [
    | inl own ↦ rw own refl
    | inr other ↦
        let gone = find-discard_ne ctx.id id w.rest.req_start ne in
        elim (Option-cases (find ctx.id w.rest.req_start)) [
          | inl missing ↦ rw (other, missing, record_response_same) gone
          | inr (entry, found) ↦ rw (other, found, record_response_same) gone
        ]
  ]

  answer_dashboard_same :
      (r : DashboardRoute) (w : Shared App)
      → (answer_dashboard http tools json proxy r w).1.rest.req_start ≡ w.rest.req_start
  unfolding answer_dashboard clear_history
  answer_dashboard_same clear w = refl
  answer_dashboard_same page w = refl
  answer_dashboard_same ca_download w = refl
  answer_dashboard_same history w = refl
  answer_dashboard_same status w = refl
  answer_dashboard_same toggle w = refl
  answer_dashboard_same events w = refl
  answer_dashboard_same not_found w = refl
  answer_dashboard_same (trigger t) w = refl

  happen_other :
      (e : AppEvent http) (w : Shared App)
      → IsOther http id e
      → find id (happen http syntax more tools json proxy e w).rest.req_start
        ≡ find id w.rest.req_start
  unfolding happen inspect_frame record_traffic handle_dashboard_request
  happen_other (request_seen ctx req) w ne = inspect_request_other ctx req w ne
  happen_other (response_seen ctx res) w ne = inspect_response_other ctx res w ne
  happen_other (frame_seen ctx msg direction) w ne = refl
  happen_other (dashboard_asked method path) w ne =
      ap (find id) (answer_dashboard_same (dashboard_route method path) w)

  -- What happens about other requests leaves what waits for this one's response.
  pub run_app_other :
      (es : List (AppEvent http)) (w : Shared App)
      → All (IsOther http id) es
      → find id (run_app http syntax more tools json proxy es w).rest.req_start
        ≡ find id w.rest.req_start
  unfolding run_app
  run_app_other [] w ne = refl
  run_app_other (e ∷ es) w (ne, nes) =
      run_app_other es (happen http syntax more tools json proxy e w) nes ∙ happen_other e w ne
