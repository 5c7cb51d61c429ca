-- ===== src/Inspector/Recent.antt =====
-- What the history holds while the application runs.
use hexbuffer_proxy.Prelude.{
  ℕ, ◌≤◌, ◌≡◌, ◌≢◌, ◌&&◌, ◌++◌, Bool, true, false, if◌then◌else◌, arith, ap, refl, inl, inr, List,
  [], ◌∷◌, length, Bool-cases, Option-cases, Outcome, ok, err, panic, out_of_fuel,
}
use hexbuffer_proxy.Text.{Bytes, Str, codes, contains, equal}
use hexbuffer_proxy.Text.Equal.{equal_iff}
use hexbuffer_proxy.Error.{ProxyError}
use hexbuffer_proxy.Http.{HttpCrate}
use hexbuffer_proxy.Handler.Types.{HttpContext, Direction, WebSocketMessage, Request, Response}
use hexbuffer_proxy.Builder.Enabled.{Shared}
use hexbuffer_proxy.Builder.Proxy.{Proxy}
use hexbuffer_proxy.Ca.Tools.{CertTools}
use hexbuffer_proxy.Wire.Syntax.{HttpSyntax}
use hexbuffer_proxy.Inspector.Clock.{instant_now}
use hexbuffer_proxy.Inspector.Traffic.{TrafficRecord, Metadata, App, find}
use hexbuffer_proxy.Inspector.Web.{HttpMore}
use hexbuffer_proxy.Inspector.Requests.{
  is_dashboard, mock_path, answer_mock, note_request, inspect_request, record_response,
  mark_response, inspect_response,
}
use hexbuffer_proxy.Inspector.Frames.{inspect_frame}
use hexbuffer_proxy.Inspector.Dashboard.{
  Json, DashboardRoute, page, ca_download, history, status, clear, toggle, events, not_found,
  trigger, answer_dashboard, handle_dashboard_request, clear_history, dashboard_route,
}
use hexbuffer_proxy.Inspector.Window.{
  Keeps, last, sent_between, record_traffic-Keeps, no_more-Keeps, Keeps-last, length-last,
}

-- What happens to the application: the calls of its two handlers by the proxy, and the requests to its dashboard.
module _ (http : HttpCrate) where
  pub data AppEvent : Type 0 where
    request_seen : HttpContext → Request http → AppEvent
    response_seen : HttpContext → Response http → AppEvent
    frame_seen : HttpContext → WebSocketMessage → Direction → AppEvent
    dashboard_asked : (method path : Str) → AppEvent

module _ (http : HttpCrate) (syntax : HttpSyntax http) (more : HttpMore http) (tools : CertTools)
    (json : Json) (proxy : Proxy http tools App) where
  unfoldable pub happen : AppEvent http → Shared App → Shared App
  unfolding inspect_request inspect_response inspect_frame handle_dashboard_request
  happen (request_seen ctx req) w = (inspect_request http syntax more req (ctx, w)).1.1
  happen (response_seen ctx res) w = (inspect_response http syntax more res (ctx, w)).1.1
  happen (frame_seen ctx msg direction) w = (inspect_frame http msg direction (ctx, w)).1.1
  happen (dashboard_asked method path) w =
      (handle_dashboard_request http tools json proxy method path w).1

  unfoldable pub run_app : List (AppEvent http) → Shared App → Shared App
  unfolding happen
  run_app [] w = w
  run_app (e ∷ es) w = run_app es (happen e w)

  abbrev pub AppKeeps : Shared App → Shared App → Type 0
  AppKeeps w w' = Keeps w.rest.history w.rest.sent w'.rest.history w'.rest.sent

  inspect_request-Keeps :
      (ctx : HttpContext) (req : Request http) (w : Shared App)
      → AppKeeps w (inspect_request http syntax more req (ctx, w)).1.1
  unfolding inspect_request answer_mock note_request
  inspect_request-Keeps ctx req w = elim (Bool-cases (is_dashboard http syntax more ctx req)) [
    | inl own ↦ rw own no_more-Keeps
    | inr other ↦ elim (Bool-cases (equal (more.path req.uri) mock_path)) [
      | inl mock ↦ rw (other, mock) (record_traffic-Keeps _ w.rest)
      | inr real ↦ rw (other, real) no_more-Keeps
    ]
  ]

  record_response-Keeps :
      (res : Response http) (entry : Metadata) (duration : ℕ) (o : Outcome ProxyError Bytes)
      (st : HttpContext × Shared App)
      → AppKeeps st.1 (record_response http syntax more res entry duration o st).1.1
  unfolding record_response
  record_response-Keeps res entry duration (ok b) (ctx, w) = record_traffic-Keeps _ w.rest
  record_response-Keeps res entry duration (err e) st = no_more-Keeps
  record_response-Keeps res entry duration panic st = no_more-Keeps
  record_response-Keeps res entry duration out_of_fuel st = no_more-Keeps

  inspect_response-Keeps :
      (ctx : HttpContext) (res : Response http) (w : Shared App)
      → AppKeeps w (inspect_response http syntax more res (ctx, w)).1.1
  unfolding inspect_response
  inspect_response-Keeps ctx res w = elim (Bool-cases (contains (codes ":8081") ctx.host)) [
    | inl own ↦ rw own no_more-Keeps
    | inr other ↦ elim (Option-cases (find ctx.id w.rest.req_start)) [
      | inl missing ↦
          rw (other, missing)
            (record_response-Keeps (mark_response http syntax more res)
              ((instant_now w.rest.clock).0, [], []) _ _ _)
      | inr (entry, found) ↦
          rw (other, found) (record_response-Keeps (mark_response http syntax more res) entry _ _ _)
    ]
  ]

  -- Whether an event empties the history.
  abbrev pub clears : AppEvent http → Bool
  unfolding equal
  clears (request_seen ctx req) = false
  clears (response_seen ctx res) = false
  clears (frame_seen ctx msg direction) = false
  clears (dashboard_asked method path) =
      equal method (codes "POST") && equal path (codes "/api/clear")

  dashboard_route-clear :
      (method path : Str)
      → clears (dashboard_asked method path) ≡ false
      → dashboard_route method path ≢ clear
  unfolding dashboard_route
  dashboard_route-clear method path h = ground arith

  clear-dashboard_route :
      (method path : Str)
      → clears (dashboard_asked method path) ≡ true
      → dashboard_route method path ≡ clear
  unfolding dashboard_route
  clear-dashboard_route method path h =
      let post : equal method (codes "POST") ≡ true = ground arith in
      let there : equal path (codes "/api/clear") ≡ true = ground arith in
      rw ((equal_iff method (codes "POST")).0 post, there) refl

  answer_dashboard-Keeps :
      (r : DashboardRoute) (w : Shared App)
      → r ≢ clear
      → AppKeeps w (answer_dashboard http tools json proxy r w).1
  unfolding answer_dashboard
  answer_dashboard-Keeps clear w ne = absurd (ne refl)
  answer_dashboard-Keeps page w ne = no_more-Keeps
  answer_dashboard-Keeps ca_download w ne = no_more-Keeps
  answer_dashboard-Keeps history w ne = no_more-Keeps
  answer_dashboard-Keeps status w ne = no_more-Keeps
  answer_dashboard-Keeps toggle w ne = no_more-Keeps
  answer_dashboard-Keeps events w ne = no_more-Keeps
  answer_dashboard-Keeps not_found w ne = no_more-Keeps
  answer_dashboard-Keeps (trigger t) w ne = no_more-Keeps

  happen-Keeps : (e : AppEvent http) (w : Shared App) → clears e ≡ false → AppKeeps w (happen e w)
  unfolding happen inspect_frame handle_dashboard_request
  happen-Keeps (request_seen ctx req) w h = inspect_request-Keeps ctx req w
  happen-Keeps (response_seen ctx res) w h = inspect_response-Keeps ctx res w
  happen-Keeps (frame_seen ctx msg direction) w h = record_traffic-Keeps _ w.rest
  happen-Keeps (dashboard_asked method path) w h =
      answer_dashboard-Keeps (dashboard_route method path) w (dashboard_route-clear method path h)

  happen-clears :
      (e : AppEvent http) (w : Shared App) → clears e ≡ true → (happen e w).rest.history ≡ []
  unfolding happen handle_dashboard_request answer_dashboard clear_history
  happen-clears (request_seen ctx req) w h = cc
  happen-clears (response_seen ctx res) w h = cc
  happen-clears (frame_seen ctx msg direction) w h = cc
  happen-clears (dashboard_asked method path) w h =
      ap (λ r. (answer_dashboard http tools json proxy r w).1.rest.history)
        (clear-dashboard_route method path h)

  -- The records that are sent to subscribers since the history was last emptied; `acc` are those at the start.
  abbrev pub sent_since :
      List (AppEvent http) → Shared App → List TrafficRecord → List TrafficRecord
  sent_since [] w acc = acc
  sent_since (e ∷ es) w acc =
      sent_since es (happen e w)
        (if clears e then [] else acc ++ sent_between w.rest.sent (happen e w).rest.sent)

  happen-last :
      (e : AppEvent http) (w : Shared App) (acc : List TrafficRecord)
      → w.rest.history ≡ last 100 acc
      → (happen e w).rest.history
        ≡ last 100 (if clears e then [] else acc ++ sent_between w.rest.sent (happen e w).rest.sent)
  happen-last e w acc h = elim (Bool-cases (clears e)) [
    | inl emptied ↦ rw emptied (happen-clears e w emptied)
    | inr other ↦ rw other (Keeps-last acc (happen-Keeps e w other) h)
  ]

  -- Whatever the proxy shows to the application's handlers and whatever its dashboard is asked, in any order, the
  -- history is the last hundred, or all, of the records that were sent to subscribers since `POST /api/clear` was last
  -- asked, in their order. At the start it is the last hundred of some records, which count as sent. So it never has
  -- more than a hundred records.
  pub run_app-last :
      (es : List (AppEvent http)) (w : Shared App) (acc : List TrafficRecord)
      → w.rest.history ≡ last 100 acc
      → let w' = run_app es w in
        (w'.rest.history ≡ last 100 (sent_since es w acc)) × (length w'.rest.history ≤ 100)
  unfolding run_app
  run_app-last [] w acc h = (h, length-last w.rest.history acc h)
  run_app-last (e ∷ es) w acc h = run_app-last es (happen e w) _ (happen-last e w acc h)
