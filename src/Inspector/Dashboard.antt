-- ===== src/Inspector/Dashboard.antt =====
-- examples/test_app/dashboard.rs: `AppState` and `handle_dashboard_request`.
use hexbuffer_proxy.Prelude.{
  ℕ, Bool, true, false, not, List, [], ◌∷◌, ◌++◌, Option, none, some, if◌then◌else◌, length, ◌||◌,
}
use hexbuffer_proxy.Text.{Bytes, Str, codes, equal, as_bytes}
use hexbuffer_proxy.Http.{HttpCrate}
use hexbuffer_proxy.Builder.Enabled.{Shared}
use hexbuffer_proxy.Builder.Proxy.{Proxy, is_enabled, set_enabled}
use hexbuffer_proxy.Ca.Tools.{CertTools}
use hexbuffer_proxy.Inspector.Traffic.{
  TrafficRecord, Trigger, plain_http_test, mock_test, https_mitm_test, ws_test, App,
}

-- examples/test_app/models.rs
pub record StatusResponse : Type 0 where
  pub enabled : Bool
  pub proxy_port : ℕ
  pub dashboard_port : ℕ
  pub upstream_port : ℕ
  pub total_records : ℕ

-- `serde_json::to_string` for the types of the application, and the page that is compiled in.
pub record Json : Type 0 where
  pub records : List TrafficRecord → Str
  pub one_record : TrafficRecord → Str
  pub status : StatusResponse → Str
  pub dashboard_html : Bytes

-- A body in memory, or the stream of events of a subscription to the broadcast channel, which starts behind what
-- was sent before.
pub data DashboardBody : Type 0 where
  full_body : Bytes → DashboardBody
  event_stream : (sent_before : ℕ) → DashboardBody

pub record DashboardResponse : Type 0 where
  pub status : ℕ
  pub headers : List (Str × Str)
  pub body : DashboardBody

-- The paths that the `match` names, by method, and all others.
pub data DashboardRoute : Type 0 where
  page ca_download history status clear toggle events not_found : DashboardRoute
  trigger : Trigger → DashboardRoute

abbrev get_route : Str → DashboardRoute
get_route path =
    if equal path (codes "/")
    then page
    else if equal path (codes "/ca.pem")
        || equal path (codes "/ca.crt")
        || equal path (codes "/api/ca/download")
    then ca_download
    else if equal path (codes "/api/history")
    then history
    else if equal path (codes "/api/status")
    then status
    else if equal path (codes "/events")
    then events
    else not_found

abbrev post_route : Str → DashboardRoute
post_route path =
    if equal path (codes "/api/clear")
    then clear
    else if equal path (codes "/api/toggle")
    then toggle
    else if equal path (codes "/api/trigger/http")
    then trigger plain_http_test
    else if equal path (codes "/api/trigger/mock")
    then trigger mock_test
    else if equal path (codes "/api/trigger/https")
    then trigger https_mitm_test
    else if equal path (codes "/api/trigger/ws")
    then trigger ws_test
    else not_found

unfoldable pub dashboard_route : Str → Str → DashboardRoute
unfolding equal
dashboard_route method path =
    if equal method (codes "GET")
    then get_route path
    else if equal method (codes "POST")
    then post_route path
    else not_found

abbrev pub json_headers : List (Str × Str)
json_headers = (codes "Content-Type", codes "application/json") ∷ []

abbrev pub ok_with : List (Str × Str) → Bytes → DashboardResponse
ok_with headers b = record { status = 200; headers = headers; body = full_body b }

abbrev trigger_name : Trigger → Str
trigger_name plain_http_test = codes "http"
trigger_name mock_test = codes "mock"
trigger_name https_mitm_test = codes "https"
trigger_name ws_test = codes "ws"

abbrev bool_text : Bool → Str
bool_text true = codes "true"
bool_text false = codes "false"

-- `AppState::get_all` and `AppState::clear`.
abbrev pub get_all : App → List TrafficRecord
get_all app = app.history

unfoldable pub clear_history : App → App
clear_history app = record app { history = [] }

module _ (http : HttpCrate) (tools : CertTools) (json : Json) where
  abbrev pub status_response : Proxy http tools App → Shared App → StatusResponse
  status_response proxy w = record {
    enabled = is_enabled http tools App proxy w;
    proxy_port = 8080;
    dashboard_port = 8081;
    upstream_port = 8082;
    total_records = length (get_all w.rest);
  }

  unfoldable pub answer_dashboard :
      Proxy http tools App → DashboardRoute → Shared App → DashboardResponse × Shared App
  unfolding as_bytes set_enabled clear_history
  answer_dashboard proxy page w = (
    ok_with ((codes "Content-Type", codes "text/html; charset=utf-8") ∷ []) json.dashboard_html,
    w,
  )
  answer_dashboard proxy ca_download w = (
    ok_with
        ((codes "Content-Type", codes "application/x-x509-ca-cert")
          ∷ (codes "Content-Disposition", codes "attachment; filename=\"hexbuffer-ca.pem\"")
          ∷ [])
        (as_bytes proxy.ca.ca_cert_pem),
    w,
  )
  answer_dashboard proxy history w =
      (ok_with json_headers (as_bytes (json.records (get_all w.rest))), w)
  answer_dashboard proxy status w =
      (ok_with json_headers (as_bytes (json.status (status_response proxy w))), w)
  answer_dashboard proxy clear w =
      (ok_with [] (codes "{\"ok\":true}"), record w { rest = clear_history w.rest })
  answer_dashboard proxy toggle w =
      let current = is_enabled http tools App proxy w in
      (
        ok_with json_headers (codes "{\"enabled\": " ++ bool_text (not current) ++ codes "}"),
        set_enabled http tools App proxy (not current) w,
      )
  answer_dashboard proxy events w = (
    record {
      status = 200;
      headers =
          (codes "Content-Type", codes "text/event-stream")
          ∷ (codes "Cache-Control", codes "no-cache")
          ∷ (codes "Connection", codes "keep-alive")
          ∷ [];
      body = event_stream (length w.rest.sent);
    },
    w,
  )
  answer_dashboard proxy (trigger t) w = (
    ok_with [] (codes "{\"triggered\":\"" ++ trigger_name t ++ codes "\"}"),
    record w { rest = record w.rest { triggered = w.rest.triggered ++ t ∷ [] } },
  )
  answer_dashboard proxy not_found w =
      (record { status = 404; headers = []; body = full_body (codes "404 Not Found") }, w)

  unfoldable pub handle_dashboard_request :
      Proxy http tools App → Str → Str → Shared App → DashboardResponse × Shared App
  unfolding dashboard_route answer_dashboard
  handle_dashboard_request proxy method path w =
      answer_dashboard proxy (dashboard_route method path) w

  -- The frames of the stream of events: what each `recv` gave, none for an error, which ends the stream. A
  -- subscriber that falls behind the channel's 200 places gets an error too.
  unfoldable pub event_frames : List (Option TrafficRecord) → List Bytes
  unfolding as_bytes
  event_frames received = codes ": connected\n\n" ∷ data_frames received
    where
      data_frames : List (Option TrafficRecord) → List Bytes
      data_frames [] = []
      data_frames (none ∷ rest) = []
      data_frames (some r ∷ rest) =
          as_bytes (codes "data: " ++ json.one_record r ++ codes "\n\n") ∷ data_frames rest
