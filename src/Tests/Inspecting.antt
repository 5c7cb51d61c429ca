-- ===== src/Tests/Inspecting.antt =====
-- Runs of the demonstration application.
use hexbuffer_proxy.Prelude.{
  ℕ, ◌≤◌, ◌≡◌, ◌≢◌, refl, ap, true, false, inl, inr, List, [], ◌∷◌, none, some, ok, All, Bool-cases,
  length, ◌+◌, ◌*◌, ◌<◌, ◌++◌, if◌then◌else◌,
}
use hexbuffer_proxy.Text.{Bytes, Str, codes, equal, contains, as_bytes}
use hexbuffer_proxy.Text.Equal.{equal_iff, equal_self}
use hexbuffer_proxy.Handler.Types.{
  HttpContext, Request, Response, full, text, client_to_server, into_bytes, request, HttpHandler,
}
use hexbuffer_proxy.Builder.Enabled.{Shared, load, enabled_wrapper_handler}
use hexbuffer_proxy.Builder.Proxy.{Proxy, ProxyBuilder, build, chosen_ca, chosen_handler}
use hexbuffer_proxy.Inspector.Clock.{Clock}
use hexbuffer_proxy.Inspector.Traffic.{App}
use hexbuffer_proxy.Inspector.Web.{HttpMore}
use hexbuffer_proxy.Inspector.Requests.{
  is_dashboard, mock_path, inspector_http_handler, inspect_request, inspect_response,
}
use hexbuffer_proxy.Inspector.Dashboard.{Json, handle_dashboard_request, ok_with, json_headers}
use hexbuffer_proxy.Inspector.Daytime.{digits_of, time_str_digits}
use hexbuffer_proxy.Inspector.Clock.{time_str}
use hexbuffer_proxy.Inspector.Toggle.{toggled, toggled_status}
use hexbuffer_proxy.Inspector.Exchange.{HasHeader, Recorded, inspect_request-inspect_response}
use hexbuffer_proxy.Inspector.Requests.{mark_request, mark_response}
use hexbuffer_proxy.Inspector.Window.{last}
use hexbuffer_proxy.Inspector.Recent.{
  AppEvent, request_seen, frame_seen, dashboard_asked, run_app, sent_since, run_app-last,
}
use hexbuffer_proxy.Inspector.Pending.{IsOther}
use hexbuffer_proxy.Tests.Instances.{
  http, HeaderList, values, without, values-without_self, values-without_ne, tools, machine,
}
use hexbuffer_proxy.Tests.Syntax.{syntax}
use hexbuffer_proxy.Tests.Certifying.{authority}

abbrev replace : HeaderList → Str → Bytes → HeaderList
replace h name v = (name, v) ∷ without h name

values-replace_self :
    (h : HeaderList) (name : Str) (v : Bytes) → values (replace h name v) name ≡ v ∷ []
values-replace_self h name v = rw equal_self (ap (◌∷◌ v) (values-without_self h name))

values-replace_ne :
    (h : HeaderList) (name other : Str) (v : Bytes)
    → name ≢ other
    → values (replace h name v) other ≡ values h other
values-replace_ne h name other v ne = elim (Bool-cases (equal name other)) [
  | inl same ↦ absurd (ne ((equal_iff name other).0 same))
  | inr differ ↦ rw differ (values-without_ne h name other ne)
]

abbrev more : HttpMore http
more = record {
  insert = replace;
  get_all-insert_self = values-replace_self;
  get_all-insert_ne = values-replace_ne;
  port_u16 = λ u. none;
  path = λ u. u;
}

abbrev json : Json
json = record {
  records = λ rs. codes "[]";
  one_record = λ r. codes "{}";
  status = λ s. if s.enabled then codes "on" else codes "off";
  dashboard_html = [];
}

-- A clock that gains 40 milliseconds at each reading, some time past ten.
abbrev clock : Clock
clock = record { instants = λ n. 1000 + 40 * n; times = λ n. some 36061; readings = 0 }

abbrev app : App
app = record { history = []; sent = []; req_start = []; counter = 1; triggered = []; clock = clock }

abbrev world : Shared App
world = record { flag = λ c. true; flags = 1; rest = app }

abbrev builder : ProxyBuilder http tools App
builder = record {
  addr = codes "127.0.0.1:8080";
  ca = some authority;
  handlers = [];
  ws_handler = none;
  request_buffer_size = 16384;
  cert_dir = none;
  enabled = 0;
}

abbrev context : HttpContext
context = record {
  id = 1;
  host = codes "a.example";
  client_addr = codes "127.0.0.1:1";
  is_https = false;
}

abbrev asked : Request http
asked = record { method = codes "GET"; uri = codes "/a"; headers = []; body = full (codes "q") }

abbrev answered : Response http
answered = record { status = 200; headers = []; body = full (codes "ok") }

abbrev others : List (AppEvent http)
others =
    request_seen (record context { id = 2 }) asked
    ∷ frame_seen context (text (codes "hi")) client_to_server
    ∷ dashboard_asked (codes "GET") (codes "/api/history")
    ∷ []

-- The application's handler alone, and the proxy that is built of it.
abbrev inspector : HttpHandler http (Shared App)
inspector = inspector_http_handler http syntax more

abbrev with_inspector : ProxyBuilder http tools App
with_inspector = record builder { handlers = inspector ∷ [] }

abbrev proxy : Proxy http tools App
proxy = record {
  addr = codes "127.0.0.1:8080";
  ca = authority;
  handler = enabled_wrapper_handler http inspector 0;
  ws_handler = none;
  request_buffer_size = 16384;
  enabled = 0;
}

built : build http tools App with_inspector machine ≡ ok (proxy, machine)
unfolding build chosen_ca chosen_handler
built = refl

-- A frame, an emptied history and another frame.
abbrev frames_and_clear : List (AppEvent http)
frames_and_clear =
    frame_seen context (text (codes "hi")) client_to_server
    ∷ dashboard_asked (codes "POST") (codes "/api/clear")
    ∷ frame_seen context (text (codes "ho")) client_to_server
    ∷ []

run_app-last_example :
    let w' = run_app http syntax more tools json proxy frames_and_clear world in
    (w'.rest.history
      ≡ last 100 (sent_since http syntax more tools json proxy frames_and_clear world []))
    × (length w'.rest.history ≤ 100)
run_app-last_example = run_app-last http syntax more tools json proxy frames_and_clear world [] refl

toggled_status_example :
    let w' = toggled http tools json proxy world in
    (load 0 w' ≡ false)
    × ((other : ℕ) → other ≢ 0 → load other w' ≡ load other world)
    × (w'.rest ≡ app)
    × (handle_dashboard_request http tools json proxy (codes "GET") (codes "/api/status") w'
        ≡ (ok_with json_headers (as_bytes (codes "off")), w'))
    × (proxy.handler.should_intercept_tls (codes "a.example") w' ≡ (false, w'))
toggled_status_example =
    toggled_status http tools json with_inspector machine built (codes "a.example") world

asked_other : is_dashboard http syntax more context asked ≡ false
unfolding is_dashboard contains
asked_other = refl

asked_real : equal (codes "/a") mock_path ≡ false
unfolding equal
asked_real = refl

two_others : All (IsOther http 1) others
two_others = ((λ e. cc), (_, (_, _)))

readable : into_bytes http (full (codes "ok")) ≡ ok (codes "ok")
unfolding into_bytes
readable = refl

inspect_request-inspect_response_example :
    let (o, (_, w1)) = inspect_request http syntax more asked (context, world) in
    let w2 = run_app http syntax more tools json proxy others w1 in
    let (answer, (_, w3)) = inspect_response http syntax more answered (context, w2) in
    let sent = mark_request http syntax more asked in
    let marked = record (mark_response http syntax more answered) { body = full (codes "ok") } in
    (o ≡ ok (request sent))
    × (answer ≡ ok marked)
    × HasHeader http syntax more [] sent.headers (codes "x-hexbuffer-intercepted") (codes "true")
    × HasHeader http syntax more [] marked.headers
        (codes "x-hexbuffer-response-header")
        (codes "processed")
    × Recorded http syntax more context sent marked
        (codes "ok")
        1000
        (w2.rest.clock.instants w2.rest.clock.readings)
        w2.rest
        w3.rest
inspect_request-inspect_response_example =
    inspect_request-inspect_response http syntax more tools json proxy context asked answered
      (codes "ok") others world asked_other asked_real two_others readable

time_str_digits_example :
    (h m s : ℕ) × (h < 24)
    × (m < 60)
    × (s < 60)
    × (h * 3600 + m * 60 + s ≡ 36061)
    × (time_str (some 36061) ≡ digits_of h ++ codes ":" ++ digits_of m ++ codes ":" ++ digits_of s)
time_str_digits_example = time_str_digits (some 36061)
