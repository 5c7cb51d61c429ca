-- ===== src/Inspector/Toggle.antt =====
-- The dashboard's switch, and what the dashboard leaves alone.
use hexbuffer_proxy.Prelude.{ℕ, ◌≡◌, ◌≢◌, refl, false, not, arith, if◌then◌else◌, length, ok}
use hexbuffer_proxy.Text.{Str, codes, equal, as_bytes}
use hexbuffer_proxy.Http.{HttpCrate}
use hexbuffer_proxy.Builder.Stack.{handler_stack, stack_intercept}
use hexbuffer_proxy.Builder.Enabled.{Shared, load, enabled_wrapper_handler}
use hexbuffer_proxy.Builder.Proxy.{Proxy, ProxyBuilder, build, set_enabled}
use hexbuffer_proxy.Builder.Assembly.{build_handler}
use hexbuffer_proxy.Ca.Tools.{CertTools, Machine}
use hexbuffer_proxy.Inspector.Traffic.{App}
use hexbuffer_proxy.Inspector.Dashboard.{
  Json, dashboard_route, answer_dashboard, handle_dashboard_request, ok_with, json_headers,
}

module _ (http : HttpCrate) (tools : CertTools) (json : Json) where
  -- A request to the dashboard whose method is not POST changes nothing, whatever it asks for.
  pub handle_dashboard_request_reads :
      (proxy : Proxy http tools App) (method path : Str) (w : Shared App)
      → equal method (codes "POST") ≡ false
      → (handle_dashboard_request http tools json proxy method path w).1 ≡ w
  unfolding handle_dashboard_request dashboard_route answer_dashboard
  handle_dashboard_request_reads proxy method path w no_post = ground arith

  -- POST /api/toggle.
  abbrev pub toggled : Proxy http tools App → Shared App → Shared App
  toggled proxy w =
      (handle_dashboard_request http tools json proxy (codes "POST") (codes "/api/toggle") w).1

  -- The toggle of a built proxy's dashboard turns its flag over and nothing else; the status that is asked for next
  -- says so, with the number of records; and the proxy then intercepts no TLS connection if it was enabled, or asks its
  -- handlers, as a stack, if it was not.
  pub toggled_status :
      (b : ProxyBuilder http tools App) (m : Machine) {proxy : Proxy http tools App} {m' : Machine}
      → build http tools App b m ≡ ok (proxy, m')
      → (host : Str) (w : Shared App)
      → let w' = toggled proxy w in
        (load proxy.enabled w' ≡ not (load proxy.enabled w))
        × ((other : ℕ) → other ≢ proxy.enabled → load other w' ≡ load other w)
        × (w'.rest ≡ w.rest)
        × (handle_dashboard_request http tools json proxy (codes "GET") (codes "/api/status") w' ≡ (
          ok_with json_headers (
              as_bytes (
                json.status (record {
                  enabled = not (load proxy.enabled w);
                  proxy_port = 8080;
                  dashboard_port = 8081;
                  upstream_port = 8082;
                  total_records = length w.rest.history;
                }))),
          w',
        ))
        × (proxy.handler.should_intercept_tls host w' ≡ (
            if load proxy.enabled w then (false, w') else stack_intercept http b.handlers host w'))
  unfolding handle_dashboard_request dashboard_route answer_dashboard set_enabled equal
      enabled_wrapper_handler handler_stack
  toggled_status b m {proxy} h host w =
      let (same, flag, _, _) = build_handler http tools App b m h in
      let flipped : load proxy.enabled (toggled proxy w) ≡ not (load proxy.enabled w) =
        ground arith in
      (flipped, λ other ne. ground arith, refl, rw flipped refl, rw (same, flag) (ground arith))
