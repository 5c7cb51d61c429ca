-- ===== src/Inspector/Main.antt =====
-- examples/test_app/main.rs: `main`, up to the start of the proxy.
use hexbuffer_proxy.Prelude.{List, [], ◌∷◌, Outcome, ok, ◌>>=◌}
use hexbuffer_proxy.Text.{codes}
use hexbuffer_proxy.Error.{Failure}
use hexbuffer_proxy.Http.{HttpCrate}
use hexbuffer_proxy.Builder.Enabled.{Shared}
use hexbuffer_proxy.Builder.Proxy.{
  Proxy, Call, new_builder, calls, build, with_addr, with_ca, with_http_handler, with_ws_handler,
}
use hexbuffer_proxy.Ca.Tools.{CertTools, Machine}
use hexbuffer_proxy.Ca.Store.{CertificationAuthority}
use hexbuffer_proxy.Ca.Store
use hexbuffer_proxy.Wire.Syntax.{HttpSyntax}
use hexbuffer_proxy.Inspector.Clock.{Clock}
use hexbuffer_proxy.Inspector.Traffic.{App}
use hexbuffer_proxy.Inspector.Web.{HttpMore}
use hexbuffer_proxy.Inspector.Requests.{inspector_http_handler}
use hexbuffer_proxy.Inspector.Frames.{inspector_ws_handler}

-- The application's memory at the start; `InspectorWsHandler` counts from 1.
abbrev pub new_app : Clock → App
new_app clock = record {
  history = [];
  sent = [];
  req_start = [];
  counter = 1;
  triggered = [];
  clock = clock;
}

module _ (http : HttpCrate) (syntax : HttpSyntax http) (more : HttpMore http)
    (tools : CertTools) where
  abbrev pub app_calls : CertificationAuthority tools → List (Call http tools App)
  app_calls ca =
      with_addr (codes "127.0.0.1:8080")
      ∷ with_ca ca
      ∷ with_http_handler (inspector_http_handler http syntax more)
      ∷ with_ws_handler (inspector_ws_handler http)
      ∷ []

  unfoldable pub app_proxy :
      Shared App → Machine → Outcome Failure (Proxy http tools App × Shared App × Machine)
  unfolding new_builder calls build inspector_http_handler inspector_ws_handler
  app_proxy w m = do
    (ca, m) ← Store.new tools m
    let (b, w) = calls http tools App (app_calls ca) (new_builder http tools App w)
    (p, m) ← build http tools App b m
    ok (p, w, m)
