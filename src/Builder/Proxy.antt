-- ===== src/Builder/Proxy.antt =====
-- src/builder.rs: `ProxyBuilder` and `Proxy`.
use hexbuffer_proxy.Prelude.{
  ℕ, Bool, true, false, List, [], ◌∷◌, ◌++◌, Option, none, some, Outcome, ok, ◌>>=◌,
}
use hexbuffer_proxy.Text.{Str, codes}
use hexbuffer_proxy.Error.{Failure}
use hexbuffer_proxy.Http.{HttpCrate}
use hexbuffer_proxy.Handler.Types.{HttpHandler, WebSocketHandler}
use hexbuffer_proxy.Handler.Noop.{noop_handler}
use hexbuffer_proxy.Builder.Stack.{handler_stack}
use hexbuffer_proxy.Builder.Enabled.{Shared, Flag, load, store, new_flag, enabled_wrapper_handler}
use hexbuffer_proxy.Ca.Tools.{CertTools, Machine}
use hexbuffer_proxy.Ca.Store.{CertificationAuthority, new_in}
use hexbuffer_proxy.Ca.Store

module _ (http : HttpCrate) (tools : CertTools) (S : Type 0) where
  pub record ProxyBuilder : Type 0 where
    pub addr : Str
    pub ca : Option (CertificationAuthority tools)
    pub handlers : List (HttpHandler http (Shared S))
    pub ws_handler : Option (WebSocketHandler http (Shared S))
    pub request_buffer_size : ℕ
    pub cert_dir : Option Str
    pub enabled : Flag

  pub record Proxy : Type 0 where
    pub addr : Str
    pub ca : CertificationAuthority tools
    pub handler : HttpHandler http (Shared S)
    pub ws_handler : Option (WebSocketHandler http (Shared S))
    pub request_buffer_size : ℕ
    pub enabled : Flag

  -- `ProxyBuilder::new`, also its `Default`.
  unfoldable pub new_builder : Shared S → ProxyBuilder × Shared S
  new_builder w =
      let (enabled, w') = new_flag true w in
      (
        record {
          addr = codes "127.0.0.1:8080";
          ca = none;
          handlers = [];
          ws_handler = none;
          request_buffer_size = 16384;
          cert_dir = none;
          enabled = enabled;
        },
        w',
      )

  -- The `with_…` and `add_…` methods.
  pub data Call : Type 0 where
    with_addr : Str → Call
    with_ca : CertificationAuthority tools → Call
    with_http_handler : HttpHandler http (Shared S) → Call
    add_http_handler : HttpHandler http (Shared S) → Call
    with_ws_handler : WebSocketHandler http (Shared S) → Call
    with_request_buffer_size : ℕ → Call
    with_enabled : Bool → Call
    with_cert_dir : Str → Call

  unfoldable pub call : Call → ProxyBuilder × Shared S → ProxyBuilder × Shared S
  call (with_addr a) (b, w) = (record b { addr = a }, w)
  call (with_ca a) (b, w) = (record b { ca = some a }, w)
  call (with_http_handler h) (b, w) = (record b { handlers = h ∷ [] }, w)
  call (add_http_handler h) (b, w) = (record b { handlers = b.handlers ++ h ∷ [] }, w)
  call (with_ws_handler h) (b, w) = (record b { ws_handler = some h }, w)
  call (with_request_buffer_size n) (b, w) = (record b { request_buffer_size = n }, w)
  call (with_enabled on) (b, w) = (b, store b.enabled on w)
  call (with_cert_dir dir) (b, w) = (record b { cert_dir = some dir }, w)

  unfoldable pub calls : List Call → ProxyBuilder × Shared S → ProxyBuilder × Shared S
  unfolding call
  calls [] st = st
  calls (c ∷ cs) st = calls cs (call c st)

  -- The choice of the handler in `build`.
  unfoldable pub chosen_handler : List (HttpHandler http (Shared S)) → HttpHandler http (Shared S)
  unfolding handler_stack noop_handler
  chosen_handler [] = noop_handler http
  chosen_handler (h ∷ []) = h
  chosen_handler (h ∷ k ∷ hs) = handler_stack http (h ∷ k ∷ hs)

  -- The choice of the authority in `build`.
  unfoldable pub chosen_ca :
      Option (CertificationAuthority tools)
      → Option Str
      → Machine
      → Outcome Failure (CertificationAuthority tools × Machine)
  unfolding new_in
  chosen_ca (some ca) dir m = ok (ca, m)
  chosen_ca none (some dir) m = new_in tools dir m
  chosen_ca none none m = Store.new tools m

  unfoldable pub build : ProxyBuilder → Machine → Outcome Failure (Proxy × Machine)
  unfolding chosen_handler enabled_wrapper_handler
  build b m = do
    (ca, m') ← chosen_ca b.ca b.cert_dir m
    ok (
      record {
        addr = b.addr;
        ca = ca;
        handler = enabled_wrapper_handler http (chosen_handler b.handlers) b.enabled;
        ws_handler = b.ws_handler;
        request_buffer_size = b.request_buffer_size;
        enabled = b.enabled;
      },
      m',
    )

  -- `is_enabled`, `set_enabled`, `enable`, `disable`.
  abbrev pub is_enabled : Proxy → Shared S → Bool
  is_enabled p w = load p.enabled w

  unfoldable pub set_enabled : Proxy → Bool → Shared S → Shared S
  set_enabled p on w = store p.enabled on w

  unfoldable pub enable : Proxy → Shared S → Shared S
  unfolding set_enabled
  enable p w = set_enabled p true w

  unfoldable pub disable : Proxy → Shared S → Shared S
  unfolding set_enabled
  disable p w = set_enabled p false w
