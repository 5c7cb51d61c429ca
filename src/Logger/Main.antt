-- ===== src/Logger/Main.antt =====
-- examples/proxy.rs: `main`, up to the start of the proxy.
use hexbuffer_proxy.Prelude.{
  Bool, false, not, ◌||◌, List, [], ◌∷◌, Option, none, some, if◌then◌else◌, Outcome, ok, ◌>>=◌,
}
use hexbuffer_proxy.Text.{Bytes, Str, codes, equal}
use hexbuffer_proxy.Error.{Failure}
use hexbuffer_proxy.Http.{HttpCrate}
use hexbuffer_proxy.Builder.Enabled.{Shared}
use hexbuffer_proxy.Builder.Proxy.{
  Proxy, Call, new_builder, calls, build, with_ca, with_enabled, with_http_handler,
  add_http_handler, with_ws_handler,
}
use hexbuffer_proxy.Ca.Tools.{CertTools, Machine}
use hexbuffer_proxy.Ca.Store.{CertificationAuthority}
use hexbuffer_proxy.Ca.Store
use hexbuffer_proxy.Wire.Syntax.{HttpSyntax}
use hexbuffer_proxy.Logger.Handlers.{Terminal, logging_handler, passthrough_handler, ws_logger}

-- `args.iter().any(…)`.
unfoldable pub any_is : Str → Str → List Str → Bool
unfolding equal
any_is a b [] = false
any_is a b (arg ∷ args) = equal arg a || equal arg b || any_is a b args

abbrev pub enabled_by_default : List Str → Bool
enabled_by_default args = not (any_is (codes "--disabled") (codes "--disable") args)

abbrev pub passthrough_domains : List Str
passthrough_domains =
    codes "doubleclick.net" ∷ codes "google-analytics.com" ∷ codes "googletagmanager.com" ∷ []

module _ (http : HttpCrate) (syntax : HttpSyntax http) (tools : CertTools)
    (close_reason : Bytes → Str) where
  abbrev pub main_calls : CertificationAuthority tools → Bool → List (Call http tools Terminal)
  main_calls ca enabled =
      with_ca ca
      ∷ with_enabled enabled
      ∷ with_http_handler (logging_handler http syntax)
      ∷ add_http_handler (passthrough_handler http passthrough_domains)
      ∷ with_ws_handler (ws_logger http syntax close_reason)
      ∷ []

  abbrev pub Started : Type 0
  Started = Outcome Failure (Option (Proxy http tools Terminal) × Shared Terminal × Machine)

  -- From the certificate authority to the end of the builder's calls.
  unfoldable pub start_proxy : Bool → Shared Terminal → Machine → Started
  unfolding new_builder calls build logging_handler passthrough_handler ws_logger
  start_proxy enabled w m = do
    (ca, m) ← Store.new tools m
    let (b, w) =
        calls http tools Terminal (main_calls ca enabled) (new_builder http tools Terminal w)
    (p, m) ← build http tools Terminal b m
    ok (some p, w, m)

  -- The proxy that `main` starts; none if it only prints its version.
  unfoldable pub main_proxy : List Str → Shared Terminal → Machine → Started
  unfolding any_is start_proxy
  main_proxy args w m =
      if any_is (codes "--version") (codes "-V") args
      then ok (none, w, m)
      else start_proxy (enabled_by_default args) w m
