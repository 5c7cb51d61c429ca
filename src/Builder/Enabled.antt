-- ===== src/Builder/Enabled.antt =====
-- src/builder.rs: `EnabledWrapperHandler` and the flag that it shares with the builder and the proxy.
use hexbuffer_proxy.Prelude.{ℕ, suc, Bool, true, false, ◌==◌, if◌then◌else◌}
use hexbuffer_proxy.Http.{HttpCrate}
use hexbuffer_proxy.Handler.Types.{HttpHandler}

-- The memory that handlers, builders and proxies share: the `AtomicBool`s by number, how many there
-- are, and all else.
pub record Shared (S : Type 0) : Type 0 where
  pub flag : ℕ → Bool
  pub flags : ℕ
  pub rest : S

-- An `Arc<AtomicBool>` is the number of its cell; clones of the `Arc` have the same number.
abbrev pub Flag : Type 0
Flag = ℕ

module _ {S : Type 0} where
  -- `load` and `store`.
  abbrev pub load : Flag → Shared S → Bool
  load cell w = w.flag cell

  abbrev pub store : Flag → Bool → Shared S → Shared S
  store cell b w = record w { flag = λ c. if c == cell then b else w.flag c }

  -- `Arc::new(AtomicBool::new(b))`.
  abbrev pub new_flag : Bool → Shared S → Flag × Shared S
  new_flag b w = (w.flags, record (store w.flags b w) { flags = suc w.flags })

module _ (http : HttpCrate) {S : Type 0} where
  abbrev when_enabled : Bool → Bool × Shared S → Shared S → Bool × Shared S
  when_enabled true answer w = answer
  when_enabled false answer w = (false, w)

  unfoldable pub enabled_wrapper_handler :
      HttpHandler http (Shared S) → Flag → HttpHandler http (Shared S)
  enabled_wrapper_handler inner enabled = record {
    handle_request = inner.handle_request;
    handle_response = inner.handle_response;
    should_intercept_tls =
        λ host w. when_enabled (load enabled w) (inner.should_intercept_tls host w) w;
  }
