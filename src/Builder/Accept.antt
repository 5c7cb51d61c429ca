-- ===== src/Builder/Accept.antt =====
-- src/builder.rs: `start` and `start_with_listener`, the accept loop.
use hexbuffer_proxy.Prelude.{
  ℕ, List, [], ◌∷◌, ◌++◌, Option, none, some, Outcome, ok, err, panic, out_of_fuel,
}
use hexbuffer_proxy.Text.{Str, codes}
use hexbuffer_proxy.Error.{ProxyError, io}
use hexbuffer_proxy.Http.{HttpCrate}
use hexbuffer_proxy.Handler.Types.{HttpHandler, WebSocketHandler}
use hexbuffer_proxy.Builder.Enabled.{Shared}
use hexbuffer_proxy.Builder.Proxy.{Proxy}
use hexbuffer_proxy.Ca.Tools.{CertTools}
use hexbuffer_proxy.Ca.Store.{CertificationAuthority}

-- What `accept` gives: a connection, of which nothing is known here, with the client's address, or an error.
pub data Accepted (C : Type 0) : Type 0 where
  connection : C → (addr : Str) → Accepted C
  refused : Str → Accepted C

module _ (http : HttpCrate) (tools : CertTools) (S : Type 0) (C : Type 0) where
  -- What a spawned task calls `handle_client` with, and the address that its error is printed with.
  pub record ClientTask : Type 0 where
    pub stream : C
    pub ca : CertificationAuthority tools
    pub handler : HttpHandler http (Shared S)
    pub ws_handler : Option (WebSocketHandler http (Shared S))
    pub buf_size : ℕ
    pub addr : Str

  abbrev pub client_task : Proxy http tools S → C → Str → ClientTask
  client_task proxy stream addr = record {
    stream = stream;
    ca = proxy.ca;
    handler = proxy.handler;
    ws_handler = proxy.ws_handler;
    buf_size = proxy.request_buffer_size;
    addr = addr;
  }

  -- The loop: the tasks that it spawns, and its error, if it has ended. It has no other end.
  unfoldable pub accept_loop :
      Proxy http tools S → List (Accepted C) → List ClientTask × Option ProxyError
  accept_loop proxy [] = ([], none)
  accept_loop proxy (connection stream addr ∷ more) =
      let (tasks, end) = accept_loop proxy more in (client_task proxy stream addr ∷ tasks, end)
  accept_loop proxy (refused m ∷ more) = ([], some (io m))

  -- The line that is printed first; a listener that does not know its address has the proxy's.
  abbrev pub listening_line : Proxy http tools S → Option Str → Str
  listening_line proxy (some addr) = codes "Proxy listening on " ++ addr
  listening_line proxy none = codes "Proxy listening on " ++ proxy.addr

  unfoldable pub start_with_listener :
      Proxy http tools S
      → Option Str
      → List (Accepted C)
      → Str × (List ClientTask × Option ProxyError)
  unfolding accept_loop
  start_with_listener proxy local_addr more =
      (listening_line proxy local_addr, accept_loop proxy more)

  -- `start`: where the address cannot be bound, nothing is printed or spawned.
  unfoldable pub start :
      Proxy http tools S
      → Outcome Str (Option Str)
      → List (Accepted C)
      → Outcome ProxyError (Str × (List ClientTask × Option ProxyError))
  unfolding start_with_listener
  start proxy (ok local_addr) more = ok (start_with_listener proxy local_addr more)
  start proxy (err m) more = err (io m)
  start proxy panic more = panic
  start proxy out_of_fuel more = out_of_fuel

-- What the task prints if `handle_client` fails.
abbrev pub error_line : Str → Str → Str
error_line addr e = codes "[" ++ addr ++ codes "] error: " ++ e
