-- ===== src/Server/Run.antt =====
-- The state that serving a client works on, and the calls that change it.
use hexbuffer_proxy.Prelude.{
  ℕ, suc, ◌%◌, ◌^◌, Bool, List, Option, none, some, Outcome, ok, err, panic, out_of_fuel,
}
use hexbuffer_proxy.Text.{Str}
use hexbuffer_proxy.Error.{Failure, ProxyError, from_proxy}
use hexbuffer_proxy.Handler.Types.{HttpContext, Act}
use hexbuffer_proxy.Reader.Stream.{Stream}
use hexbuffer_proxy.Server.Conn.{Conn}

-- A connection that the proxy opened: what it wrote, and what comes back.
pub record Upstream : Type 0 where
  pub target : Str
  pub sent : Conn
  pub reply : Stream

-- What the task that `handle_https_websocket` starts has been given.
pub record Task : Type 0 where
  pub target_host : Str
  pub path : Str
  pub origin : Option Str
  pub cookie : Option Str
  pub ctx_id : ℕ
  pub ctx_host : Str

-- The client's connection, the one that the proxy opened, `REQUEST_ID`, the tasks started, and the world of the handlers.
pub record State (W : Type 0) : Type 0 where
  pub client : Conn
  pub upstream : Option Upstream
  pub request_id : ℕ
  pub spawned : List Task
  pub world : W

-- A call that may end in an error, and changes the state also then.
abbrev pub Run : Type 0 → Type 0 → Type 0
Run W A = State W → Outcome Failure A × State W

abbrev pub returns : {W A : Type 0} → A → Run W A
returns a st = (ok a, st)

abbrev pub fails : {W A : Type 0} → Failure → Run W A
fails e st = (err e, st)

abbrev pub lift : {W A : Type 0} → Outcome Failure A → Run W A
lift o st = (o, st)

abbrev pub continue :
    {W A B : Type 0} → Outcome Failure A × State W → (A → Run W B) → Outcome Failure B × State W
continue (ok a, st) f = f a st
continue (err e, st) f = (err e, st)
continue (panic, st) f = (panic, st)
continue (out_of_fuel, st) f = (out_of_fuel, st)

infixl 5 ◌>>=◌
abbrev pub ◌>>=◌ : {W A B : Type 0} → Run W A → (A → Run W B) → Run W B
◌>>=◌ m f st = continue (m st) f

-- A call on the client's connection.
abbrev pub on_client : {W : Type 0} → (Conn → Outcome Failure (Unit {0}) × Conn) → Run W (Unit {0})
on_client f st = let (o, c) = f st.client in (o, record st { client = c })

-- A call of a handler with a context; `?` makes its error a `Failure`.
abbrev pub from_handler :
    {W A : Type 0}
    → Outcome ProxyError A × (HttpContext × W)
    → State W
    → Outcome Failure (A × HttpContext) × State W
from_handler (ok a, (ctx, w)) st = (ok (a, ctx), record st { world = w })
from_handler (err e, (ctx, w)) st = (err (from_proxy e), record st { world = w })
from_handler (panic, (ctx, w)) st = (panic, record st { world = w })
from_handler (out_of_fuel, (ctx, w)) st = (out_of_fuel, record st { world = w })

abbrev pub call_handler : {W A : Type 0} → Act W A → HttpContext → Run W (A × HttpContext)
call_handler act ctx st = from_handler (act (ctx, st.world)) st

-- `REQUEST_ID.fetch_add(1, …)`, on an `AtomicU64`; `new_context` makes the context with it.
abbrev pub new_context : {W : Type 0} → Str → Str → Bool → Run W HttpContext
new_context host client_addr is_https st = (
  ok (record { id = st.request_id; host = host; client_addr = client_addr; is_https = is_https }),
  record st { request_id = suc st.request_id % 2 ^ 64 },
)

-- What a `match` on a `Result` makes of it: `none` for an error, which is printed and dropped.
abbrev pub attempted :
    {W A : Type 0} → Outcome Failure A × State W → Outcome Failure (Option A) × State W
attempted (ok a, st) = (ok (some a), st)
attempted (err e, st) = (ok none, st)
attempted (panic, st) = (panic, st)
attempted (out_of_fuel, st) = (out_of_fuel, st)

abbrev pub attempt : {W A : Type 0} → Run W A → Run W (Option A)
attempt m st = attempted (m st)
