-- ===== src/Inspector/Traffic.antt =====
-- examples/test_app/models.rs and handlers.rs: the records of traffic, and `record_traffic`.
use hexbuffer_proxy.Prelude.{
  ℕ, Bool, List, [], ◌∷◌, ◌++◌, Option, none, some, leb, ◌==◌, if◌then◌else◌, drop, length,
}
use hexbuffer_proxy.Text.{Str}
use hexbuffer_proxy.Inspector.Clock.{Clock}

pub record HeaderEntry : Type 0 where
  pub name : Str
  pub value : Str

pub record WsFrameEntry : Type 0 where
  pub id : ℕ
  pub time : Str
  pub direction : Str
  pub opcode : Str
  pub payload : Str

pub record TrafficRecord : Type 0 where
  pub id : ℕ
  pub timestamp : Str
  pub protocol : Str
  pub method : Str
  pub url : Str
  pub status : ℕ
  pub status_text : Str
  pub duration_ms : ℕ
  pub client_addr : Str
  pub req_headers : List HeaderEntry
  pub res_headers : List HeaderEntry
  pub req_body : Str
  pub res_body : Str
  pub short_circuited : Bool
  pub ws_frames : List WsFrameEntry

-- What is kept of a request until its response: its start, its headers and its body.
abbrev pub Metadata : Type 0
Metadata = ℕ × List HeaderEntry × Str

-- `HashMap<u64, …>`: an entry with the same key is replaced.
abbrev pub RequestMetadataMap : Type 0
RequestMetadataMap = List (ℕ × Metadata)

unfoldable pub find : ℕ → RequestMetadataMap → Option Metadata
find id [] = none
find id ((k, v) ∷ m) = if k == id then some v else find id m

unfoldable pub discard : ℕ → RequestMetadataMap → RequestMetadataMap
discard id [] = []
discard id ((k, v) ∷ m) = let rest = discard id m in if k == id then rest else (k, v) ∷ rest

abbrev pub put : ℕ → Metadata → RequestMetadataMap → RequestMetadataMap
put id v m = (id, v) ∷ discard id m

pub data Trigger : Type 0 where
  plain_http_test mock_test https_mitm_test ws_test : Trigger

-- The application's own memory: the history, oldest first, behind its lock; all that was sent on the broadcast
-- channel; the requests that wait for a response; the counter of frames; the tests that were triggered.
pub record App : Type 0 where
  pub history : List TrafficRecord
  pub sent : List TrafficRecord
  pub req_start : RequestMetadataMap
  pub counter : ℕ
  pub triggered : List Trigger
  pub clock : Clock

-- `VecDeque::pop_front` where the history is full, `push_back`, and `send`, whose result is dropped.
unfoldable pub record_traffic : TrafficRecord → App → App
record_traffic r app =
    let kept = if leb 100 (length app.history) then drop 1 app.history else app.history in
    record app { history = kept ++ r ∷ []; sent = app.sent ++ r ∷ [] }
