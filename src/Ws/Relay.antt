-- ===== src/Ws/Relay.antt =====
-- src/ws_proxy.rs: the relays of WebSocket messages. What `select!` takes next, from which side, is an
-- input: a run of a relay is a list of such events, and it may end while the relay still waits.
use hexbuffer_proxy.Prelude.{
  Bool, true, false, List, [], ◌∷◌, ◌++◌, Option, none, some, if◌then◌else◌,
}
use hexbuffer_proxy.Http.{HttpCrate}
use hexbuffer_proxy.Handler.Types.{
  HttpContext, Direction, client_to_server, server_to_client, WebSocketMessage, text, binary, ping,
  pong, close, frame, WebSocketHandler,
}

-- What `next()` gives: `Some(Ok(message))`, `Some(Err(_))` or `None`.
pub data Item : Type 0 where
  message : WebSocketMessage → Item
  failed : Item
  finished : Item

-- An item, with the direction in which it travels.
abbrev pub Event : Type 0
Event = Direction × Item

-- The messages handed to the two sinks, oldest first; a sink's error is dropped.
pub record Sinks : Type 0 where
  pub to_client : List WebSocketMessage
  pub to_server : List WebSocketMessage

-- `Message::is_close`.
abbrev pub is_close : WebSocketMessage → Bool
is_close (close payload) = true
is_close (text payload) = false
is_close (binary payload) = false
is_close (ping payload) = false
is_close (pong payload) = false
is_close (frame payload) = false

abbrev pub send : Direction → WebSocketMessage → Sinks → Sinks
send client_to_server m s = record s { to_server = s.to_server ++ m ∷ [] }
send server_to_client m s = record s { to_client = s.to_client ++ m ∷ [] }

abbrev pub send_some : Direction → Option WebSocketMessage → Sinks → Sinks
send_some d none s = s
send_some d (some m) s = send d m s

-- The loop is over, or it still waits.
pub data Status : Type 0 where
  stopped waiting : Status

-- The loop of `relay_raw_upgraded`.
unfoldable pub raw_loop : List Event → Sinks → Sinks × Status
raw_loop [] s = (s, waiting)
raw_loop ((d, message m) ∷ es) s =
    let rest = raw_loop es (send d m s) in if is_close m then (send d m s, stopped) else rest
raw_loop ((d, failed) ∷ es) s = (s, stopped)
raw_loop ((d, finished) ∷ es) s = (s, stopped)

unfoldable pub relay_raw_upgraded : List Event → Sinks × Status
unfolding raw_loop
relay_raw_upgraded es = raw_loop es (record { to_client = []; to_server = [] })

module _ (http : HttpCrate) {W : Type 0} (handler : WebSocketHandler http W) where
  -- The loop of `relay_framed` and of `relay_upgraded`.
  unfoldable pub relay_loop :
      List Event → Sinks → HttpContext × W → Sinks × (HttpContext × W) × Status
  relay_loop [] s st = (s, st, waiting)
  relay_loop ((d, message m) ∷ es) s st =
      let (out, st') = handler.on_frame m d st in
      let rest = relay_loop es (send_some d out s) st' in
      if is_close m then (send_some d out s, st', stopped) else rest
  relay_loop ((d, failed) ∷ es) s st = (s, st, stopped)
  relay_loop ((d, finished) ∷ es) s st = (s, st, stopped)

  -- Behind the loop.
  abbrev pub after_loop : Sinks × (HttpContext × W) × Status → Sinks × (HttpContext × W) × Status
  after_loop (s, st, stopped) = (s, handler.on_close st, stopped)
  after_loop (s, st, waiting) = (s, st, waiting)

  unfoldable pub relay_upgraded : List Event → HttpContext × W → Sinks × (HttpContext × W) × Status
  unfolding relay_loop
  relay_upgraded es st = after_loop (relay_loop es (record { to_client = []; to_server = [] }) st)

  -- `relay_framed` also closes the client's side: the last part says whether it did.
  abbrev pub closes_client :
      Sinks × (HttpContext × W) × Status → Sinks × (HttpContext × W) × Status × Bool
  closes_client (s, st, stopped) = (s, st, stopped, true)
  closes_client (s, st, waiting) = (s, st, waiting, false)

  unfoldable pub relay_framed :
      List Event → HttpContext × W → Sinks × (HttpContext × W) × Status × Bool
  unfolding relay_upgraded
  relay_framed es st = closes_client (relay_upgraded es st)
