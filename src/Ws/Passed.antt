-- ===== src/Ws/Passed.antt =====
-- What the relays pass on, and in which order.
use hexbuffer_proxy.Prelude.{
  ◌≡◌, refl, ap, ◌∙◌, inl, inr, List, [], ◌∷◌, ◌++◌, Option, none, some, append-nil, append_assoc,
  arith, Bool-cases, if◌then◌else◌,
}
use hexbuffer_proxy.Http.{HttpCrate}
use hexbuffer_proxy.Handler.Types.{
  HttpContext, Direction, client_to_server, server_to_client, WebSocketMessage, WebSocketHandler,
}
use hexbuffer_proxy.Handler.Noop.{noop_websocket_handler}
use hexbuffer_proxy.Ws.Relay.{
  message, failed, finished, Event, Sinks, is_close, send, send_some, Status, stopped, waiting,
  raw_loop, relay_raw_upgraded, relay_loop, after_loop, relay_upgraded,
}

abbrev pub Sent : Type 0
Sent = List (Direction × WebSocketMessage)

-- The messages up to the first close, which is the last of them, or up to the first end of a side.
abbrev pub passed : List Event → Sent
passed [] = []
passed ((d, message m) ∷ es) = (d, m) ∷ (if is_close m then [] else passed es)
passed ((d, failed) ∷ es) = []
passed ((d, finished) ∷ es) = []

-- Whether a close or the end of a side is among the events.
abbrev pub status_of : List Event → Status
status_of [] = waiting
status_of ((d, message m) ∷ es) = if is_close m then stopped else status_of es
status_of ((d, failed) ∷ es) = stopped
status_of ((d, finished) ∷ es) = stopped

-- The messages that travel in one direction.
abbrev pub towards : Direction → Sent → List WebSocketMessage
towards d [] = []
towards client_to_server ((client_to_server, m) ∷ ms) = m ∷ towards client_to_server ms
towards client_to_server ((server_to_client, m) ∷ ms) = towards client_to_server ms
towards server_to_client ((client_to_server, m) ∷ ms) = towards server_to_client ms
towards server_to_client ((server_to_client, m) ∷ ms) = m ∷ towards server_to_client ms

abbrev pub sinks_of : Sent → Sinks
sinks_of ms = record {
  to_client = towards server_to_client ms;
  to_server = towards client_to_server ms;
}

abbrev with_more : Sinks → Sent → Sinks
with_more s ms = record {
  to_client = s.to_client ++ towards server_to_client ms;
  to_server = s.to_server ++ towards client_to_server ms;
}

abbrev pub kept : Direction → Option WebSocketMessage → Sent → Sent
kept d none ms = ms
kept d (some m) ms = (d, m) ∷ ms

with_more-nil : (s : Sinks) → s ≡ with_more s []
with_more-nil s = ground (arith, append-nil s.to_client, append-nil s.to_server)

with_more-send :
    (d : Direction) (out : Option WebSocketMessage) (s : Sinks) (ms : Sent)
    → with_more (send_some d out s) ms ≡ with_more s (kept d out ms)
with_more-send d none s ms = refl
with_more-send client_to_server (some m) s ms =
    ground (arith, append_assoc s.to_server (m ∷ []) (towards client_to_server ms))
with_more-send server_to_client (some m) s ms =
    ground (arith, append_assoc s.to_client (m ∷ []) (towards server_to_client ms))

module _ (http : HttpCrate) {W : Type 0} (handler : WebSocketHandler http W) where
  -- The handler on a row of messages: what it lets through, and the state behind it.
  abbrev pub answers : Sent → HttpContext × W → Sent × (HttpContext × W)
  answers [] st = ([], st)
  answers ((d, m) ∷ ms) st =
      let (out, st') = handler.on_frame m d st in
      let (outs, st'') = answers ms st' in (kept d out outs, st'')

  relay_loop-passed :
      (es : List Event) (s : Sinks) (st : HttpContext × W)
      → relay_loop http handler es s st
        ≡ (with_more s (answers (passed es) st).0, (answers (passed es) st).1, status_of es)
  unfolding relay_loop
  relay_loop-passed [] s st = ap (λ x. (x, st, waiting)) (with_more-nil s)
  relay_loop-passed ((d, message m) ∷ es) s st =
      let (out, st') = handler.on_frame m d st in
      let s' = send_some d out s in
      elim (Bool-cases (is_close m)) [
        | inl closing ↦
            rw closing (ap (λ x. (x, st', stopped)) (with_more-nil s' ∙ with_more-send d out s []))
        | inr open_still ↦ rw open_still (
            relay_loop-passed es s' st'
            ∙ ap (λ x. (x, (answers (passed es) st').1, status_of es))
                (with_more-send d out s (answers (passed es) st').0))
      ]
  relay_loop-passed ((d, failed) ∷ es) s st = ap (λ x. (x, st, stopped)) (with_more-nil s)
  relay_loop-passed ((d, finished) ∷ es) s st = ap (λ x. (x, st, stopped)) (with_more-nil s)

  -- The end of a relay: `on_close` runs if it is over.
  abbrev pub ended : Status → HttpContext × W → HttpContext × W
  ended stopped st = handler.on_close st
  ended waiting st = st

  -- All that a relay does, by its messages.
  abbrev pub relay_of : List Event → HttpContext × W → Sinks × (HttpContext × W) × Status
  relay_of es st = (
    sinks_of (answers (passed es) st).0,
    ended (status_of es) (answers (passed es) st).1,
    status_of es,
  )

  after_loop-ended :
      (s : Sinks) (st : HttpContext × W) (x : Status)
      → after_loop http handler (s, st, x) ≡ (s, ended x st, x)
  after_loop-ended s st stopped = refl
  after_loop-ended s st waiting = refl

  -- `relay_upgraded` shows its handler the messages of both sides in the order of arrival, up to the
  -- first close and that one too, or up to the end of a side, and no message behind; each sink gets
  -- what the handler let through in its direction, in that order; `on_close` is called once, at the
  -- end, and not while the relay still waits.
  pub relay_upgraded-passed :
      (es : List Event) (st : HttpContext × W) → relay_upgraded http handler es st ≡ relay_of es st
  unfolding relay_upgraded
  relay_upgraded-passed es st =
      ap (after_loop http handler)
        (relay_loop-passed es (record { to_client = []; to_server = [] }) st)
      ∙ after_loop-ended (sinks_of (answers (passed es) st).0) (answers (passed es) st).1
          (status_of es)

module _ (http : HttpCrate) {W : Type 0} where
  relay_loop-raw :
      (es : List Event) (s : Sinks) (st : HttpContext × W)
      → relay_loop http (noop_websocket_handler http) es s st
        ≡ ((raw_loop es s).0, st, (raw_loop es s).1)
  unfolding relay_loop raw_loop noop_websocket_handler
  relay_loop-raw [] s st = refl
  relay_loop-raw ((d, message m) ∷ es) s st = elim (Bool-cases (is_close m)) [
    | inl closing ↦ rw closing
    | inr open_still ↦ rw open_still (relay_loop-raw es (send d m s) st)
  ]
  relay_loop-raw ((d, failed) ∷ es) s st = refl
  relay_loop-raw ((d, finished) ∷ es) s st = refl

  -- The relay with no handler sends what the relay with a handler that changes nothing sends, and
  -- stops where that one stops.
  pub relay_raw_upgraded-noop :
      (es : List Event) (st : HttpContext × W)
      → relay_upgraded http (noop_websocket_handler http) es st
        ≡ ((relay_raw_upgraded es).0, st, (relay_raw_upgraded es).1)
  unfolding relay_upgraded relay_raw_upgraded noop_websocket_handler
  relay_raw_upgraded-noop es st =
      rw (relay_loop-raw es (record { to_client = []; to_server = [] }) st) (same _ _)
    where
      same :
          (s : Sinks) (x : Status)
          → after_loop http (noop_websocket_handler http) (s, st, x) ≡ (s, st, x)
      same s stopped = refl
      same s waiting = refl
