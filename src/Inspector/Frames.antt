-- ===== src/Inspector/Frames.antt =====
-- examples/test_app/handlers.rs: `InspectorWsHandler`.
use hexbuffer_proxy.Prelude.{
  suc, ◌+◌, ◌%◌, ◌^◌, false, [], ◌∷◌, ◌++◌, Option, some, take, length, min,
}
use hexbuffer_proxy.Text.{Bytes, Str, codes, to_string, from_utf8_lossy}
use hexbuffer_proxy.Http.{HttpCrate}
use hexbuffer_proxy.Handler.Types.{
  HttpContext, Direction, client_to_server, server_to_client, WebSocketMessage, text, binary, ping,
  pong, close, frame, WebSocketHandler,
}
use hexbuffer_proxy.Builder.Enabled.{Shared}
use hexbuffer_proxy.Inspector.Clock.{time_now_str}
use hexbuffer_proxy.Inspector.Traffic.{TrafficRecord, App, record_traffic}

abbrev pub dir_str : Direction → Str
dir_str client_to_server = codes "Client → Server"
dir_str server_to_client = codes "Server → Client"

-- `{:?}` of a slice of bytes.
unfoldable pub debug_rest : Bytes → Str
unfolding to_string
debug_rest [] = codes "]"
debug_rest (b ∷ []) = to_string b ++ codes "]"
debug_rest (b ∷ c ∷ bs) = to_string b ++ codes ", " ++ debug_rest (c ∷ bs)

abbrev pub debug_bytes : Bytes → Str
debug_bytes bs = b'[' ∷ debug_rest bs

-- The opcode and the payload that the record shows; a text message's payload is UTF-8.
unfoldable pub shown : WebSocketMessage → Str × Str
unfolding debug_rest to_string from_utf8_lossy
shown (text t) = (codes "Text", from_utf8_lossy t)
shown (binary b) = (
  codes "Binary",
  to_string (length b) ++ codes " bytes: " ++ debug_bytes (take (min (length b) 32) b),
)
shown (ping b) = (codes "Control", codes "<control frame>")
shown (pong b) = (codes "Control", codes "<control frame>")
shown (close b) = (codes "Control", codes "<control frame>")
shown (frame b) = (codes "Control", codes "<control frame>")

module _ (http : HttpCrate) where
  -- `on_frame`: the frame is recorded and passed on. Numbers wrap as in a release build.
  unfoldable pub inspect_frame :
      WebSocketMessage
      → Direction
      → HttpContext × Shared App
      → Option WebSocketMessage × (HttpContext × Shared App)
  unfolding shown record_traffic
  inspect_frame msg direction (ctx, w) =
      let frame_id = w.rest.counter in
      let (opcode, payload) = shown msg in
      let (timestamp, clock) = time_now_str w.rest.clock in
      let (frame_time, clock) = time_now_str clock in
      let r : TrafficRecord = record {
        id = (ctx.id + frame_id) % 2 ^ 64;
        timestamp = timestamp;
        protocol = codes "WS";
        method = codes "FRAME";
        url = codes "ws://" ++ ctx.host ++ codes "/ws";
        status = 101;
        status_text = codes "Switching Protocols";
        duration_ms = 1;
        client_addr = ctx.client_addr;
        req_headers = [];
        res_headers = [];
        req_body = codes "[" ++ dir_str direction ++ codes "] " ++ payload;
        res_body = [];
        short_circuited = false;
        ws_frames =
            record {
              id = frame_id;
              time = frame_time;
              direction = dir_str direction;
              opcode = opcode;
              payload = payload;
            }
            ∷ [];
      } in
      (
        some msg,
        (
          ctx,
          record w {
            rest =
                record_traffic r (record w.rest { clock = clock; counter = suc frame_id % 2 ^ 64 });
          },
        ),
      )

  unfoldable pub inspector_ws_handler : WebSocketHandler http (Shared App)
  unfolding inspect_frame
  inspector_ws_handler = record {
    on_upgrade = λ req st. (req, st);
    on_frame = inspect_frame;
    on_close = λ st. st;
  }
