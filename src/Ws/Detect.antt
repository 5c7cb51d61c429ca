-- ===== src/Ws/Detect.antt =====
-- src/ws_proxy.rs: the tests for a WebSocket upgrade.
use hexbuffer_proxy.Prelude.{Bool, false, ◌&&◌, some, ◌==◌}
use hexbuffer_proxy.Text.{
  Bytes, Str, codes, from_utf8_lossy, to_lowercase, contains, and_then, unwrap_or,
}
use hexbuffer_proxy.Http.{HttpCrate, get}
use hexbuffer_proxy.Handler.Types.{Request, Response}

unfoldable pub is_websocket_upgrade_bytes : Bytes → Bool
unfolding from_utf8_lossy to_lowercase contains
is_websocket_upgrade_bytes raw =
    let lower = to_lowercase (from_utf8_lossy raw) in
    contains (codes "upgrade:") lower && contains (codes "websocket") lower

module _ (http : HttpCrate) where
  -- Whether the first value of a header can be read as text and holds a word, in any case.
  unfoldable pub header_contains : http.Headers → Str → Str → Bool
  unfolding to_lowercase contains
  header_contains headers name word =
      unwrap_or
        (and_then (and_then (get http headers name) http.to_str)
          (λ v. some (contains word (to_lowercase v))))
        false

  unfoldable pub is_websocket_upgrade : Request http → Bool
  unfolding header_contains
  is_websocket_upgrade req =
      header_contains req.headers (codes "upgrade") (codes "websocket")
      && header_contains req.headers (codes "connection") (codes "upgrade")

  unfoldable pub is_websocket_response : Response http → Bool
  is_websocket_response res = res.status == 101
