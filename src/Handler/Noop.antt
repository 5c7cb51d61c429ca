-- ===== src/Handler/Noop.antt =====
-- src/handler.rs: `NoopHandler` and `NoopWebSocketHandler`.
use hexbuffer_proxy.Prelude.{some}
use hexbuffer_proxy.Http.{HttpCrate}
use hexbuffer_proxy.Handler.Types.{
  pure, HttpHandler, WebSocketHandler, request, default_should_intercept_tls,
}

module _ (http : HttpCrate) {W : Type 0} where
  unfoldable pub noop_handler : HttpHandler http W
  noop_handler = record {
    handle_request = λ req. pure (request req);
    handle_response = λ res. pure res;
    should_intercept_tls = default_should_intercept_tls http;
  }

  unfoldable pub noop_websocket_handler : WebSocketHandler http W
  noop_websocket_handler = record {
    on_upgrade = λ req st. (req, st);
    on_frame = λ msg direction st. (some msg, st);
    on_close = λ st. st;
  }
