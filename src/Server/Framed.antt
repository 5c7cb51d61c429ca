-- ===== src/Server/Framed.antt =====
-- Plain HTTP connections that become a relay of WebSocket frames.
use hexbuffer_proxy.Prelude.{Outcome, ok}
use hexbuffer_proxy.Error.{Failure}
use hexbuffer_proxy.Http.{HttpCrate}
use hexbuffer_proxy.Handler.Types.{HttpContext, HttpHandler, WebSocketHandler}
use hexbuffer_proxy.Ca.Tools.{CertTools, Machine}
use hexbuffer_proxy.Ca.Store.{CertificationAuthority}
use hexbuffer_proxy.Ws.Relay.{Sinks, Status}
use hexbuffer_proxy.Reader.Stream.{Stream}
use hexbuffer_proxy.Wire.Syntax.{HttpSyntax}
use hexbuffer_proxy.Wire.Laws.{SyntaxLaws}
use hexbuffer_proxy.Wire.Responses.{StatusLaws}
use hexbuffer_proxy.Server.Run.{State}
use hexbuffer_proxy.Server.Outside.{Outside}
use hexbuffer_proxy.Server.Client.{Later, Finish, framed}

module _ (http : HttpCrate) (syntax : HttpSyntax http) (laws : SyntaxLaws http syntax)
    (statuses : StatusLaws http syntax) {W : Type 0} (outside : Outside http W)
    (handler : HttpHandler http W) (ws : WebSocketHandler http W) (later : Later http)
    (tools : CertTools) (ca : CertificationAuthority tools) (m : Machine) where
  abbrev pub framed_end :
      Sinks × (HttpContext × W) × Status → State W → Outcome Failure (Finish http) × State W
  framed_end (sinks, (ctx, w), status) st = (ok (framed sinks status), record st { world = w })
