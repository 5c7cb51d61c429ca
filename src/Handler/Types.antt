-- ===== src/Handler/Types.antt =====
-- src/handler.rs: `HttpContext`, `Body`, requests and responses, `HttpHandler`, `WebSocketHandler`.
use hexbuffer_proxy.Prelude.{ℕ, Bool, true, Option, Outcome, ok, err, panic, out_of_fuel, map_err}
use hexbuffer_proxy.Text.{Bytes, Str}
use hexbuffer_proxy.Error.{ProxyError, protocol}
use hexbuffer_proxy.Http.{HttpCrate}

pub record HttpContext : Type 0 where
  pub id : ℕ
  pub host : Str
  pub client_addr : Str
  pub is_https : Bool

-- Direction of a WebSocket frame.
pub data Direction : Type 0 where
  client_to_server server_to_client : Direction

-- The variants of `tungstenite::Message`, each with its payload.
pub data WebSocketMessage : Type 0 where
  text binary ping pong close frame : Bytes → WebSocketMessage

-- A call of a handler: it may change the context and the world `W` (its own fields behind `&self`,
-- and all else that it can reach), also where it fails.
abbrev pub Act : Type 0 → Type 0 → Type 0
Act W A = HttpContext × W → Outcome ProxyError A × (HttpContext × W)

abbrev pub pure : {W A : Type 0} → A → Act W A
pure a st = (ok a, st)

abbrev pub continue :
    {W A B : Type 0}
    → Outcome ProxyError A × (HttpContext × W)
    → (A → Act W B)
    → Outcome ProxyError B × (HttpContext × W)
continue (ok a, st) f = f a st
continue (err e, st) f = (err e, st)
continue (panic, st) f = (panic, st)
continue (out_of_fuel, st) f = (out_of_fuel, st)

-- `.await?` and what follows.
infixl 5 ◌>>=◌
abbrev pub ◌>>=◌ : {W A B : Type 0} → Act W A → (A → Act W B) → Act W B
◌>>=◌ m f st = continue (m st) f

module _ (http : HttpCrate) where
  pub data Body : Type 0 where
    streaming : http.BoxBody → Body
    full : Bytes → Body

  -- `Body::into_bytes`.
  unfoldable pub into_bytes : Body → Outcome ProxyError Bytes
  into_bytes (full b) = ok b
  into_bytes (streaming boxed) = map_err protocol (http.collect boxed)

  pub record Request : Type 0 where
    pub method : Str
    pub uri : http.Uri
    pub headers : http.Headers
    pub body : Body

  pub record Response : Type 0 where
    pub status : ℕ
    pub headers : http.Headers
    pub body : Body

  pub data RequestOrResponse : Type 0 where
    request : Request → RequestOrResponse
    response : Response → RequestOrResponse

  -- The trait `HttpHandler`; the world is a parameter.
  pub record HttpHandler (W : Type 0) : Type 0 where
    pub handle_request : Request → Act W RequestOrResponse
    pub handle_response : Response → Act W Response
    pub should_intercept_tls : Str → W → Bool × W

  -- The trait `WebSocketHandler`; none of its methods fails.
  pub record WebSocketHandler (W : Type 0) : Type 0 where
    pub on_upgrade : Request → HttpContext × W → Request × (HttpContext × W)
    pub on_frame :
        WebSocketMessage → Direction → HttpContext × W → Option WebSocketMessage × (HttpContext × W)
    pub on_close : HttpContext × W → HttpContext × W

  -- The trait's default methods.
  abbrev pub default_should_intercept_tls : {W : Type 0} → Str → W → Bool × W
  default_should_intercept_tls host w = (true, w)
