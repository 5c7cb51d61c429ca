-- ===== src/Server/Send.antt =====
-- src/upstream.rs: `send_request`, and `Body::into_boxed` of src/handler.rs, over Hyper's pooled client.
use hexbuffer_proxy.Prelude.{ℕ, ◌≡◌, refl, Outcome, ok, err, panic, out_of_fuel}
use hexbuffer_proxy.Text.{Bytes, Str}
use hexbuffer_proxy.Error.{Failure, from_external}
use hexbuffer_proxy.Http.{HttpCrate}
use hexbuffer_proxy.Handler.Types.{Body, full, streaming, into_bytes, Request, Response}
use hexbuffer_proxy.Server.Outside.{Outside}

-- `Full::new(b).boxed()` of the crate `http-body-util`: collected again, it is its bytes.
pub record Boxing (http : HttpCrate) : Type 0 where
  pub boxed : Bytes → http.BoxBody
  pub collect-boxed : (b : Bytes) → http.collect (boxed b) ≡ ok b

-- `Incoming` as `Body`, and `Bytes` as `Body`.
module _ (http : HttpCrate) where
  abbrev pub from_incoming : http.BoxBody → Body http
  from_incoming b = streaming b

  abbrev pub from_bytes : Bytes → Body http
  from_bytes b = full b

  -- A message as Hyper takes and gives it.
  pub record HyperRequest : Type 0 where
    pub method : Str
    pub uri : http.Uri
    pub headers : http.Headers
    pub body : http.BoxBody

  pub record HyperResponse : Type 0 where
    pub status : ℕ
    pub headers : http.Headers
    pub body : http.BoxBody

  -- A clone of the client as a service: `ready` and `call`, each with the error's message.
  pub record HyperClient (W : Type 0) : Type 0 where
    pub ready : W → Outcome Str (Unit {0}) × W
    pub call : HyperRequest → W → Outcome Str HyperResponse × W

module _ (http : HttpCrate) (boxing : Boxing http) where
  unfoldable pub into_boxed : Body http → http.BoxBody
  into_boxed (full b) = boxing.boxed b
  into_boxed (streaming boxed) = boxed

  abbrev pub body_to_hyper : Body http → http.BoxBody
  body_to_hyper body = into_boxed body

  abbrev hyper_request : Request http → HyperRequest http
  hyper_request req = record {
    method = req.method;
    uri = req.uri;
    headers = req.headers;
    body = body_to_hyper req.body;
  }

  abbrev streamed : HyperResponse http → Response http
  streamed res = record { status = res.status; headers = res.headers; body = streaming res.body }

  module _ {W : Type 0} (client : HyperClient http W) where
    abbrev called : Outcome Str (HyperResponse http) × W → Outcome Failure (Response http) × W
    called (ok res, w) = (ok (streamed res), w)
    called (err m, w) = (err (from_external m), w)
    called (panic, w) = (panic, w)
    called (out_of_fuel, w) = (out_of_fuel, w)

    abbrev when_ready :
        Outcome Str (Unit {0}) × W → Request http → Outcome Failure (Response http) × W
    when_ready (ok u, w) req = called (client.call (hyper_request req) w)
    when_ready (err m, w) req = (err (from_external m), w)
    when_ready (panic, w) req = (panic, w)
    when_ready (out_of_fuel, w) req = (out_of_fuel, w)

    unfoldable pub send_request : Request http → W → Outcome Failure (Response http) × W
    unfolding into_boxed
    send_request req w = when_ready (client.ready w) req

    -- The outside with this client in it.
    abbrev pub with_client : Outside http W → Outside http W
    with_client outside = record outside { send_request = send_request }

  -- A body that is boxed for Hyper gives the same bytes, or the same error, as the body itself.
  pub into_bytes-into_boxed :
      (body : Body http) → into_bytes http (streaming (into_boxed body)) ≡ into_bytes http body
  unfolding into_bytes into_boxed
  into_bytes-into_boxed (full b) = rw (boxing.collect-boxed b) refl
  into_bytes-into_boxed (streaming boxed) = refl

  -- What Hyper's client is called with: the request's own method, target and headers, and a body with
  -- the same bytes. Its response comes back with the body still a stream; its errors and those of a
  -- client that is not ready are errors of the call.
  pub send_request-into_boxed :
      {W : Type 0} (client : HyperClient http W) (req : Request http) (w w' : W)
      → client.ready w ≡ (ok _, w')
      → (sent : HyperRequest http) × (send_request client req w
          ≡ called client (client.call sent w'))
        × (sent.method ≡ req.method)
        × (sent.uri ≡ req.uri)
        × (sent.headers ≡ req.headers)
        × (into_bytes http (streaming sent.body) ≡ into_bytes http req.body)
  unfolding send_request
  send_request-into_boxed client req w w' ready =
      (hyper_request req, rw ready refl, refl, refl, refl, into_bytes-into_boxed req.body)
