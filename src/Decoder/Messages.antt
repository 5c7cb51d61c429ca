-- ===== src/Decoder/Messages.antt =====
-- src/decoder.rs: `decode_request`, `decode_response` and `DecodeHandler`.
use hexbuffer_proxy.Prelude.{not, if◌then◌else◌, Outcome, ok, ◌>>=◌}
use hexbuffer_proxy.Error.{ProxyError}
use hexbuffer_proxy.Http.{HttpCrate}
use hexbuffer_proxy.Handler.Types.{
  Request, Response, request, HttpHandler, default_should_intercept_tls,
}
use hexbuffer_proxy.Decoder.Codecs.{Codecs}
use hexbuffer_proxy.Decoder.Encodings.{encodings, should_decode, strip_encoding_headers}
use hexbuffer_proxy.Decoder.Bodies.{decode_body}

module _ (codecs : Codecs) (http : HttpCrate) where
  unfoldable pub decode_request : Request http → Outcome ProxyError (Request http)
  decode_request req =
      let decoded = (do
        body ← decode_body codecs http (encodings http req.headers) req.body
        ok (record req { headers = strip_encoding_headers http req.headers; body = body })) in
      if not (should_decode http req.headers) then ok req else decoded

  unfoldable pub decode_response : Response http → Outcome ProxyError (Response http)
  decode_response res =
      let decoded = (do
        body ← decode_body codecs http (encodings http res.headers) res.body
        ok (record res { headers = strip_encoding_headers http res.headers; body = body })) in
      if not (should_decode http res.headers) then ok res else decoded

  -- `DecodeHandler`: it leaves the context and the world alone.
  unfoldable pub decode_handler : {W : Type 0} → HttpHandler http W
  unfolding decode_request decode_response
  decode_handler = record {
    handle_request = λ req st. ((decode_request req >>= λ r. ok (request r)), st);
    handle_response = λ res st. (decode_response res, st);
    should_intercept_tls = default_should_intercept_tls http;
  }
