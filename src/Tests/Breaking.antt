-- ===== src/Tests/Breaking.antt =====
-- Runs of a connection whose first bytes are no request.
use hexbuffer_proxy.Prelude.{◌≡◌, refl, ◌⊎◌, none, ok, panic, []}
use hexbuffer_proxy.Text.{
  Bytes, codes, from_utf8_lossy, lines, split_whitespace, starts_with, trim, after?, before,
}
use hexbuffer_proxy.Handler.Types.{Request}
use hexbuffer_proxy.Wire.Parse.{
  parse_raw_request, build_request, header_lines, add_headers, body_bytes,
}
use hexbuffer_proxy.Wire.Malformed.{IsParsable}
use hexbuffer_proxy.Reader.Stream.{Stream, closed, read}
use hexbuffer_proxy.Server.Client.{Later, serve_client}
use hexbuffer_proxy.Server.Unparsable.{serve_client-unparsable}
use hexbuffer_proxy.Tests.Instances.{http, tools}
use hexbuffer_proxy.Tests.Syntax.{syntax, outside, state}
use hexbuffer_proxy.Tests.Serving.{grumbler}
use hexbuffer_proxy.Tests.Certifying.{authority, started}

-- A header with no name.
abbrev nameless : Bytes
nameless = codes "GET / HTTP/1.1\r\n: a.example\r\n\r\n"

abbrev client_stream : Stream
client_stream = record { incoming = nameless; arrivals = []; ending = closed }

abbrev behind : Stream
behind = record { incoming = []; arrivals = []; ending = closed }

abbrev nothing_later : Later http
nothing_later = record { handshake = ok _; requests = []; frames = λ rest. []; copying = ok _ }

nameless_panics : parse_raw_request http syntax nameless ≡ panic
unfolding parse_raw_request build_request add_headers header_lines lines from_utf8_lossy after?
    before split_whitespace trim body_bytes
nameless_panics = refl

read-nameless : read 4096 client_stream ≡ ok (nameless, behind)
unfolding read
read-nameless = refl

serve_client-unparsable_example :
    (IsParsable http syntax nameless
      × (req : Request http) × (parse_raw_request http syntax nameless ≡ ok req))
    ⊎ ((IsParsable http syntax nameless → ⊥)
        × (serve_client http syntax outside grumbler none nothing_later tools
              (λ e. codes "service failed")
              16384
              none
              authority
              started
              client_stream
              state
            ≡ (panic, state)))
unfolding starts_with
serve_client-unparsable_example =
    serve_client-unparsable http syntax outside grumbler none nothing_later tools authority started
      (λ e. codes "service failed") 16384 none client_stream behind nameless state read-nameless
      refl
