-- ===== src/Server/Session.antt =====
-- src/https_proxy.rs: the end of `handle_https`, where Hyper's server calls `handle_https_request` for the requests of
-- a tunnel, one after the other.
use hexbuffer_proxy.Prelude.{List, [], ◌∷◌, ◌++◌, Outcome, ok, err, panic, out_of_fuel}
use hexbuffer_proxy.Text.{Str, codes}
use hexbuffer_proxy.Error.{Failure, message}
use hexbuffer_proxy.Http.{HttpCrate}
use hexbuffer_proxy.Handler.Types.{Request, Response, HttpHandler}
use hexbuffer_proxy.Wire.Syntax.{HttpSyntax}
use hexbuffer_proxy.Server.Run.{State}
use hexbuffer_proxy.Server.Outside.{Outside}
use hexbuffer_proxy.Server.Tunnel.{handle_https_request}

module _ (http : HttpCrate) (syntax : HttpSyntax http) {W : Type 0} (outside : Outside http W)
    (handler : HttpHandler http W) where
  abbrev pub SessionEnd : Type 0
  SessionEnd = List (Response http) × (Outcome Failure (Unit {0}) × State W)

  -- The responses so far, what follows, and the error with its prefix: Hyper ends the connection where the service
  -- fails. `server_error` is what its error says of the service's.
  abbrev pub next_request :
      (Failure → Str)
      → Outcome Failure (Response http) × State W
      → (State W → SessionEnd)
      → SessionEnd
  next_request server_error (ok res, st) rest =
      let (responses, end) = rest st in (res ∷ responses, end)
  next_request server_error (err e, st) rest =
      ([], (err (message (codes "Hyper server: " ++ server_error e)), st))
  next_request server_error (panic, st) rest = ([], (panic, st))
  next_request server_error (out_of_fuel, st) rest = ([], (out_of_fuel, st))

  unfoldable pub serve_requests :
      (Failure → Str) → Str → Str → List (Request http) → State W → SessionEnd
  unfolding handle_https_request
  serve_requests server_error host client_addr [] st = ([], (ok _, st))
  serve_requests server_error host client_addr (req ∷ reqs) st =
      next_request server_error
        (handle_https_request http syntax outside handler host client_addr req st)
        (serve_requests server_error host client_addr reqs)
