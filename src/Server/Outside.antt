-- ===== src/Server/Outside.antt =====
-- What the proxy asks of the network and of the crates `hyper` and `hyper-tungstenite`.
use hexbuffer_proxy.Prelude.{
  Option, ℕ, Bool, List, ◌++◌, none, some, if◌then◌else◌, Outcome, ok, err, panic, out_of_fuel,
}
use hexbuffer_proxy.Text.{Bytes, Str, codes}
use hexbuffer_proxy.Error.{Failure, message}
use hexbuffer_proxy.Http.{HttpCrate}
use hexbuffer_proxy.Handler.Types.{Request, Response}
use hexbuffer_proxy.Reader.Stream.{Stream}
use hexbuffer_proxy.Reader.Response.{read_full_response}
use hexbuffer_proxy.Wire.Syntax.{HttpSyntax}
use hexbuffer_proxy.Server.Conn.{Conn, Luck, new_conn, write_all}
use hexbuffer_proxy.Server.Run.{Upstream, State, Run}

pub record Outside (http : HttpCrate) (W : Type 0) : Type 0 where
  -- `upstream::send_request`: Hyper's pooled client.
  pub send_request : Request http → W → Outcome Failure (Response http) × W
  -- `TcpStream::connect`: what writes on the connection meet, and the bytes that come back.
  pub connect : Str → W → Outcome Failure (List Luck × Stream) × W
  -- `hyper_tungstenite::is_upgrade_request`, and `upgrade`: the answer to the client.
  pub is_upgrade_request : Request http → Bool
  pub upgrade : Request http → Outcome Str (Response http)
  -- A `Uri` with the scheme `wss`, and `path_and_query`.
  pub with_wss : http.Uri → Outcome Str http.Uri
  pub path_and_query : http.Uri → Option Str

module _ {W : Type 0} where
  abbrev pub in_world : {A : Type 0} → Outcome Failure A × W → State W → Outcome Failure A × State W
  in_world (o, w) st = (o, record st { world = w })

  -- A call of the outside.
  abbrev pub ask : {A : Type 0} → (W → Outcome Failure A × W) → Run W A
  ask f st = in_world (f st.world) st

  abbrev opened :
      Str → Outcome Failure (List Luck × Stream) × State W → Outcome Failure Upstream × State W
  opened target (ok (luck, reply), st) =
      let up : Upstream = record { target = target; sent = new_conn luck; reply = reply } in
      (ok up, record st { upstream = some up })
  opened target (err e, st) = (err e, st)
  opened target (panic, st) = (panic, st)
  opened target (out_of_fuel, st) = (out_of_fuel, st)

  -- `TcpStream::connect(target)`.
  abbrev pub connect_to :
      (Str → W → Outcome Failure (List Luck × Stream) × W) → Str → Run W Upstream
  connect_to connect target st = opened target (ask (connect target) st)

  abbrev wrote :
      Upstream → Outcome Failure (Unit {0}) × Conn → State W → Outcome Failure Upstream × State W
  wrote up (ok u, c) st =
      let up' = record up { sent = c } in (ok up', record st { upstream = some up' })
  wrote up (err e, c) st = (err e, record st { upstream = some (record up { sent = c }) })
  wrote up (panic, c) st = (panic, record st { upstream = some (record up { sent = c }) })
  wrote up (out_of_fuel, c) st =
      (out_of_fuel, record st { upstream = some (record up { sent = c }) })

  abbrev pub write_upstream : Bytes → Upstream → Run W Upstream
  write_upstream b up st = wrote up (write_all b up.sent) st

  abbrev got :
      Upstream
      → Outcome Failure (Bytes × Stream)
      → State W
      → Outcome Failure (Bytes × Upstream) × State W
  got up (ok (b, s)) st =
      let up' = record up { reply = s } in (ok (b, up'), record st { upstream = some up' })
  got up (err e) st = (err e, st)
  got up panic st = (panic, st)
  got up out_of_fuel st = (out_of_fuel, st)

  abbrev pub read_upstream : ℕ → Upstream → Run W (Bytes × Upstream)
  read_upstream buf_size up st = got up (read_full_response up.reply buf_size) st

module _ (http : HttpCrate) (syntax : HttpSyntax http) where
  -- The target in absolute form, if it is not.
  unfoldable pub absolute : Str → Str → Request http → Outcome Failure (Request http)
  absolute prefix host req =
      let target = prefix ++ host ++ syntax.uri_to_string req.uri in
      if syntax.has_scheme req.uri then ok req else elim (syntax.parse_uri target) [
        | some u ↦ ok (record req { uri = u })
        | none ↦ err (message (codes "invalid absolute URI: " ++ syntax.uri_error target))
      ]
