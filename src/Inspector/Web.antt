-- ===== src/Inspector/Web.antt =====
-- What the application uses of the crate `http` beyond what the proxy uses, with the documented laws.
use hexbuffer_proxy.Prelude.{ℕ, ◌≡◌, ◌≢◌, List, [], ◌∷◌, Option, map}
use hexbuffer_proxy.Text.{Bytes, Str, codes, unwrap_or}
use hexbuffer_proxy.Http.{HttpCrate}
use hexbuffer_proxy.Inspector.Traffic.{HeaderEntry}

pub record HttpMore (http : HttpCrate) : Type 0 where
  -- `HeaderMap::insert`, with a name in lower case: the value replaces all that the name had.
  pub insert : http.Headers → Str → Bytes → http.Headers
  pub get_all-insert_self :
      (h : http.Headers) (name : Str) (v : Bytes) → http.get_all (insert h name v) name ≡ v ∷ []
  pub get_all-insert_ne :
      (h : http.Headers) (name other : Str) (v : Bytes)
      → name ≢ other
      → http.get_all (insert h name v) other ≡ http.get_all h other
  -- `Uri::port_u16` and `Uri::path`.
  pub port_u16 : http.Uri → Option ℕ
  pub path : http.Uri → Str

module _ (http : HttpCrate) where
  -- The entries of a map as text.
  abbrev pub header_entries : http.Headers → List HeaderEntry
  header_entries h =
      map (λ kv. record { name = kv.0; value = unwrap_or (http.to_str kv.1) (codes "<binary>") })
        (http.iter h)
