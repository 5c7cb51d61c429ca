-- ===== src/Http.antt =====
-- The crates `http`, `http-body` and `hyper` as the proxy uses their types: an interface, with the
-- documented laws that the proofs need. No definition of the proxy depends on how they are built.
use hexbuffer_proxy.Prelude.{◌≡◌, ◌≢◌, Bool, true, false, List, [], ◌∷◌, Option, Outcome}
use hexbuffer_proxy.Text.{Bytes, Str, next}

pub record HttpCrate : Type 1 where
  -- `http::HeaderMap`, whose names are in lower case, and the values of a name in order.
  pub Headers : Type 0
  pub get_all : Headers → Str → List Bytes
  pub remove : Headers → Str → Headers
  pub get_all-remove_self : (h : Headers) (name : Str) → get_all (remove h name) name ≡ []
  pub get_all-remove_ne :
      (h : Headers) (name other : Str)
      → name ≢ other
      → get_all (remove h name) other ≡ get_all h other
  -- All entries, in the order in which a `for` loop meets them.
  pub iter : Headers → List (Bytes × Bytes)
  -- `HeaderValue::to_str`: the value as text, if it is visible ASCII.
  pub to_str : Bytes → Option Str
  pub Uri : Type 0
  -- `http_body_util::combinators::BoxBody`, and what `collect` makes of it.
  pub BoxBody : Type 0
  pub collect : BoxBody → Outcome Str Bytes

module _ (http : HttpCrate) where
  -- `headers.get(name)` and `headers.contains_key(name)`.
  abbrev pub get : http.Headers → Str → Option Bytes
  get h name = next (http.get_all h name)

  abbrev pub contains_key : http.Headers → Str → Bool
  contains_key h name = elim (http.get_all h name) [ [] ↦ false | v ∷ vs ↦ true ]
