-- ===== src/Wire/Syntax.antt =====
-- The crate `http` as src/proxy.rs and src/http_proxy.rs use it to build, parse and print messages.
use hexbuffer_proxy.Prelude.{ℕ, Bool, List, [], ◌∷◌, Option}
use hexbuffer_proxy.Text.{Bytes, Str}
use hexbuffer_proxy.Http.{HttpCrate}

-- A frame of a body, as `poll_frame` gives it.
pub data Frame : Type 0 where
  data_frame : Bytes → Frame
  trailers_frame : Frame
  failed_frame : Str → Frame

pub record HttpSyntax (http : HttpCrate) : Type 0 where
  -- Which texts are a `Method` and which numbers a `StatusCode`.
  pub is_method : Str → Bool
  pub is_status : ℕ → Bool
  pub canonical_reason : ℕ → Option Str
  -- `parse` of a `Uri`, its `Display`, the error's message, and `scheme().is_some()`.
  pub parse_uri : Str → Option http.Uri
  pub uri_to_string : http.Uri → Str
  pub uri_error : Str → Str
  pub has_scheme : http.Uri → Bool
  -- `try_from` of a text for a header name, in lower case, and for a header value.
  pub header_name : Str → Option Str
  pub header_value : Str → Option Bytes
  pub empty : http.Headers
  pub append : http.Headers → Str → Bytes → http.Headers
  -- The frames of a body that ends.
  pub frames : http.BoxBody → List Frame

module _ (http : HttpCrate) (syntax : HttpSyntax http) where
  -- All entries, appended one after the other.
  abbrev pub append_all : List (Bytes × Bytes) → http.Headers → http.Headers
  append_all [] h = h
  append_all ((k, v) ∷ rest) h = append_all rest (syntax.append h k v)
