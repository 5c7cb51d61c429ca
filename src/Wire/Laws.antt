-- ===== src/Wire/Laws.antt =====
-- What printing and reading a message relies on in the crate `http`, and which header values survive it.
use hexbuffer_proxy.Prelude.{◌≡◌, true, false, some, All}
use hexbuffer_proxy.Text.{Bytes, Str, contains_char, is_empty, trim}
use hexbuffer_proxy.Text.Ascii.{IsAscii, IsWord}
use hexbuffer_proxy.Http.{HttpCrate}
use hexbuffer_proxy.Wire.Syntax.{HttpSyntax, append_all}

-- A nonempty text of ASCII characters other than white space.
pub record IsToken (s : Str) : Type 0 where
  pub ascii : IsAscii s
  pub word : IsWord s
  pub nonempty : is_empty s ≡ false

module _ (http : HttpCrate) (syntax : HttpSyntax http) where
  -- A name as a `HeaderMap` holds it.
  pub record IsName (k : Bytes) : Type 0 where
    pub token : IsToken k
    pub no_colon : contains_char b':' k ≡ false
    pub same : syntax.header_name k ≡ some k

  -- The documented behaviour: methods are tokens, a target that is printed is read back, names are
  -- names, and a map is what its entries make of the empty one.
  pub record SyntaxLaws : Type 0 where
    pub method-IsToken : (m : Str) → syntax.is_method m ≡ true → IsToken m
    pub parse_uri-uri_to_string :
        (u : http.Uri) → syntax.parse_uri (syntax.uri_to_string u) ≡ some u
    pub iter-IsName : (h : http.Headers) → All (λ kv. IsName kv.0) (http.iter h)
    pub append_all-iter : (h : http.Headers) → append_all http syntax (http.iter h) syntax.empty ≡ h

  -- A value that is visible text on one line, with no white space at its ends.
  pub record IsPlain (v : Bytes) : Type 0 where
    pub ascii : IsAscii v
    pub one_line : contains_char b'\n' v ≡ false
    pub no_return : contains_char b'\r' v ≡ false
    pub trimmed : trim v ≡ v
    pub same : syntax.header_value v ≡ some v
