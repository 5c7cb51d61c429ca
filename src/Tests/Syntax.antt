-- ===== src/Tests/Syntax.antt =====
-- Concrete syntax and a concrete outside for the tests of Wire and Server.
use hexbuffer_proxy.Prelude.{
  ℕ, zero, suc, ◌≡◌, ◌≢◌, refl, ap, ◌∙◌, true, false, leb, ◌==◌, List, [], ◌∷◌, ◌++◌, append_assoc,
  Option, none, some, arith, All, if◌then◌else◌, ok, err, length,
}
use hexbuffer_proxy.Text.{
  Bytes, Str, codes, equal, starts_with, to_lowercase, is_empty, is_whitespace, contains_char,
}
use hexbuffer_proxy.Text.Ascii.{IsAscii, is_ascii-IsAscii, is_word-IsWord, IsWord}
use hexbuffer_proxy.Text.Equal.{equal_iff, equal_self}
use hexbuffer_proxy.Error.{from_external}
use hexbuffer_proxy.Http.{HttpCrate}
use hexbuffer_proxy.Handler.Types.{full}
use hexbuffer_proxy.Wire.Syntax.{data_frame, trailers_frame, failed_frame, HttpSyntax, append_all}
use hexbuffer_proxy.Wire.Laws.{IsToken, IsName, SyntaxLaws}
use hexbuffer_proxy.Server.Outside.{Outside}
use hexbuffer_proxy.Server.Conn.{Conn}
use hexbuffer_proxy.Server.Run.{State}
use hexbuffer_proxy.Tests.Instances.{http}

abbrev pub reason : ℕ → Option Str
reason status = if status == 200 then some (codes "OK") else none

-- A body's stream is one frame of data and a failure.
abbrev pub syntax : HttpSyntax http
syntax = record {
  is_method = λ m. if is_empty m then false else true;
  is_status = λ n. if leb 100 n then leb n 999 else false;
  canonical_reason = reason;
  parse_uri = λ s. if is_empty s then none else some s;
  uri_to_string = λ u. u;
  uri_error = λ s. codes "empty string";
  has_scheme = λ u. starts_with (codes "http") u;
  header_name = λ k. if is_empty k then none else some (to_lowercase k);
  header_value = λ v. some v;
  empty = [];
  append = λ h k v. (h ++ (k, v) ∷ []);
  frames = λ b. data_frame b ∷ trailers_frame ∷ failed_frame (codes "reset") ∷ [];
}

-- The server answers 200, and no other connection can be made.
abbrev pub outside : Outside http ℕ
outside = record {
  send_request =
      λ req w. (ok (record { status = 200; headers = []; body = full (codes "ok") }), suc w);
  connect = λ target w. (err (from_external (codes "refused")), w);
  is_upgrade_request = λ req. false;
  upgrade = λ req. ok (record { status = 101; headers = req.headers; body = full [] });
  with_wss = λ u. ok u;
  path_and_query = λ u. some u;
}

-- A smaller crate, in which all laws hold: targets are a slash and some letters, and the only header
-- is `host`.
abbrev host_name : Str
host_name = codes "host"

abbrev values : List Bytes → Str → List Bytes
values h name = if equal host_name name then h else []

abbrev without : List Bytes → Str → List Bytes
without h name = if equal host_name name then [] else h

pub values-without_self : (h : List Bytes) (name : Str) → values (without h name) name ≡ []
values-without_self h name = ground arith

pub values-without_ne :
    (h : List Bytes) (name other : Str)
    → name ≢ other
    → values (without h name) other ≡ values h other
values-without_ne h name other ne =
    ground (arith, equal_iff host_name name, equal_iff host_name other)

abbrev named : List Bytes → List (Bytes × Bytes)
named [] = []
named (v ∷ vs) = (host_name, v) ∷ named vs

abbrev pub small : HttpCrate
small = record {
  Headers = List Bytes;
  get_all = values;
  remove = without;
  get_all-remove_self = values-without_self;
  get_all-remove_ne = values-without_ne;
  iter = named;
  to_str = λ v. some v;
  Uri = ℕ;
  BoxBody = Bytes;
  collect = λ b. ok b;
}

abbrev pub letters : ℕ → Str
letters zero = []
letters (suc n) = b'a' ∷ letters n

abbrev pub path_length : Str → Option ℕ
path_length [] = none
path_length (c ∷ s) = some (length s)

abbrev pub method_get : Str
method_get = codes "GET"

abbrev pub small_syntax : HttpSyntax small
small_syntax = record {
  is_method = λ m. equal m method_get;
  is_status = λ n. if leb 100 n then leb n 999 else false;
  canonical_reason = reason;
  parse_uri = path_length;
  uri_to_string = λ n. (b'/' ∷ letters n);
  uri_error = λ s. codes "empty string";
  has_scheme = λ u. false;
  header_name = λ k. if equal k host_name then some host_name else none;
  header_value = λ v. some v;
  empty = [];
  append = λ h k v. (h ++ v ∷ []);
  frames = λ b. data_frame b ∷ [];
}

letters-IsAscii : (n : ℕ) → IsAscii (letters n)
letters-IsAscii zero = _
letters-IsAscii (suc n) = (omega arith, letters-IsAscii n)

letters-IsWord : (n : ℕ) → IsWord (letters n)
unfolding is_whitespace
letters-IsWord zero = _
letters-IsWord (suc n) = (refl, letters-IsWord n)

pub path-IsToken : (n : ℕ) → IsToken (b'/' ∷ letters n)
unfolding is_whitespace
path-IsToken n = record {
  ascii = (omega arith, letters-IsAscii n);
  word = (refl, letters-IsWord n);
  nonempty = refl;
}

pub get-IsToken : (m : Str) → equal m method_get ≡ true → IsToken m
unfolding is_whitespace
get-IsToken m h = rw ((equal_iff m method_get).0 h) (record {
  ascii = is_ascii-IsAscii method_get refl;
  word = is_word-IsWord method_get refl;
  nonempty = refl;
})

host-IsName : IsName small small_syntax host_name
unfolding is_whitespace contains_char
host-IsName = record {
  token = record {
    ascii = is_ascii-IsAscii host_name refl;
    word = is_word-IsWord host_name refl;
    nonempty = refl;
  };
  no_colon = refl;
  same = rw (equal_self host_name) refl;
}

named-IsName : (h : List Bytes) → All (λ kv. IsName small small_syntax kv.0) (named h)
named-IsName [] = _
named-IsName (v ∷ vs) = (host-IsName, named-IsName vs)

pub path_length-letters : (n : ℕ) → length (letters n) ≡ n
path_length-letters zero = refl
path_length-letters (suc n) = ap suc (path_length-letters n)

append_all-named : (h k : List Bytes) → append_all small small_syntax (named h) k ≡ k ++ h
append_all-named [] k = ground (arith, append_nil_of k)
  where
    append_nil_of : (k : List Bytes) → k ≡ k ++ []
    append_nil_of [] = refl
    append_nil_of (v ∷ k) = ap (◌∷◌ v) (append_nil_of k)
append_all-named (v ∷ h) k = append_all-named h (k ++ v ∷ []) ∙ append_assoc k (v ∷ []) h

pub small_laws : SyntaxLaws small small_syntax
small_laws = record {
  method-IsToken = get-IsToken;
  parse_uri-uri_to_string = λ n. ap some (path_length-letters n);
  iter-IsName = named-IsName;
  append_all-iter = λ h. append_all-named h [];
}

-- A connection that stays up, and the state at the start.
abbrev pub fresh : Conn
fresh = record { written = []; shut = false; luck = [] }

abbrev pub state : State ℕ
state = record { client = fresh; upstream = none; request_id = 1; spawned = []; world = 0 }
