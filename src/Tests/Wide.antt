-- ===== src/Tests/Wide.antt =====
-- A concrete crate in which all laws hold and a request can ask for a WebSocket: its headers are `host`, `upgrade` and
-- `connection`.
use hexbuffer_proxy.Prelude.{
  ℕ, ◌≡◌, ◌≢◌, refl, sym, ap, ◌∙◌, false, leb, List, [], ◌∷◌, ◌++◌, append_assoc, append-nil, none,
  some, inl, inr, Bool-cases, All, if◌then◌else◌, ok,
}
use hexbuffer_proxy.Text.{Bytes, Str, codes, equal, is_whitespace, contains_char}
use hexbuffer_proxy.Text.Ascii.{is_ascii-IsAscii, is_word-IsWord}
use hexbuffer_proxy.Text.Equal.{equal_iff}
use hexbuffer_proxy.Http.{HttpCrate}
use hexbuffer_proxy.Wire.Syntax.{data_frame, HttpSyntax, append_all}
use hexbuffer_proxy.Wire.Laws.{IsName, SyntaxLaws}
use hexbuffer_proxy.Wire.Responses.{StatusLaws}
use hexbuffer_proxy.Tests.Syntax.{
  letters, path_length, method_get, get-IsToken, path_length-letters, reason,
}
use hexbuffer_proxy.Tests.Printing.{phrase-IsReason, three_long}

pub data Key : Type 0 where
  host : Key
  upgrade : Key
  connection : Key

abbrev name_of : Key → Str
name_of host = codes "host"
name_of upgrade = codes "upgrade"
name_of connection = codes "connection"

abbrev key_of : Str → Key
key_of s =
    if equal s (codes "host")
    then host
    else if equal s (codes "upgrade")
    then upgrade
    else connection

key_of-name_of : (k : Key) → key_of (name_of k) ≡ k
unfolding equal
key_of-name_of host = refl
key_of-name_of upgrade = refl
key_of-name_of connection = refl

abbrev pub KeyList : Type 0
KeyList = List (Key × Bytes)

abbrev values : KeyList → Str → List Bytes
values [] name = []
values ((k, v) ∷ h) name = if equal (name_of k) name then v ∷ values h name else values h name

abbrev without : KeyList → Str → KeyList
without [] name = []
without ((k, v) ∷ h) name =
    if equal (name_of k) name then without h name else (k, v) ∷ without h name

pub values-without_self : (h : KeyList) (name : Str) → values (without h name) name ≡ []
values-without_self [] name = refl
values-without_self ((k, v) ∷ h) name = elim (Bool-cases (equal (name_of k) name)) [
  | inl same ↦ rw same (values-without_self h name)
  | inr differ ↦ rw differ (rw differ (values-without_self h name))
]

pub values-without_ne :
    (h : KeyList) (name other : Str) → name ≢ other → values (without h name) other ≡ values h other
values-without_ne [] name other ne = refl
values-without_ne ((k, v) ∷ h) name other ne = elim (Bool-cases (equal (name_of k) name)) [
  | inl same ↦ elim (Bool-cases (equal (name_of k) other)) [
    | inl both ↦
        absurd
          (ne (sym ((equal_iff (name_of k) name).0 same) ∙ (equal_iff (name_of k) other).0 both))
    | inr differ ↦ rw (same, differ) (values-without_ne h name other ne)
  ]
  | inr differ ↦ elim (Bool-cases (equal (name_of k) other)) [
    | inl both ↦ rw (differ, both) (ap (◌∷◌ v) (values-without_ne h name other ne))
    | inr also ↦ rw (differ, also) (values-without_ne h name other ne)
  ]
]

abbrev named : KeyList → List (Bytes × Bytes)
named [] = []
named ((k, v) ∷ h) = (name_of k, v) ∷ named h

abbrev pub wide : HttpCrate
wide = record {
  Headers = KeyList;
  get_all = values;
  remove = without;
  get_all-remove_self = values-without_self;
  get_all-remove_ne = values-without_ne;
  iter = named;
  to_str = λ v. some v;
  Uri = ℕ;
  BoxBody = Bytes;
  collect = λ b. ok b;
}

abbrev pub wide_syntax : HttpSyntax wide
wide_syntax = record {
  is_method = λ m. equal m method_get;
  is_status = λ n. if leb 100 n then leb n 999 else false;
  canonical_reason = reason;
  parse_uri = path_length;
  uri_to_string = λ n. (b'/' ∷ letters n);
  uri_error = λ s. codes "empty string";
  has_scheme = λ u. false;
  header_name = λ k. if equal (name_of (key_of k)) k then some k else none;
  header_value = λ v. some v;
  empty = [];
  append = λ h k v. (h ++ (key_of k, v) ∷ []);
  frames = λ b. data_frame b ∷ [];
}

name_of-IsName : (k : Key) → IsName wide wide_syntax (name_of k)
unfolding is_whitespace contains_char equal
name_of-IsName host = record {
  token = record {
    ascii = is_ascii-IsAscii (name_of host) refl;
    word = is_word-IsWord (name_of host) refl;
    nonempty = refl;
  };
  no_colon = refl;
  same = refl;
}
name_of-IsName upgrade = record {
  token = record {
    ascii = is_ascii-IsAscii (name_of upgrade) refl;
    word = is_word-IsWord (name_of upgrade) refl;
    nonempty = refl;
  };
  no_colon = refl;
  same = refl;
}
name_of-IsName connection = record {
  token = record {
    ascii = is_ascii-IsAscii (name_of connection) refl;
    word = is_word-IsWord (name_of connection) refl;
    nonempty = refl;
  };
  no_colon = refl;
  same = refl;
}

named-IsName : (h : KeyList) → All (λ kv. IsName wide wide_syntax kv.0) (named h)
named-IsName [] = _
named-IsName ((k, v) ∷ h) = (name_of-IsName k, named-IsName h)

append_all-named : (h k : KeyList) → append_all wide wide_syntax (named h) k ≡ k ++ h
append_all-named [] k = sym (append-nil k)
append_all-named ((key, v) ∷ h) k =
    ap (λ x. append_all wide wide_syntax (named h) (k ++ (x, v) ∷ [])) (key_of-name_of key)
    ∙ append_all-named h (k ++ (key, v) ∷ [])
    ∙ append_assoc k ((key, v) ∷ []) h

pub wide_laws : SyntaxLaws wide wide_syntax
wide_laws = record {
  method-IsToken = get-IsToken;
  parse_uri-uri_to_string = λ n. ap some (path_length-letters n);
  iter-IsName = named-IsName;
  append_all-iter = λ h. append_all-named h [];
}

pub wide_statuses : StatusLaws wide wide_syntax
wide_statuses = record { status_range = three_long; reason-IsReason = phrase-IsReason }
