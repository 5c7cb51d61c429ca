-- ===== src/Tests/Instances.antt =====
-- Concrete crates for the tests: headers as a list, coders that put a mark in front of the bytes, keys
-- that are numbers.
use hexbuffer_proxy.Prelude.{
  ℕ, ◌≡◌, ◌≢◌, refl, sym, ap, ◌∙◌, Bool, true, false, List, [], ◌∷◌, Option, none, some, inl, inr,
  Bool-cases, ◌==◌, if◌then◌else◌, Outcome, ok, err, ◌>>=◌, ltb,
}
use hexbuffer_proxy.Text.{Bytes, Str, codes, equal}
use hexbuffer_proxy.Text.Equal.{equal_iff}
use hexbuffer_proxy.Http.{HttpCrate}
use hexbuffer_proxy.Decoder.Codecs.{Codec, gzip, zlib, brotli, Codecs}
use hexbuffer_proxy.Ca.Tools.{CertTools, Machine}

abbrev pub HeaderList : Type 0
HeaderList = List (Bytes × Bytes)

abbrev pub values : HeaderList → Str → List Bytes
values [] name = []
values ((k, v) ∷ h) name = if equal k name then v ∷ values h name else values h name

abbrev pub without : HeaderList → Str → HeaderList
without [] name = []
without ((k, v) ∷ h) name = if equal k name then without h name else (k, v) ∷ without h name

pub values-without_self : (h : HeaderList) (name : Str) → values (without h name) name ≡ []
values-without_self [] name = refl
values-without_self ((k, v) ∷ h) name = elim (Bool-cases (equal k name)) [
  | inl same ↦ rw same (values-without_self h name)
  | inr differ ↦ rw differ (rw differ (values-without_self h name))
]

pub values-without_ne :
    (h : HeaderList) (name other : Str)
    → name ≢ other
    → values (without h name) other ≡ values h other
values-without_ne [] name other ne = refl
values-without_ne ((k, v) ∷ h) name other ne = elim (Bool-cases (equal k name)) [
  | inl same ↦
      let k_name = (equal_iff k name).0 same in
      elim (Bool-cases (equal k other)) [
        | inl both ↦ absurd (ne (sym k_name ∙ (equal_iff k other).0 both))
        | inr differ ↦ rw (same, differ) (values-without_ne h name other ne)
      ]
  | inr differ ↦ elim (Bool-cases (equal k other)) [
    | inl both ↦ rw (differ, both) (ap (◌∷◌ v) (values-without_ne h name other ne))
    | inr also ↦ rw (differ, also) (values-without_ne h name other ne)
  ]
]

abbrev pub http : HttpCrate
http = record {
  Headers = HeaderList;
  get_all = values;
  remove = without;
  get_all-remove_self = values-without_self;
  get_all-remove_ne = values-without_ne;
  iter = λ h. h;
  to_str = λ v. some v;
  Uri = Str;
  BoxBody = Bytes;
  collect = λ b. ok b;
}

abbrev mark : Codec → ℕ
mark gzip = 1
mark zlib = 2
mark brotli = 3

abbrev zstd_mark : ℕ
zstd_mark = 4

abbrev unmark : ℕ → Bytes → Outcome Str Bytes
unmark m [] = err []
unmark m (b ∷ bs) = if b == m then ok bs else err (codes "corrupt")

abbrev marked : ℕ → Bytes → Outcome Str Bytes
marked m b = ok (m ∷ b)

abbrev started : Outcome Str Bytes → Outcome Str (Outcome Str Bytes)
started r = ok r

pub same_reader : {r d : Outcome Str Bytes} → started r ≡ ok d → r ≡ d
same_reader h = cc h

abbrev pub codecs : Codecs
codecs = record {
  Reader = Outcome Str Bytes;
  reader = λ b. ok b;
  read_to_end = λ r. r;
  decoder = λ c r. (r >>= unmark (mark c));
  zstd_decoder = λ r. ok (r >>= unmark zstd_mark);
  encoder = λ c b. ok (mark c ∷ b);
  zstd_encoder_new = ok _;
  zstd_encoder = λ b. ok (zstd_mark ∷ b);
  join_error = codes "panic";
  read_to_end-reader = λ b. refl;
  decoder-encoder = undo;
  zstd_decoder-encoder = undo_zstd;
}
  where
    undo :
        (c : Codec) (r : Outcome Str Bytes) (b e : Bytes)
        → marked (mark c) b ≡ ok e
        → r ≡ ok e
        → (r >>= unmark (mark c)) ≡ ok b
    undo gzip r b e w y = ap (λ x. (x >>= unmark 1)) (y ∙ sym w)
    undo zlib r b e w y = ap (λ x. (x >>= unmark 2)) (y ∙ sym w)
    undo brotli r b e w y = ap (λ x. (x >>= unmark 3)) (y ∙ sym w)

    undo_zstd :
        (r d : Outcome Str Bytes) (b e : Bytes)
        → marked zstd_mark b ≡ ok e
        → r ≡ ok e
        → started (r >>= unmark zstd_mark) ≡ ok d
        → d ≡ ok b
    undo_zstd r d b e w y s = sym (same_reader s) ∙ ap (λ x. (x >>= unmark 4)) (y ∙ sym w)

abbrev key_of : Str → Option ℕ
key_of [] = none
key_of (k ∷ ks) = some k

abbrev is_ascii : Str → Bool
is_ascii [] = true
is_ascii (c ∷ cs) = if ltb c 128 then is_ascii cs else false

abbrev pub tools : CertTools
tools = record {
  KeyPair = ℕ;
  generate = λ bits. bits;
  serialize_pem = λ k. k ∷ [];
  from_pem = key_of;
  from_pem-serialize_pem = λ k. refl;
  serialize_der = λ k. k ∷ [];
  self_signed = λ params k. k ∷ params.common_name;
  signed_by = λ params leaf issuer k. leaf ∷ k ∷ params.common_name;
  is_dns_name = is_ascii;
  end_of_time = 400000000000;
}

-- A machine with no files, on which every folder can be written.
abbrev pub machine : Machine
machine = record { file = λ d n. none; writable = λ d. true; draws = 7; now = 1000 }
