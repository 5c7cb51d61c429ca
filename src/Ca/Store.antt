-- ===== src/Ca/Store.antt =====
-- src/ca.rs: `CertificationAuthority` and how it is loaded or made.
use hexbuffer_proxy.Prelude.{
  suc, Bool, true, false, List, [], ◌∷◌, Option, none, some, ◌&&◌, if◌then◌else◌, Outcome, ok,
  panic, ◌>>=◌,
}
use hexbuffer_proxy.Text.{Bytes, Str, codes, equal}
use hexbuffer_proxy.Error.{Failure}
use hexbuffer_proxy.Ca.Tools.{key_cert_sign, CertificateParams, CertTools, Machine}

abbrev pub ca_pem : Str
ca_pem = codes "ca.pem"

abbrev pub ca_key_pem : Str
ca_key_pem = codes "ca-key.pem"

abbrev pub write_file :
    Str → Str → Str → (Str → Str → Option (Option Str)) → Str → Str → Option (Option Str)
write_file dir name content file d n =
    if equal dir d && equal name n then some (some content) else file d n

abbrev pub exists : Option (Option Str) → Bool
exists none = false
exists (some content) = true

-- `read_to_string(…).expect(…)`.
abbrev pub read_to_string : Option (Option Str) → Outcome Failure Str
read_to_string none = panic
read_to_string (some none) = panic
read_to_string (some (some content)) = ok content

abbrev pub expect {ℓ} : {A : Type ℓ} → Option A → Outcome Failure A
expect none = panic
expect (some a) = ok a

-- `build_ca_params`.
unfoldable pub build_ca_params : CertificateParams
build_ca_params = record {
  is_ca = true;
  key_usages = key_cert_sign ∷ [];
  server_auth = false;
  use_authority_key_identifier_extension = false;
  validity = none;
  common_name = codes "Hexbuffer Proxy CA";
  subject_alt_names = [];
}

module _ (tools : CertTools) where
  pub record CertificationAuthority : Type 0 where
    pub ca_params : CertificateParams
    pub ca_key : tools.KeyPair
    pub ca_cert_pem : Str
    pub cert_cache : List (Str × (Bytes × Bytes))

  -- A key from fresh randomness.
  abbrev pub draw : Machine → tools.KeyPair × Machine
  draw m = (tools.generate m.draws, record m { draws = suc m.draws })

  -- `generate_ca`: the pair of key and certificate, with both files written.
  unfoldable pub generate_ca :
      CertificateParams → Str → Machine → Outcome Failure (tools.KeyPair × Str × Machine)
  unfolding equal
  generate_ca params dir m =
      let (key, m') = draw m in
      let pem = tools.self_signed params key in
      if m.writable dir
      then ok (
        key,
        pem,
        record m' {
          file =
              write_file dir ca_key_pem (tools.serialize_pem key)
                (write_file dir ca_pem pem m.file);
        },
      )
      else panic

  abbrev authority : tools.KeyPair → Str → CertificationAuthority
  authority key pem = record {
    ca_params = build_ca_params;
    ca_key = key;
    ca_cert_pem = pem;
    cert_cache = [];
  }

  -- The branch of `new_in` that finds both files.
  unfoldable pub load_ca : Str → Machine → Outcome Failure (CertificationAuthority × Machine)
  load_ca dir m = do
    pem ← read_to_string (m.file dir ca_pem)
    key_pem ← read_to_string (m.file dir ca_key_pem)
    key ← expect (tools.from_pem key_pem)
    ok (authority key pem, m)

  -- The branch that does not.
  unfoldable pub make_ca : Str → Machine → Outcome Failure (CertificationAuthority × Machine)
  unfolding generate_ca
  make_ca dir m = do (key, pem, m') ← generate_ca build_ca_params dir m; ok (authority key pem, m')

  -- `new_in`.
  unfoldable pub new_in : Str → Machine → Outcome Failure (CertificationAuthority × Machine)
  new_in dir m =
      if exists (m.file dir ca_pem) && exists (m.file dir ca_key_pem)
      then load_ca dir m
      else make_ca dir m

  -- `new`.
  unfoldable pub new : Machine → Outcome Failure (CertificationAuthority × Machine)
  new m = new_in (codes "cert") m
