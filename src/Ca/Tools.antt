-- ===== src/Ca/Tools.antt =====
-- The crate `rcgen` and the machine around the authority: keys, signatures, files, clock.
use hexbuffer_proxy.Prelude.{ℕ, ◌≡◌, Bool, List, Option, some}
use hexbuffer_proxy.Text.{Bytes, Str}

pub data KeyUsagePurpose : Type 0 where
  key_cert_sign digital_signature key_encipherment : KeyUsagePurpose

-- The fields of `CertificateParams` that the authority sets. Times are seconds since the earliest
-- moment that `OffsetDateTime` can name; the root's keep their default.
pub record CertificateParams : Type 0 where
  pub is_ca : Bool
  pub key_usages : List KeyUsagePurpose
  pub server_auth : Bool
  pub use_authority_key_identifier_extension : Bool
  pub validity : Option (ℕ × ℕ)
  pub common_name : Str
  pub subject_alt_names : List Str

pub record CertTools : Type 1 where
  pub KeyPair : Type 0
  -- `KeyPair::generate`, from the random bits that the system hands out.
  pub generate : ℕ → KeyPair
  pub serialize_pem : KeyPair → Str
  pub from_pem : Str → Option KeyPair
  -- A key that was written in PEM is read back.
  pub from_pem-serialize_pem : (k : KeyPair) → from_pem (serialize_pem k) ≡ some k
  pub serialize_der : KeyPair → Bytes
  -- `params.self_signed(&key)`, as PEM.
  pub self_signed : CertificateParams → KeyPair → Str
  -- `params.signed_by(&leaf_key, &Issuer::new(ca_params, &ca_key))`, as DER.
  pub signed_by : CertificateParams → KeyPair → CertificateParams → KeyPair → Bytes
  -- Whether a text can be a `DnsName`: its conversion to an `Ia5String` succeeds.
  pub is_dns_name : Str → Bool
  -- The last moment that `OffsetDateTime` can name.
  pub end_of_time : ℕ

-- The files by folder and name, `none` for one that cannot be read as text; the folders that can be
-- made and written; how much randomness was drawn; the clock.
pub record Machine : Type 0 where
  pub file : Str → Str → Option (Option Str)
  pub writable : Str → Bool
  pub draws : ℕ
  pub now : ℕ
