-- ===== src/Ca/Forge.antt =====
-- src/ca.rs: `forge_certificate`.
use hexbuffer_proxy.Prelude.{
  ℕ, ◌+◌, ◌-◌, Bool, true, false, ◌||◌, not, [], ◌∷◌, none, some, ltb, if◌then◌else◌, Outcome, ok,
  panic,
}
use hexbuffer_proxy.Text.{Bytes, Str}
use hexbuffer_proxy.Dict.{lookup, insert}
use hexbuffer_proxy.Error.{Failure}
use hexbuffer_proxy.Ca.Tools.{
  digital_signature, key_encipherment, CertificateParams, CertTools, Machine,
}
use hexbuffer_proxy.Ca.Store.{CertificationAuthority, draw}

-- `NOT_BEFORE_OFFSET_SECS`
abbrev pub not_before_offset_secs : ℕ
not_before_offset_secs = 300

-- `TTL_SECS`
abbrev pub ttl_secs : ℕ
ttl_secs = 31536000

-- The parameters of a leaf made at the moment `now`.
unfoldable pub leaf_params : Str → ℕ → CertificateParams
leaf_params host now =
    let not_before = now - not_before_offset_secs in
    record {
      is_ca = false;
      key_usages = digital_signature ∷ key_encipherment ∷ [];
      server_auth = true;
      use_authority_key_identifier_extension = true;
      validity = some (not_before, not_before + ttl_secs);
      common_name = host;
      subject_alt_names = host ∷ [];
    }

module _ (tools : CertTools) where
  -- `OffsetDateTime` arithmetic panics out of its range; a host that is no DNS name fails `unwrap`.
  abbrev pub cannot_forge : Str → ℕ → Bool
  cannot_forge host now =
      ltb now not_before_offset_secs
      || ltb tools.end_of_time (now - not_before_offset_secs + ttl_secs)
      || not (tools.is_dns_name host)

  -- The certificate for `host` made at the moment `now` with the leaf key `leaf`, and that key.
  unfoldable pub issue : CertificationAuthority tools → Str → ℕ → tools.KeyPair → Bytes × Bytes
  unfolding leaf_params
  issue ca host now leaf =
      (tools.signed_by (leaf_params host now) leaf ca.ca_params ca.ca_key, tools.serialize_der leaf)

  abbrev pub Forged : Type 0
  Forged = Outcome Failure ((Bytes × Bytes) × CertificationAuthority tools × Machine)

  -- The part of `forge_certificate` behind the look into the cache.
  unfoldable pub forge_new : CertificationAuthority tools → Str → Machine → Forged
  forge_new ca host m =
      let (leaf, m') = draw tools m in
      let pair = issue ca host m.now leaf in
      if cannot_forge host m.now
      then panic
      else ok (pair, record ca { cert_cache = insert host pair ca.cert_cache }, m')

  unfoldable pub forge_certificate : CertificationAuthority tools → Str → Machine → Forged
  forge_certificate ca host m = elim (lookup host ca.cert_cache) [
    | some pair ↦ ok (pair, ca, m)
    | none ↦ forge_new ca host m
  ]
