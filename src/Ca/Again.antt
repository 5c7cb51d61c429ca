-- ===== src/Ca/Again.antt =====
-- What the cache of certificates keeps while the authority is in use.
use hexbuffer_proxy.Prelude.{◌≡◌, refl, arith, inl, inr, some, Bool-cases, Option-cases, ok}
use hexbuffer_proxy.Text.{Bytes, Str, equal}
use hexbuffer_proxy.Text.Equal.{equal_iff}
use hexbuffer_proxy.Dict.{lookup, lookup-insert, lookup-insert_self}
use hexbuffer_proxy.Ca.Tools.{CertTools, Machine}
use hexbuffer_proxy.Ca.Store.{CertificationAuthority}
use hexbuffer_proxy.Ca.Forge.{forge_certificate, forge_new, issue}

module _ (tools : CertTools) where
  -- What successful calls of `forge_certificate`, for any hosts and on any machines, make of an authority.
  pub data Calls : CertificationAuthority tools → CertificationAuthority tools → Type 0 where
    no_more : (ca : CertificationAuthority tools) → Calls ca ca
    then_call :
        (ca ca1 ca2 : CertificationAuthority tools) (host : Str) (m m1 : Machine)
        (pair : Bytes × Bytes)
        → forge_certificate tools ca host m ≡ ok (pair, ca1, m1)
        → Calls ca1 ca2
        → Calls ca ca2

  forge_certificate_caches :
      (ca : CertificationAuthority tools) (host : Str) (m : Machine) {pair : Bytes × Bytes}
      {ca' : CertificationAuthority tools} {m' : Machine}
      → forge_certificate tools ca host m ≡ ok (pair, ca', m')
      → lookup host ca'.cert_cache ≡ some pair
  unfolding forge_certificate forge_new
  forge_certificate_caches ca host m h = elim (Option-cases (lookup host ca.cert_cache)) [
    | inl new ↦ ground (
      arith,
      lookup-insert_self host (issue tools ca host m.now (tools.generate m.draws)) ca.cert_cache,
    )
    | inr (p, old) ↦ ground arith
  ]

  -- An entry stays whatever host the next call is for.
  forge_certificate_keeps :
      (ca : CertificationAuthority tools) (host other : Str) (m : Machine)
      {kept pair : Bytes × Bytes} {ca' : CertificationAuthority tools} {m' : Machine}
      → forge_certificate tools ca other m ≡ ok (pair, ca', m')
      → lookup host ca.cert_cache ≡ some kept
      → lookup host ca'.cert_cache ≡ some kept
  unfolding forge_certificate forge_new
  forge_certificate_keeps ca host other m h held =
      elim (Option-cases (lookup other ca.cert_cache)) [
        | inr (p, old) ↦ ground arith
        | inl new ↦ elim (Bool-cases (equal other host)) [
          | inl same ↦ cc (new, held, (equal_iff other host).0 same)
          | inr differ ↦ ground (
            arith,
            lookup-insert other host (issue tools ca other m.now (tools.generate m.draws))
                ca.cert_cache,
          )
        ]
      ]

  Calls-keeps :
      (host : Str) {kept : Bytes × Bytes} {ca ca' : CertificationAuthority tools}
      → Calls ca ca'
      → lookup host ca.cert_cache ≡ some kept
      → lookup host ca'.cert_cache ≡ some kept
  Calls-keeps host (no_more a) held = held
  Calls-keeps host (then_call a a1 a2 other m m1 pair call rest) held =
      Calls-keeps host rest (forge_certificate_keeps a host other m call held)

  -- After a certificate was made or found for a host, every later call for the host returns it again and changes
  -- nothing, whatever successful calls for any hosts came in between, and on whatever machine state.
  pub forge_certificate_again :
      (ca ca' ca'' : CertificationAuthority tools) (host : Str) (m m' later : Machine)
      (pair : Bytes × Bytes)
      → forge_certificate tools ca host m ≡ ok (pair, ca', m')
      → Calls ca' ca''
      → forge_certificate tools ca'' host later ≡ ok (pair, ca'', later)
  unfolding forge_certificate
  forge_certificate_again ca ca' ca'' host m m' later pair first between =
      rw (forge_certificate, Calls-keeps host between (forge_certificate_caches ca host m first))
        refl
