-- ===== src/Ca/Cache.antt =====
-- What the authority keeps: its files and its cache of leaf certificates.
use hexbuffer_proxy.Prelude.{
  ℕ, ◌+◌, ◌-◌, ◌≤◌, ◌⊎◌, ◌≡◌, ◌≢◌, refl, sym, subst₂, ◌∙◌, true, false, ◌&&◌, [], ◌∷◌, some, arith,
  inl, inr, ok, panic, Bool-cases, Option-cases,
}
use hexbuffer_proxy.Text.{Bytes, Str, equal}
use hexbuffer_proxy.Text.Equal.{equal_iff, equal_self}
use hexbuffer_proxy.Dict.{lookup, insert, lookup-insert, lookup-insert_self}
use hexbuffer_proxy.Ca.Tools.{CertificateParams, CertTools, Machine}
use hexbuffer_proxy.Ca.Store.{
  CertificationAuthority, new_in, load_ca, make_ca, exists, build_ca_params, ca_pem, ca_key_pem,
}
use hexbuffer_proxy.Ca.Forge.{
  forge_certificate, forge_new, issue, leaf_params, cannot_forge, ttl_secs, not_before_offset_secs,
}

module _ (tools : CertTools) where
  load_ca_same :
      (dir : Str) (m : Machine) {ca : CertificationAuthority tools} {m' : Machine}
      → load_ca tools dir m ≡ ok (ca, m')
      → m' ≡ m
  unfolding load_ca
  load_ca_same dir m h = ground arith

  make_ca_file :
      (dir : Str) (m : Machine) {ca : CertificationAuthority tools} {m' : Machine}
      → make_ca tools dir m ≡ ok (ca, m')
      → (m'.file dir ca_pem ≡ some (some ca.ca_cert_pem))
        × (m'.file dir ca_key_pem ≡ some (some (tools.serialize_pem ca.ca_key)))
        × (ca.ca_params ≡ build_ca_params)
        × (ca.cert_cache ≡ [])
  unfolding make_ca
  make_ca_file dir m h =
      (ground (arith, equal_self dir), ground (arith, equal_self dir), ground arith, ground arith)

  load_ca_file :
      (dir : Str) (m : Machine) (ca : CertificationAuthority tools)
      → m.file dir ca_pem ≡ some (some ca.ca_cert_pem)
      → m.file dir ca_key_pem ≡ some (some (tools.serialize_pem ca.ca_key))
      → ca.ca_params ≡ build_ca_params
      → ca.cert_cache ≡ []
      → load_ca tools dir m ≡ ok (ca, m)
  unfolding load_ca
  load_ca_file dir m ca pem key params cache =
      ground (arith, tools.from_pem-serialize_pem ca.ca_key)

  -- A second start in the same folder, with the files that the first one left, makes the same
  -- authority: the same key and the same root certificate, an empty cache, and nothing is drawn or
  -- written. So it is after a first start that loaded the files and after one that made them.
  pub new_in_restart :
      (dir : Str) (m : Machine) {ca : CertificationAuthority tools} {m' : Machine}
      → new_in tools dir m ≡ ok (ca, m')
      → new_in tools dir m' ≡ ok (ca, m')
  unfolding new_in
  new_in_restart dir m {ca} {m'} h =
      elim (Bool-cases (exists (m.file dir ca_pem) && exists (m.file dir ca_key_pem))) [
        | inl found ↦
            let loaded : load_ca tools dir m ≡ ok (ca, m') = ground arith in
            let same = load_ca_same dir m loaded in rw same (rw same at h)
        | inr not_found ↦
            let made : make_ca tools dir m ≡ ok (ca, m') = ground arith in
            let (pem, key, params, cache) = make_ca_file dir m made in
            rw (pem, key) (load_ca_file dir m' ca pem key params cache)
      ]

  -- A pair of a leaf certificate for `host` and its key, signed by the authority at a moment `made`:
  -- it is no CA, names the host and nothing else, holds at that moment and for the lifetime.
  pub record IsIssued (ca_params : CertificateParams) (ca_key : tools.KeyPair) (host : Str)
      (pair : Bytes × Bytes) : Type 0 where
    pub params : CertificateParams
    pub draws : ℕ
    pub made : ℕ
    pub start : ℕ
    pub signed : pair ≡ (
      tools.signed_by params (tools.generate draws) ca_params ca_key,
      tools.serialize_der (tools.generate draws),
    )
    pub no_ca : params.is_ca ≡ false
    pub named : params.common_name ≡ host
    pub alternatives : params.subject_alt_names ≡ host ∷ []
    pub valid : params.validity ≡ some (start, start + ttl_secs)
    pub started : start + not_before_offset_secs ≡ made
    pub representable : start + ttl_secs ≤ tools.end_of_time
    pub dns_name : tools.is_dns_name host ≡ true

  -- Every pair in the cache was issued for its host.
  abbrev pub CacheIsIssued : CertificationAuthority tools → Type 0
  CacheIsIssued ca =
      (host : Str) (pair : Bytes × Bytes)
      → lookup host ca.cert_cache ≡ some pair
      → IsIssued ca.ca_params ca.ca_key host pair

  pub issue-IsIssued :
      (ca : CertificationAuthority tools) (host : Str) (now draws : ℕ)
      → cannot_forge tools host now ≡ false
      → IsIssued ca.ca_params ca.ca_key host (issue tools ca host now (tools.generate draws))
  unfolding issue
  issue-IsIssued ca host now draws h = record {
    params = leaf_params host now;
    draws = draws;
    made = now;
    start = now - not_before_offset_secs;
    signed = refl;
    no_ca = refl;
    named = refl;
    alternatives = refl;
    valid = refl;
    started = ground arith;
    representable = ground arith;
    dns_name = ground arith;
  }

  -- What a successful `forge_certificate` does to the authority.
  pub record Forges (ca : CertificationAuthority tools) (now : ℕ) (host : Str)
      (pair : Bytes × Bytes) (ca' : CertificationAuthority tools) : Type 0 where
    pub same_params : ca'.ca_params ≡ ca.ca_params
    pub same_key : ca'.ca_key ≡ ca.ca_key
    pub same_pem : ca'.ca_cert_pem ≡ ca.ca_cert_pem
    pub issued : IsIssued ca'.ca_params ca'.ca_key host pair
    pub found_or_made : (lookup host ca.cert_cache ≡ some pair) ⊎ (issued.made ≡ now)
    pub cached : lookup host ca'.cert_cache ≡ some pair
    pub others :
        (other : Str) → host ≢ other → lookup other ca'.cert_cache ≡ lookup other ca.cert_cache
    pub all_issued : CacheIsIssued ca'

  pub cache_issued :
      (ca : CertificationAuthority tools) (host : Str) (pair : Bytes × Bytes)
      → CacheIsIssued ca
      → IsIssued ca.ca_params ca.ca_key host pair
      → CacheIsIssued (record ca { cert_cache = insert host pair ca.cert_cache })
  cache_issued ca host pair inv new other p h = elim (Bool-cases (equal host other)) [
    | inl same ↦
        let here : p ≡ pair = ground (arith, lookup-insert host other pair ca.cert_cache) in
        subst₂ (IsIssued ca.ca_params ca.ca_key) ((equal_iff host other).0 same) (sym here) new
    | inr differ ↦ inv other p (ground (arith, lookup-insert host other pair ca.cert_cache))
  ]

  forge_new-Forges :
      (ca : CertificationAuthority tools) (host : Str) (m : Machine)
      → CacheIsIssued ca
      → cannot_forge tools host m.now ≡ false
      → let pair = issue tools ca host m.now (tools.generate m.draws) in
        Forges ca m.now host pair (record ca { cert_cache = insert host pair ca.cert_cache })
  unfolding issue-IsIssued
  forge_new-Forges ca host m inv can =
      let pair = issue tools ca host m.now (tools.generate m.draws) in
      let new = issue-IsIssued ca host m.now m.draws can in
      record {
        same_params = refl;
        same_key = refl;
        same_pem = refl;
        issued = new;
        found_or_made = inr refl;
        cached = lookup-insert_self host pair ca.cert_cache;
        others = λ other ne.
            ground (arith, lookup-insert host other pair ca.cert_cache, equal_iff host other);
        all_issued = cache_issued ca host pair inv new;
      }

  -- A successful `forge_certificate` returns a pair that the authority's own key issued for the host:
  -- valid from five minutes before it was made for 365 days, for this host alone. It was in the cache before the
  -- call, or it was made at the moment of the call. The pair is in the cache behind it, the entries of other hosts
  -- stay, and so does the property that every entry of the cache was issued for its host, from which the call starts.
  pub forge_certificate-Forges :
      (ca : CertificationAuthority tools) (host : Str) (m : Machine) {pair : Bytes × Bytes}
      {ca' : CertificationAuthority tools} {m' : Machine}
      → CacheIsIssued ca
      → forge_certificate tools ca host m ≡ ok (pair, ca', m')
      → Forges ca m.now host pair ca'
  unfolding forge_certificate forge_new
  forge_certificate-Forges ca host m {pair} {ca'} {m'} inv h =
      elim (Option-cases (lookup host ca.cert_cache)) [
        | inr (p, old) ↦
            let same_pair : p ≡ pair = ground arith in
            let same_ca : ca ≡ ca' = ground arith in
            subst₂ (Forges ca m.now host) same_pair same_ca (record {
              same_params = refl;
              same_key = refl;
              same_pem = refl;
              issued = inv host p old;
              found_or_made = inl old;
              cached = old;
              others = λ other ne. refl;
              all_issued = inv;
            })
        | inl missing ↦ elim (Bool-cases (cannot_forge tools host m.now)) [
          | inl cannot ↦
              let fails : forge_certificate tools ca host m ≡ panic = ground arith in
              cc (sym h ∙ fails)
          | inr can ↦
              let same_pair : issue tools ca host m.now (tools.generate m.draws) ≡ pair =
                ground arith in
              let same_ca : record ca {
                cert_cache =
                    insert host (issue tools ca host m.now (tools.generate m.draws)) ca.cert_cache;
              }
                  ≡ ca' =
                ground arith in
              subst₂ (Forges ca m.now host) same_pair same_ca (forge_new-Forges ca host m inv can)
        ]
      ]
