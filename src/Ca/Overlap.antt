-- ===== src/Ca/Overlap.antt =====
-- What calls of `forge_certificate` that overlap return.
use hexbuffer_proxy.Prelude.{
  ℕ, zero, suc, ◌≡◌, refl, false, List, [], ◌∷◌, Option, some, none, ok, panic, All, All-append,
  arith, inl, inr, Bool-cases, Option-cases,
}
use hexbuffer_proxy.Text.{Bytes, Str}
use hexbuffer_proxy.Dict.{lookup, insert}
use hexbuffer_proxy.Ca.Tools.{CertTools, Machine}
use hexbuffer_proxy.Ca.Store.{CertificationAuthority, draw}
use hexbuffer_proxy.Ca.Forge.{cannot_forge, issue, forge_new, forge_certificate}
use hexbuffer_proxy.Ca.Cache.{IsIssued, CacheIsIssued, issue-IsIssued, cache_issued}
use hexbuffer_proxy.Ca.Threads.{
  CertCache, Phase, looking, missed, dated, inserting, returned, panicked, looked, Event, arrive,
  run, wait, call_step, System, run_call, happen, interleave, four_steps, result,
}

module _ (tools : CertTools) (ca : CertificationAuthority tools) where
  -- A call that nothing interrupts ends, and with the result of `forge_certificate` in one step: the
  -- same pair, cache and machine, or a panic.
  four_steps-forge_certificate :
      (host : Str) (cache : CertCache) (m : Machine)
      → result tools ca (four_steps tools ca host cache m)
        ≡ some (forge_certificate tools (record ca { cert_cache = cache }) host m)
  unfolding call_step forge_certificate forge_new issue
  four_steps-forge_certificate host cache m =
      let atomic = record ca { cert_cache = cache } in
      elim (Option-cases (lookup host cache)) [
        | inl new ↦ elim (Bool-cases (cannot_forge tools host m.now)) [
          | inl cannot ↦
              let fails : forge_certificate tools atomic host m ≡ panic = ground arith in
              rw (new, cannot, fails) refl
          | inr can ↦
              let (leaf, m') = draw tools m in
              let pair = issue tools ca host m.now leaf in
              let forged : forge_certificate tools atomic host m
                  ≡ ok (pair, record ca { cert_cache = insert host pair cache }, m') =
                ground arith in
              rw (new, can, forged) refl
        ]
        | inr (pair, old) ↦
            let found : forge_certificate tools atomic host m ≡ ok (pair, atomic, m) =
              ground arith in
            rw (old, found) refl
      ]

  -- What a call holds: a pair that it inserts or returns was issued for its host.
  abbrev pub Holds : Phase → Type 0
  Holds (looking host) = Unit
  Holds (missed host) = Unit
  Holds (dated host now) = cannot_forge tools host now ≡ false
  Holds (inserting host pair) = IsIssued tools ca.ca_params ca.ca_key host pair
  Holds (returned host pair) = IsIssued tools ca.ca_params ca.ca_key host pair
  Holds (panicked host) = Unit

  -- Every pair in the shared cache, and every pair that a call inserts or returns, was issued by the authority
  -- for its host.
  abbrev pub SystemIsIssued : System tools ca → Type 0
  SystemIsIssued (cache, m, ps) =
      CacheIsIssued tools (record ca { cert_cache = cache }) × All Holds ps

  looked-Holds :
      (host : Str) (cache : CertCache) (o : Option (Bytes × Bytes))
      → lookup host cache ≡ o
      → CacheIsIssued tools (record ca { cert_cache = cache })
      → Holds (looked host o)
  looked-Holds host cache none h inv = _
  looked-Holds host cache (some pair) h inv = inv host pair h

  call_step-Holds :
      (cache : CertCache) (m : Machine) (p : Phase)
      → CacheIsIssued tools (record ca { cert_cache = cache })
      → Holds p
      → let (cache', m', p') = call_step tools ca cache m p in
        CacheIsIssued tools (record ca { cert_cache = cache' }) × Holds p'
  unfolding call_step
  call_step-Holds cache m (looking host) inv h =
      (inv, looked-Holds host cache (lookup host cache) refl inv)
  call_step-Holds cache m (missed host) inv h = (
    inv,
    elim (Bool-cases (cannot_forge tools host m.now)) [
      | inl cannot ↦ rw cannot _
      | inr can ↦ rw can can
    ],
  )
  call_step-Holds cache m (dated host now) inv h = (inv, issue-IsIssued tools ca host now m.draws h)
  call_step-Holds cache m (inserting host pair) inv h =
      (cache_issued tools (record ca { cert_cache = cache }) host pair inv h, h)
  call_step-Holds cache m (returned host pair) inv h = (inv, h)
  call_step-Holds cache m (panicked host) inv h = (inv, h)

  run_call-SystemIsIssued :
      (cache : CertCache) (m : Machine) (i : ℕ) (ps : List Phase)
      → SystemIsIssued (cache, m, ps)
      → SystemIsIssued (run_call tools ca cache m i ps)
  unfolding run_call
  run_call-SystemIsIssued cache m i [] inv = inv
  run_call-SystemIsIssued cache m zero (p ∷ ps) (inv, (h, hs)) =
      let (inv', h') = call_step-Holds cache m p inv h in (inv', (h', hs))
  run_call-SystemIsIssued cache m (suc i) (p ∷ ps) (inv, (h, hs)) =
      let (inv', hs') = run_call-SystemIsIssued cache m i ps (inv, hs) in (inv', (h, hs'))

  happen-SystemIsIssued :
      (e : Event) (s : System tools ca) → SystemIsIssued s → SystemIsIssued (happen tools ca e s)
  unfolding happen
  happen-SystemIsIssued (arrive host) (cache, m, ps) (inv, hs) =
      (inv, All-append Holds ps (looking host ∷ []) hs (_, _))
  happen-SystemIsIssued (run i) (cache, m, ps) inv = run_call-SystemIsIssued cache m i ps inv
  happen-SystemIsIssued (wait seconds) (cache, m, ps) inv = inv

  -- However calls of `forge_certificate` for any hosts overlap, and however late each of their steps comes,
  -- every pair that one of them returns was issued by the authority for the host it was called with, and so was every
  -- pair in the cache, if that is so at the start.
  pub interleave-SystemIsIssued :
      (es : List Event) (s : System tools ca)
      → SystemIsIssued s
      → SystemIsIssued (interleave tools ca es s)
  unfolding interleave
  interleave-SystemIsIssued [] s inv = inv
  interleave-SystemIsIssued (e ∷ es) s inv =
      interleave-SystemIsIssued es (happen tools ca e s) (happen-SystemIsIssued e s inv)
