-- ===== src/Server/Certified.antt =====
-- The certificates of tunnels.
use hexbuffer_proxy.Prelude.{
  ◌≡◌, refl, sym, ap, ◌∙◌, Bool, true, false, Outcome, ok, err, panic, out_of_fuel, subst,
}
use hexbuffer_proxy.Text.{Bytes, Str, split_first}
use hexbuffer_proxy.Error.{Failure}
use hexbuffer_proxy.Http.{HttpCrate}
use hexbuffer_proxy.Handler.Types.{HttpHandler}
use hexbuffer_proxy.Ca.Tools.{CertTools, Machine}
use hexbuffer_proxy.Ca.Store.{CertificationAuthority}
use hexbuffer_proxy.Ca.Forge.{forge_certificate, Forged}
use hexbuffer_proxy.Ca.Cache.{CacheIsIssued, Forges, forge_certificate-Forges}
use hexbuffer_proxy.Wire.Syntax.{HttpSyntax}
use hexbuffer_proxy.Server.Conn.{write_all}
use hexbuffer_proxy.Server.Run.{State, Run, continue, on_client}
use hexbuffer_proxy.Server.Outside.{Outside, connect_to}
use hexbuffer_proxy.Server.Tunnel.{
  intercepted, established, ask_handler, with_certificate, open_tunnel, handle_https,
}

-- What a chain of calls that went well says of its parts.
pub continue-eq-ok :
    {W A B : Type 0} (o : Outcome Failure A × State W) (f : A → Run W B) {b : B} {st : State W}
    → continue o f ≡ (ok b, st)
    → (a : A) × (st' : State W) × (o ≡ (ok a, st')) × (f a st' ≡ (ok b, st))
continue-eq-ok (ok a, st') f h = (a, st', refl, h)
continue-eq-ok (err e, st') f h = cc
continue-eq-ok (panic, st') f h = cc
continue-eq-ok (out_of_fuel, st') f h = cc

module _ (http : HttpCrate) (syntax : HttpSyntax http) {W : Type 0} (outside : Outside http W)
    (handler : HttpHandler http W) (tools : CertTools) (ca : CertificationAuthority tools)
    (m : Machine) where
  -- A certificate that was forged for the host of a target.
  abbrev pub ForgedFor : Str → Str → Bytes × Bytes → CertificationAuthority tools → Machine → Type 0
  ForgedFor target host pair ca' m' =
      (host ≡ split_first b':' target)
      × (forge_certificate tools ca (split_first b':' target) m ≡ ok (pair, ca', m'))

  with_certificate-ForgedFor :
      (target host : Str) (o : Forged tools) (pair : Bytes × Bytes)
      (ca' : CertificationAuthority tools) (m' : Machine)
      → with_certificate http syntax outside handler (split_first b':' target) o
        ≡ ok (intercepted host pair, ca', m')
      → (host ≡ split_first b':' target) × (o ≡ ok (pair, ca', m'))
  with_certificate-ForgedFor target host (ok (pair', ca1, m1)) pair ca' m' h = (cc, cc)
  with_certificate-ForgedFor target host (err e) pair ca' m' h = cc
  with_certificate-ForgedFor target host panic pair ca' m' h = cc
  with_certificate-ForgedFor target host out_of_fuel pair ca' m' h = cc

  open_tunnel-ForgedFor :
      (target host : Str) (intercept : Bool) (st st' : State W) (pair : Bytes × Bytes)
      (ca' : CertificationAuthority tools) (m' : Machine)
      → open_tunnel http syntax outside handler tools ca m target intercept st
        ≡ (ok (intercepted host pair, ca', m'), st')
      → (intercept ≡ true) × ForgedFor target host pair ca' m'
  unfolding open_tunnel
  open_tunnel-ForgedFor target host false st st' pair ca' m' h =
      let (up, st1, _, ends) = continue-eq-ok (connect_to outside.connect target st) _ h in cc ends
  open_tunnel-ForgedFor target host true st st' pair ca' m' h = (
    refl,
    with_certificate-ForgedFor target host (forge_certificate tools ca (split_first b':' target) m)
        pair ca' m' (ap (λ x. x.0) h),
  )

  -- Where `handle_https` goes on with TLS for its client, the handler has agreed, and the certificate is the
  -- authority's own for the host of the target, without its port: `forge_certificate` has issued it or found it in its
  -- cache. The cache behind it holds only certificates for their hosts, if it did so before.
  pub handle_https-Forges :
      (target host : Str) (st st' : State W) (pair : Bytes × Bytes)
      (ca' : CertificationAuthority tools) (m' : Machine)
      → CacheIsIssued tools ca
      → handle_https http syntax outside handler tools ca m target st
        ≡ (ok (intercepted host pair, ca', m'), st')
      → (host ≡ split_first b':' target)
        × Forges tools ca m.now host pair ca'
        × ((handler.should_intercept_tls host st.world).0 ≡ true)
  unfolding handle_https
  handle_https-Forges target host st st' pair ca' m' inv h =
      let (_, st1, told, rest) = continue-eq-ok (on_client (write_all established) st) _ h in
      let (intercept, st2, asked, opened) =
        continue-eq-ok (ask_handler http syntax outside handler (split_first b':' target) st1)
          (open_tunnel http syntax outside handler tools ca m target) rest in
      let world : st.world ≡ st1.world = ap (λ x. x.1.world) told in
      let said : (handler.should_intercept_tls (split_first b':' target) st1.world).0 ≡ intercept =
        cc in
      let (agreed, (same, forged)) =
        open_tunnel-ForgedFor target host intercept st2 st' pair ca' m' opened in
      (
        same,
        subst (λ x. Forges tools ca m.now x pair ca') (sym same)
            (forge_certificate-Forges tools ca (split_first b':' target) m inv forged),
        rw (same, world) (said ∙ agreed),
      )
