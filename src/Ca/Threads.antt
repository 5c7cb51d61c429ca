-- ===== src/Ca/Threads.antt =====
-- src/ca.rs: calls of `forge_certificate` that overlap. The authority is shared, and the lock on its cache is
-- held for one look or one insertion at a time.
use hexbuffer_proxy.Prelude.{
  ℕ, zero, suc, ◌+◌, List, [], ◌∷◌, ◌++◌, Option, some, none, if◌then◌else◌, ok, panic,
}
use hexbuffer_proxy.Text.{Bytes, Str}
use hexbuffer_proxy.Dict.{lookup, insert}
use hexbuffer_proxy.Ca.Tools.{CertTools, Machine}
use hexbuffer_proxy.Ca.Store.{CertificationAuthority, draw}
use hexbuffer_proxy.Ca.Forge.{cannot_forge, issue, Forged}

abbrev pub CertCache : Type 0
CertCache = List (Str × (Bytes × Bytes))

-- Where a call stands: before its look into the cache, behind a miss, with the time it has read, with a
-- pair to insert, or at its end.
pub data Phase : Type 0 where
  looking : Str → Phase
  missed : Str → Phase
  dated : Str → ℕ → Phase
  inserting : Str → Bytes × Bytes → Phase
  returned : Str → Bytes × Bytes → Phase
  panicked : Str → Phase

abbrev pub looked : Str → Option (Bytes × Bytes) → Phase
looked host none = missed host
looked host (some pair) = returned host pair

-- What can happen: a call begins, the call of an index goes on by one step, or time passes.
pub data Event : Type 0 where
  arrive : Str → Event
  run : ℕ → Event
  wait : ℕ → Event

module _ (tools : CertTools) (ca : CertificationAuthority tools) where
  -- One step of a call.
  unfoldable pub call_step : CertCache → Machine → Phase → CertCache × Machine × Phase
  call_step cache m (looking host) = (cache, m, looked host (lookup host cache))
  call_step cache m (missed host) =
      (cache, m, if cannot_forge tools host m.now then panicked host else dated host m.now)
  call_step cache m (dated host now) =
      let (leaf, m') = draw tools m in (cache, m', inserting host (issue tools ca host now leaf))
  call_step cache m (inserting host pair) = (insert host pair cache, m, returned host pair)
  call_step cache m (returned host pair) = (cache, m, returned host pair)
  call_step cache m (panicked host) = (cache, m, panicked host)

  abbrev pub System : Type 0
  System = CertCache × Machine × List Phase

  unfoldable pub run_call : CertCache → Machine → ℕ → List Phase → System
  run_call cache m i [] = (cache, m, [])
  run_call cache m zero (p ∷ ps) =
      let (cache', m', p') = call_step cache m p in (cache', m', p' ∷ ps)
  run_call cache m (suc i) (p ∷ ps) =
      let (cache', m', ps') = run_call cache m i ps in (cache', m', p ∷ ps')

  unfoldable pub happen : Event → System → System
  happen (arrive host) (cache, m, ps) = (cache, m, ps ++ looking host ∷ [])
  happen (run i) (cache, m, ps) = run_call cache m i ps
  happen (wait seconds) (cache, m, ps) = (cache, record m { now = m.now + seconds }, ps)

  -- Events in their order.
  unfoldable pub interleave : List Event → System → System
  interleave [] s = s
  interleave (e ∷ es) s = interleave es (happen e s)

  -- A call from its first step to its last, with nothing in between.
  abbrev pub four_steps : Str → CertCache → Machine → CertCache × Machine × Phase
  four_steps host cache m =
      let (cache1, m1, p1) = call_step cache m (looking host) in
      let (cache2, m2, p2) = call_step cache1 m1 p1 in
      let (cache3, m3, p3) = call_step cache2 m2 p2 in call_step cache3 m3 p3

  -- The result of a call that has ended; one that has not is none.
  abbrev pub result : CertCache × Machine × Phase → Option (Forged tools)
  result (cache, m, returned host pair) = some (ok (pair, record ca { cert_cache = cache }, m))
  result (cache, m, panicked host) = some panic
  result (cache, m, looking host) = none
  result (cache, m, missed host) = none
  result (cache, m, dated host now) = none
  result (cache, m, inserting host pair) = none
