-- ===== src/Tests/Overlapping.antt =====
-- Runs of calls of `forge_certificate` that overlap.
use hexbuffer_proxy.Prelude.{◌≡◌, refl, [], ◌∷◌, List}
use hexbuffer_proxy.Text.{Bytes}
use hexbuffer_proxy.Dict.{lookup, insert}
use hexbuffer_proxy.Ca.Forge.{issue}
use hexbuffer_proxy.Ca.Threads.{
  Event, arrive, run, returned, call_step, run_call, happen, interleave, System,
}
use hexbuffer_proxy.Ca.Overlap.{SystemIsIssued, interleave-SystemIsIssued}
use hexbuffer_proxy.Tests.Instances.{tools}
use hexbuffer_proxy.Tests.Certifying.{authority, started, host, pair, nothing_cached}

-- Two calls for the same host that both look before either inserts.
abbrev events : List Event
events =
    arrive host ∷ arrive host ∷ run 0 ∷ run 1 ∷ run 0 ∷ run 1 ∷ run 0 ∷ run 1 ∷ run 0 ∷ run 1 ∷ []

abbrev second_pair : Bytes × Bytes
second_pair = (9 ∷ 7 ∷ host, 9 ∷ [])

abbrev behind : System tools authority
behind = (
  (host, second_pair) ∷ [],
  record started { draws = 10 },
  returned host pair ∷ returned host second_pair ∷ [],
)

-- Each call returns a pair of its own, and the cache keeps the one that was inserted last.
both_forged : interleave tools authority events ([], started, []) ≡ behind
unfolding interleave happen run_call call_step lookup insert issue
both_forged = refl

interleave-SystemIsIssued_example : SystemIsIssued tools authority behind
unfolding interleave happen run_call call_step lookup insert issue
interleave-SystemIsIssued_example =
    interleave-SystemIsIssued tools authority events ([], started, []) (nothing_cached, _)
