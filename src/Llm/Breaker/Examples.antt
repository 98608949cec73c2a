-- ===== src/Llm/Breaker/Examples.antt =====
-- Runs of the breaker at small thresholds.
use jetedge_agent.Prelude.{ℕ, ◌≡◌, refl, [], ◌∷◌, arith}
use jetedge_agent.Llm.Breaker.{
  closed, opened, half_open, Config, Breaker, init, allow_request, record_failure,
}
use jetedge_agent.Llm.Breaker.Invariant.{allows, fails, run}
use jetedge_agent.Llm.Breaker.Cycle.{admit_all, probe_all, admit_all_half_open, probe_all_opened}

abbrev config : Config
config = record { failure_threshold = 2; reset_timeout_sec = 30; half_open_success_threshold = 2 }

abbrev tripped : Breaker
tripped = record { state = opened; failures = 0; successes = 0; half_open_used = 0; opened_at = 7 }

abbrev probing : Breaker
probing = record tripped { state = half_open; half_open_used = 1 }

abbrev seconds_31 : ℕ
seconds_31 = 31_000_000_000

two_failures_trip : run config init (allows 1 ∷ fails 5 ∷ allows 6 ∷ fails 7 ∷ []) ≡ tripped
unfolding run init allow_request record_failure
two_failures_trip = refl

admit_all_half_open_example :
    ((admit_all config probing (8 ∷ 9 ∷ 10 ∷ [])).0 ≡ 1)
    × ((admit_all config probing (8 ∷ 9 ∷ 10 ∷ [])).1.state ≡ half_open)
admit_all_half_open_example = admit_all_half_open config probing (8 ∷ 9 ∷ 10 ∷ []) refl

probe_all_opened_example :
    let (admitted, b) = probe_all config tripped (seconds_31 ∷ 31_000_000_001 ∷ []) in
    (admitted ≡ 2) × (b.state ≡ closed) × (b.failures ≡ 0)
probe_all_opened_example =
    probe_all_opened config tripped seconds_31 (31_000_000_001 ∷ []) refl (omega arith) refl
