-- ===== src/Pipeline/Reconnect/Examples.antt =====
-- A policy with the default parameters.
use jetedge_agent.Prelude.{◌≡◌, refl, List, [], ◌∷◌, none, some, arith}
use jetedge_agent.Prelude.Int.{pos, negsuc}
use jetedge_agent.Pipeline.Reconnect.{reconnecting, failed, Policy, init, backoff_ms}
use jetedge_agent.Pipeline.Reconnect.Failures.{
  Call, connects, runs, degrades, fails, run, IsBudgeted, fail_all, fail_all_lem,
}
use jetedge_agent.Pipeline.Reconnect.Backoff.{backoff_ms-exact, backoff_ms_overflow}

abbrev waiting : Policy
waiting = record {
  backoff_base_ms = 1600;
  backoff_max_ms = 15000;
  max_consecutive_failures = 5;
  state = reconnecting;
  failures = 3;
  attempts = 4;
  total_reconnects = 9;
  reason = "stall";
}

waiting-IsBudgeted : IsBudgeted waiting
waiting-IsBudgeted = omega arith

-- Parameters out of range are raised, and six failures are one too many for five.
abbrev history : List Call
history = connects ∷ runs ∷ degrades ∷ fails none ∷ connects ∷ fails (some "refused") ∷ []

run-history :
    (run
      (init (record {
        backoff_base_ms = negsuc 4;
        backoff_max_ms = pos 50;
        max_consecutive_failures = pos 1;
      }))
      history).state
    ≡ failed
unfolding run init
run-history = refl

fail_all_lem_example :
    let p = fail_all (none ∷ none ∷ none ∷ []) waiting in
    (p.failures ≡ 6) × (p.state ≡ failed) × (p.total_reconnects ≡ 11)
fail_all_lem_example = fail_all_lem (none ∷ none ∷ []) none waiting (omega arith)

backoff_ms-exact_example : backoff_ms waiting ≡ pos 6400
backoff_ms-exact_example = backoff_ms-exact waiting refl (omega arith) (omega arith) (omega arith)

backoff_ms_overflow_example : backoff_ms (record waiting { failures = 61 }) ≡ pos 0
backoff_ms_overflow_example =
    backoff_ms_overflow (record waiting { failures = 61 }) 100 refl refl (omega arith)
