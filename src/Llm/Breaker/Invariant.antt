-- ===== src/Llm/Breaker/Invariant.antt =====
-- The counters of `CircuitBreaker` stay within their thresholds.
use jetedge_agent.Prelude.{ℕ, ◌≤◌, ◌<◌, ◌≡◌, List, [], ◌∷◌, arith}
use jetedge_agent.Llm.Breaker.{
  CircuitState, half_open, Config, Breaker, init, allow_request, record_success, record_failure,
}

-- What one of the threads may call, with the clock at that moment.
pub data Call : Type 0 where
  allows : ℕ → Call
  succeeds : Call
  fails : ℕ → Call

pub step : Config → Breaker → Call → Breaker
step c b (allows now) = (allow_request c now b).0
step c b succeeds = record_success c b
step c b (fails now) = record_failure c now b

unfoldable pub run : Config → Breaker → List Call → Breaker
unfolding step
run c b [] = b
run c b (x ∷ xs) = run c (step c b x) xs

abbrev pub ProbesFit : Config → CircuitState → Breaker → Type 0
ProbesFit c half_open b =
    (1 ≤ b.half_open_used)
    × (b.half_open_used ≤ c.half_open_success_threshold)
    × (b.successes < c.half_open_success_threshold)
ProbesFit c _ b = (b.half_open_used ≡ 0) × (b.successes ≡ 0)

pub record IsValid (c : Config) (b : Breaker) : Type 0 where
  pub failures_below : b.failures < c.failure_threshold
  pub probes : ProbesFit c b.state b

pub record IsPositive (c : Config) : Type 0 where
  pub failure : 1 ≤ c.failure_threshold
  pub success : 1 ≤ c.half_open_success_threshold

pub init-IsValid : (c : Config) → IsPositive c → IsValid c init
unfolding init
init-IsValid c p = ground arith

step-IsValid :
    (c : Config) (b : Breaker) (x : Call) → IsPositive c → IsValid c b → IsValid c (step c b x)
unfolding step allow_request record_success record_failure
step-IsValid c b (allows now) p v = ground arith
step-IsValid c b succeeds p v = ground arith
step-IsValid c b (fails now) p v = ground arith

pub allow_request-IsValid :
    (c : Config) (now : ℕ) (b : Breaker)
    → IsPositive c
    → IsValid c b
    → IsValid c (allow_request c now b).0
unfolding step
allow_request-IsValid c now b p v = step-IsValid c b (allows now) p v

pub record_success-IsValid :
    (c : Config) (b : Breaker) → IsPositive c → IsValid c b → IsValid c (record_success c b)
unfolding step
record_success-IsValid c b p v = step-IsValid c b succeeds p v

pub record_failure-IsValid :
    (c : Config) (now : ℕ) (b : Breaker)
    → IsPositive c
    → IsValid c b
    → IsValid c (record_failure c now b)
unfolding step
record_failure-IsValid c now b p v = step-IsValid c b (fails now) p v

run-IsValid :
    (c : Config) (b : Breaker) (xs : List Call)
    → IsPositive c
    → IsValid c b
    → IsValid c (run c b xs)
unfolding run
run-IsValid c b [] p v = v
run-IsValid c b (x ∷ xs) p v = run-IsValid c (step c b x) xs p (step-IsValid c b x p v)

-- With thresholds of at least 1, after any interleaving of `allow_request`, `record_success` and
-- `record_failure` calls at any times, the failure counter is below its threshold; in HALF_OPEN
-- between 1 and `half_open_success_threshold` probes are used and the successes are below that
-- threshold; in the other two states both half-open counters are 0.
pub run-init-IsValid : (c : Config) (xs : List Call) → IsPositive c → IsValid c (run c init xs)
run-init-IsValid c xs p = run-IsValid c init xs p (init-IsValid c p)
