-- ===== src/Llm/Breaker/Cycle.antt =====
-- The cycle CLOSED, OPEN, HALF_OPEN, CLOSED of `CircuitBreaker`.
use jetedge_agent.Prelude.{
  ℕ, suc, ◌+◌, ◌-◌, ◌≤◌, ◌<◌, ◌≡◌, refl, List, [], ◌∷◌, arith, min, All, if◌then◌else◌, length,
  ◌==◌,
}
use jetedge_agent.Llm.Breaker.{
  closed, opened, half_open, Config, Breaker, elapsed_sec, allow_request, record_success,
  record_failure,
}

-- The answers to a row of `allow_request` calls: how many of them were let through.
pub admit_all : Config → Breaker → List ℕ → ℕ × Breaker
admit_all c b [] = (0, b)
admit_all c b (now ∷ ts) =
    let (b', admitted) = allow_request c now b in
    let (n, last) = admit_all c b' ts in (if admitted then suc n else n, last)

pub fail_all : Config → Breaker → List ℕ → Breaker
fail_all c b [] = b
fail_all c b (now ∷ ts) = fail_all c (record_failure c now b) ts

-- One worker that sends a probe at each time and sees it succeed.
pub probe_all : Config → Breaker → List ℕ → ℕ × Breaker
probe_all c b [] = (0, b)
probe_all c b (now ∷ ts) =
    let (b', admitted) = allow_request c now b in
    let (n, last) = probe_all c (if admitted then record_success c b' else b') ts in
    (if admitted then suc n else n, last)

-- While OPEN and before the timeout, every request is refused and nothing changes.
pub admit_all_opened :
    (c : Config) (b : Breaker) (ts : List ℕ)
    → b.state ≡ opened
    → All (λ now. elapsed_sec now b < c.reset_timeout_sec) ts
    → admit_all c b ts ≡ (0, b)
unfolding admit_all allow_request
admit_all_opened c b [] e h = refl
admit_all_opened c b (now ∷ ts) e h = ground (arith, admit_all_opened c b ts e h.1)

-- In HALF_OPEN, of a row of requests with no outcome recorded in between exactly as many are let
-- through as the probe budget has left, and the breaker stays in HALF_OPEN; once the budget is
-- used up it refuses every further request, at any time.
pub admit_all_half_open :
    (c : Config) (b : Breaker) (ts : List ℕ)
    → b.state ≡ half_open
    → ((admit_all c b ts).0 ≡ min (length ts) (c.half_open_success_threshold - b.half_open_used))
      × ((admit_all c b ts).1.state ≡ half_open)
unfolding admit_all allow_request
admit_all_half_open c b [] e = ground arith
admit_all_half_open c b (now ∷ ts) e = ground (
  arith,
  admit_all_half_open c b ts e,
  admit_all_half_open c (record b { half_open_used = b.half_open_used + 1 }) ts e,
)

-- From CLOSED and below the threshold, a row of failures that takes the count to at most the
-- threshold opens the breaker, with the count back at 0, if it takes it to the threshold exactly;
-- otherwise the breaker stays CLOSED and the count has gone up by their number.
pub fail_all_closed :
    (c : Config) (b : Breaker) (ts : List ℕ)
    → b.state ≡ closed
    → b.failures < c.failure_threshold
    → b.failures + length ts ≤ c.failure_threshold
    → let b' = fail_all c b ts in
      let tripped = (b.failures + length ts) == c.failure_threshold in
      (b'.state ≡ (if tripped then opened else closed))
      × (b'.failures ≡ (if tripped then 0 else b.failures + length ts))
unfolding fail_all record_failure
fail_all_closed c b [] e h k = ground arith
fail_all_closed c b (now ∷ []) e h k = ground arith
fail_all_closed c b (now ∷ t ∷ ts) e h k =
    ground (arith, fail_all_closed c (record b { failures = b.failures + 1 }) (t ∷ ts))

-- Probes that succeed: the last one that the threshold asks for closes the breaker.
probe_all_half_open :
    (c : Config) (b : Breaker) (ts : List ℕ)
    → b.state ≡ half_open
    → b.half_open_used ≡ b.successes
    → b.successes + length ts ≡ c.half_open_success_threshold
    → 1 ≤ length ts
    → ((probe_all c b ts).0 ≡ length ts)
      × ((probe_all c b ts).1.state ≡ closed)
      × ((probe_all c b ts).1.failures ≡ 0)
unfolding probe_all allow_request record_success
probe_all_half_open c b [] e u k n = absurd (omega arith)
probe_all_half_open c b (now ∷ []) e u k n = ground arith
probe_all_half_open c b (now ∷ t ∷ ts) e u k n = ground (
  arith,
  probe_all_half_open c
      (record b { half_open_used = b.half_open_used + 1; successes = b.successes + 1 }) (t ∷ ts),
)

-- Recovery: from OPEN, once the timeout has passed, a worker whose probes succeed has every one of
-- `half_open_success_threshold` requests let through, and then the breaker is CLOSED with the
-- failure count at 0.
pub probe_all_opened :
    (c : Config) (b : Breaker) (now : ℕ) (ts : List ℕ)
    → b.state ≡ opened
    → c.reset_timeout_sec ≤ elapsed_sec now b
    → suc (length ts) ≡ c.half_open_success_threshold
    → let (admitted, b') = probe_all c b (now ∷ ts) in
      (admitted ≡ c.half_open_success_threshold) × (b'.state ≡ closed) × (b'.failures ≡ 0)
unfolding probe_all allow_request record_success
probe_all_opened c b now [] e h k = ground arith
probe_all_opened c b now (t ∷ ts) e h k = ground (
  arith,
  probe_all_half_open c (record b { state = half_open; half_open_used = 1; successes = 1 })
      (t ∷ ts),
)
