-- ===== src/Pipeline/Reconnect/Backoff.antt =====
-- The exponential backoff, where the shift is exact and where it is not.
use native.Mathlib.Nat.{pow-le-pow_right, mod-eq_of_lt, one-le-pow, mul-le-mul}
use jetedge_agent.Prelude.{ℕ, ◌-◌, ◌*◌, ◌%◌, ◌^◌, ◌≤◌, ◌<◌, ◌≡◌, arith, min}
use jetedge_agent.Prelude.Int.{pos}
use jetedge_agent.Prelude.Words.{u64_mod}
use jetedge_agent.Pipeline.Reconnect.{reconnecting, Policy, shift_left, backoff_ms}
use jetedge_agent.Pipeline.Reconnect.Failures.{IsBudgeted}

shift_left-exact :
    (base shift : ℕ) → base * 2 ^ shift < 2 ^ 63 → shift_left base shift ≡ pos (base * 2 ^ shift)
unfolding shift_left
shift_left-exact base shift h = ground (arith, mod-eq_of_lt {n = base * 2 ^ shift} {m = u64_mod})

-- As long as the doubled base stays below 2^63 the wait is the base doubled once for each failure
-- after the first, and at most the cap.
pub backoff_ms-exact :
    (p : Policy)
    → p.state ≡ reconnecting
    → 1 ≤ p.failures
    → p.failures ≤ 61
    → p.backoff_base_ms * 2 ^ (p.failures - 1) < 2 ^ 63
    → backoff_ms p ≡ pos (min (p.backoff_base_ms * 2 ^ (p.failures - 1)) p.backoff_max_ms)
unfolding backoff_ms
backoff_ms-exact p e h k l = ground (arith, shift_left-exact p.backoff_base_ms (p.failures - 1) l)

small_shift :
    (base n : ℕ) → base ≤ 60_000 → n ≤ 19 → (base * 2 ^ n < 2 ^ 63) × (base ≤ base * 2 ^ n)
small_shift base n h k =
    let top : 2 ^ n ≤ 2 ^ 19 = pow-le-pow_right {n = 2} (omega arith) k in
    let bottom : 1 ≤ 2 ^ n = one-le-pow n 2 (omega arith) in
    let upper : base * 2 ^ n ≤ 60_000 * 2 ^ 19 = mul-le-mul h top in (omega arith, grind arith)

-- Under the limits of the config loader (a base of at most 60000 ms, at most 20 failures) a valid
-- policy that waits to reconnect waits at least the base and at most the cap.
pub backoff_ms_bounds :
    (p : Policy)
    → IsBudgeted p
    → p.state ≡ reconnecting
    → p.backoff_base_ms ≤ 60_000
    → p.max_consecutive_failures ≤ 20
    → (n : ℕ) × (backoff_ms p ≡ pos n) × (p.backoff_base_ms ≤ n) × (n ≤ p.backoff_max_ms)
backoff_ms_bounds p v e h k =
    let budget : (1 ≤ p.failures) × (p.failures ≤ p.max_consecutive_failures) =
      ground (arith, v.counters) in
    let fits = small_shift p.backoff_base_ms (p.failures - 1) h (omega arith) in
    (
      min (p.backoff_base_ms * 2 ^ (p.failures - 1)) p.backoff_max_ms,
      backoff_ms-exact p e budget.0 (omega arith) fits.0,
      omega (arith, fits.1, v.cap),
      omega arith,
    )

shift_left-zero : (base k : ℕ) → base ≡ 16 * k → shift_left base 60 ≡ pos 0
unfolding shift_left
shift_left-zero base k h = let low : base * 2 ^ 60 % u64_mod ≡ 0 = omega arith in rw low

-- Beyond those limits the clamp of the shift to 60 does not stop the overflow: with a base that is a
-- multiple of 16 and more than 60 failures the wait comes out as 0, not as the cap.
pub backoff_ms_overflow :
    (p : Policy) (k : ℕ)
    → p.state ≡ reconnecting
    → p.backoff_base_ms ≡ 16 * k
    → 61 ≤ p.failures
    → backoff_ms p ≡ pos 0
unfolding backoff_ms
backoff_ms_overflow p k e h l = ground (arith, shift_left-zero p.backoff_base_ms k h)
