-- ===== src/Pipeline/Reconnect/Failures.antt =====
-- The failure budget of `ReconnectPolicy`, and what holds after any history of its calls.
use Prim.Native.String.{String}
use jetedge_agent.Prelude.{
  refl, false, ℕ, ◌∙◌, suc, ◌+◌, ◌≤◌, ◌<◌, ◌≡◌, List, [], ◌∷◌, Option, arith, length, ltb,
  if◌then◌else◌,
}
use jetedge_agent.Pipeline.Reconnect.{
  pos_part, pos, ltb_ℤ, StreamState, offline, connecting, running, degraded, reconnecting, failed,
  Params, Policy, init, mark_connect, mark_running, mark_degraded, mark_failure,
}

pub data Call : Type 0 where
  connects runs degrades : Call
  fails : Option String → Call

pub step : Policy → Call → Policy
step p connects = mark_connect p
step p runs = mark_running p
step p degrades = mark_degraded p
step p (fails reason) = mark_failure reason p

unfoldable pub run : Policy → List Call → Policy
unfolding step mark_connect mark_running mark_degraded mark_failure
run p [] = p
run p (c ∷ cs) = run (step p c) cs

abbrev pub CountersFit : StreamState → Policy → Type 0
CountersFit offline p = (p.failures ≡ 0) × (p.attempts ≡ 0)
CountersFit running p = (p.failures ≡ 0) × (p.attempts ≡ 0)
CountersFit degraded p = (p.failures ≡ 0) × (p.attempts ≡ 0)
CountersFit connecting p = 1 ≤ p.attempts
CountersFit reconnecting p = (1 ≤ p.failures) × (p.failures ≤ p.max_consecutive_failures)
CountersFit failed p = p.max_consecutive_failures < p.failures

pub record IsBudgeted (p : Policy) : Type 0 where
  pub base : 100 ≤ p.backoff_base_ms
  pub cap : p.backoff_base_ms ≤ p.backoff_max_ms
  pub budget : 1 ≤ p.max_consecutive_failures
  pub counters : CountersFit p.state p

init-IsBudgeted : (q : Params) → IsBudgeted (init q)
unfolding init
init-IsBudgeted q = ground arith

step-IsBudgeted : (p : Policy) (c : Call) → IsBudgeted p → IsBudgeted (step p c)
unfolding step mark_connect mark_running mark_degraded mark_failure
step-IsBudgeted p connects v = ground arith
step-IsBudgeted p runs v = ground arith
step-IsBudgeted p degrades v = ground arith
step-IsBudgeted p (fails reason) v = ground arith

run-IsBudgeted : (p : Policy) (cs : List Call) → IsBudgeted p → IsBudgeted (run p cs)
unfolding run
run-IsBudgeted p [] v = v
run-IsBudgeted p (c ∷ cs) v = run-IsBudgeted (step p c) cs (step-IsBudgeted p c v)

-- Whatever parameters are given, and after any history of calls: the base is at least 100 ms and at
-- most the cap; while OFFLINE, RUNNING or DEGRADED no failure and no attempt is on record; a
-- CONNECTING stream has made an attempt; a stream that waits to reconnect has between 1 and
-- `max_consecutive_failures` failures, and a FAILED one has more.
pub run-init-IsBudgeted : (q : Params) (cs : List Call) → IsBudgeted (run (init q) cs)
run-init-IsBudgeted q cs = run-IsBudgeted (init q) cs (init-IsBudgeted q)

pub fail_all : List (Option String) → Policy → Policy
fail_all [] p = p
fail_all (r ∷ rs) p = fail_all rs (mark_failure r p)

-- From a policy within its budget, failures in a row take the count up by one each. The stream
-- waits to reconnect as long as the count is at most `max_consecutive_failures`, and is FAILED when
-- it is one more. The reconnect total goes up by one for each failure but that last one.
pub fail_all_lem :
    (rs : List (Option String)) (r : Option String) (p : Policy)
    → p.failures + suc (length rs) ≤ suc p.max_consecutive_failures
    → let p' = fail_all (r ∷ rs) p in
      let spent = ltb p.max_consecutive_failures (p.failures + suc (length rs)) in
      (p'.failures ≡ p.failures + suc (length rs))
      × (p'.state ≡ (if spent then failed else reconnecting))
      × (p'.total_reconnects ≡ p.total_reconnects + (if spent then length rs else suc (length rs)))
unfolding fail_all mark_failure
fail_all_lem [] r p h = ground arith
fail_all_lem (r' ∷ rs) r p h = ground (arith, fail_all_lem rs r' (mark_failure r p))

-- No call changes the parameters.
abbrev pub SameParams : Policy → Policy → Type 0
SameParams p q =
    (q.backoff_base_ms ≡ p.backoff_base_ms)
    × (q.backoff_max_ms ≡ p.backoff_max_ms)
    × (q.max_consecutive_failures ≡ p.max_consecutive_failures)

step-SameParams : (p : Policy) (c : Call) → SameParams p (step p c)
unfolding step mark_connect mark_running mark_degraded mark_failure
step-SameParams p connects = ground arith
step-SameParams p runs = ground arith
step-SameParams p degrades = ground arith
step-SameParams p (fails reason) = ground arith

pub run-SameParams : (p : Policy) (cs : List Call) → SameParams p (run p cs)
unfolding run
run-SameParams p [] = (refl, refl, refl)
run-SameParams p (c ∷ cs) =
    let one = step-SameParams p c in
    let rest = run-SameParams (step p c) cs in (rest.0 ∙ one.0, rest.1 ∙ one.1, rest.2 ∙ one.2)

-- The constructor keeps a base of at least 100 ms and a cap that is no smaller.
pub init-exact :
    (q : Params)
    → ltb_ℤ q.backoff_base_ms (pos 100) ≡ false
    → ltb_ℤ q.backoff_max_ms q.backoff_base_ms ≡ false
    → ((init q).backoff_base_ms ≡ pos_part q.backoff_base_ms)
      × ((init q).backoff_max_ms ≡ pos_part q.backoff_max_ms)
unfolding init
init-exact q h k = ground arith

pub init_budget :
    (q : Params) (n : ℕ)
    → 1 ≤ n
    → ltb_ℤ (pos n) q.max_consecutive_failures ≡ false
    → (init q).max_consecutive_failures ≤ n
unfolding init
init_budget q n l h = ground arith
