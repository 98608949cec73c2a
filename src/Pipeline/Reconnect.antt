-- ===== src/Pipeline/Reconnect.antt =====
-- include/jetedge/pipeline/reconnect_policy.h and src/pipeline/reconnect_policy.cpp. The counters do
-- not wrap. Parameters are signed in the code; the constructor raises those below their minimum.
pub mod Backoff
pub mod Failures
mod Examples
use Prim.Native.String.{String}
use jetedge_agent.Prelude.{
  ℕ, ◌+◌, ◌-◌, ◌*◌, ◌%◌, ◌^◌, Bool, true, false, ltb, leb, ◌==◌, ◌||◌, not, if◌then◌else◌, Option,
  none, some,
}
use jetedge_agent.Prelude.Int.{ℤ, pos, negsuc, ltb_ℤ, pos_part}
use jetedge_agent.Prelude.Words.{u64_mod}

pub data StreamState : Type 0 where
  offline connecting running degraded reconnecting failed : StreamState

-- The enumerator's value.
abbrev pub code : StreamState → ℕ
code offline = 0
code connecting = 1
code running = 2
code degraded = 3
code reconnecting = 4
code failed = 5

-- `ReconnectPolicy::Params` as the configuration gives them.
pub record Params : Type 0 where
  pub backoff_base_ms : ℤ
  pub backoff_max_ms : ℤ
  pub max_consecutive_failures : ℤ

pub record Policy : Type 0 where
  pub backoff_base_ms : ℕ
  pub backoff_max_ms : ℕ
  pub max_consecutive_failures : ℕ
  pub state : StreamState
  pub failures : ℕ
  pub attempts : ℕ
  pub total_reconnects : ℕ
  pub reason : String

-- `if (x < least) x = least`, at a least value that is not negative.
abbrev at_least : ℕ → ℤ → ℕ
at_least least x = if ltb_ℤ x (pos least) then least else pos_part x

-- The constructor.
unfoldable pub init : Params → Policy
init p =
    let base = at_least 100 p.backoff_base_ms in
    record {
      backoff_base_ms = base;
      backoff_max_ms = at_least base p.backoff_max_ms;
      max_consecutive_failures = at_least 1 p.max_consecutive_failures;
      state = offline;
      failures = 0;
      attempts = 0;
      total_reconnects = 0;
      reason = "none";
    }

pub mark_connect : Policy → Policy
mark_connect p = record p { state = connecting; attempts = p.attempts + 1 }

pub mark_running : Policy → Policy
mark_running p = record p { state = running; failures = 0; attempts = 0; reason = "none" }

pub mark_degraded : Policy → Policy
mark_degraded p =
    if not (code p.state == code running)
    then p
    else record p { state = degraded; reason = "stall" }

-- `none` is a null pointer.
pub mark_failure : Option String → Policy → Policy
mark_failure reason p =
    let p' : Policy = record p {
      failures = p.failures + 1;
      reason = elim reason [ none ↦ "unknown" | some r ↦ r ];
    } in
    if ltb p.max_consecutive_failures p'.failures
    then record p' { state = failed }
    else record p' { state = reconnecting; total_reconnects = p.total_reconnects + 1 }

-- The value of a 64-bit pattern as `int64_t`.
abbrev pub to_int64 : ℕ → ℤ
to_int64 n = if ltb n (2 ^ 63) then pos n else negsuc (u64_mod - n - 1)

-- `base << shift` at `int64_t`: the compilers keep the low 64 bits.
pub shift_left : ℕ → ℕ → ℤ
shift_left base shift = to_int64 (base * 2 ^ shift % u64_mod)

abbrev pub max_shift : ℕ
max_shift = 60

pub backoff_ms : Policy → ℤ
unfolding shift_left
backoff_ms p =
    if not (code p.state == code reconnecting) || ltb p.failures 1
    then pos 0
    else (let n = p.failures - 1 in
        let shift = if ltb max_shift n then max_shift else n in
        let v = shift_left p.backoff_base_ms shift in
        if ltb_ℤ (pos p.backoff_max_ms) v then pos p.backoff_max_ms else v)
