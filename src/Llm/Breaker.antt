-- ===== src/Llm/Breaker.antt =====
-- include/jetedge/llm/circuit_breaker.h and src/llm/circuit_breaker.cpp. The mutex makes each call
-- atomic, so a history is a list of calls. `now` is the steady clock, in nanoseconds; the logging
-- calls are left out. The thresholds are `int`s that the config loader keeps at 1 or more.
pub mod Invariant
pub mod Cycle
mod Examples
use jetedge_agent.Prelude.{
  ℕ, ◌+◌, ◌-◌, ◌/◌, Bool, true, false, List, [], ◌∷◌, leb, ltb, if◌then◌else◌,
}

pub data CircuitState : Type 0 where
  closed opened half_open : CircuitState

pub record Config : Type 0 where
  pub failure_threshold : ℕ
  pub reset_timeout_sec : ℕ
  pub half_open_success_threshold : ℕ

pub record Breaker : Type 0 where
  pub state : CircuitState
  pub failures : ℕ
  pub successes : ℕ
  pub half_open_used : ℕ
  pub opened_at : ℕ

pub init : Breaker
init = record { state = closed; failures = 0; successes = 0; half_open_used = 0; opened_at = 0 }

pub transition_to_open : ℕ → Breaker → Breaker
transition_to_open now b = record b {
  state = opened;
  failures = 0;
  successes = 0;
  half_open_used = 0;
  opened_at = now;
}

pub transition_to_half_open : Breaker → Breaker
transition_to_half_open b = record b { state = half_open; successes = 0; half_open_used = 0 }

pub transition_to_closed : Breaker → Breaker
transition_to_closed b = record b {
  state = closed;
  failures = 0;
  successes = 0;
  half_open_used = 0;
}

-- `duration_cast<seconds>(now - opened_at_)`; the clock is steady, so the difference is no less than 0.
abbrev pub elapsed_sec : ℕ → Breaker → ℕ
elapsed_sec now b = (now - b.opened_at) / 1_000_000_000

module _ (c : Config) where
  pub allow_request : ℕ → Breaker → Breaker × Bool
  unfolding transition_to_half_open
  allow_request now b = elim b.state [
    | closed ↦ (b, true)
    | opened ↦
        if leb c.reset_timeout_sec (elapsed_sec now b)
        then (record (transition_to_half_open b) { half_open_used = 1 }, true)
        else (b, false)
    | half_open ↦
        if ltb b.half_open_used c.half_open_success_threshold
        then (record b { half_open_used = b.half_open_used + 1 }, true)
        else (b, false)
  ]

  half_open_success : Breaker → Breaker
  unfolding transition_to_closed
  half_open_success b =
      let b' : Breaker = record b { successes = b.successes + 1 } in
      if leb c.half_open_success_threshold b'.successes then transition_to_closed b' else b'

  pub record_success : Breaker → Breaker
  unfolding half_open_success
  record_success b = elim b.state [
    | half_open ↦ half_open_success b
    | _ ↦ record b { failures = 0 }
  ]

  count_failure : ℕ → Breaker → Breaker
  unfolding transition_to_open
  count_failure now b =
      let b' : Breaker = record b { failures = b.failures + 1 } in
      if leb c.failure_threshold b'.failures then transition_to_open now b' else b'

  pub record_failure : ℕ → Breaker → Breaker
  unfolding count_failure transition_to_open
  record_failure now b = elim b.state [
    | half_open ↦ transition_to_open now b
    | _ ↦ count_failure now b
  ]
