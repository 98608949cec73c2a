-- ===== src/Scheduler/Policy.antt =====
-- include/jetedge/scheduler/scheduler_policy.h and src/scheduler/scheduler_policy.cpp. Readings are
-- abstract doubles; `uint64_t` times wrap; `int` counters do not (the config loader bounds them).
pub mod Invariant
pub mod Transitions
pub mod Budget
pub mod Recovery
mod Examples
use jetedge_agent.Prelude.{
  ℕ, ◌+◌, ◌-◌, Bool, true, false, ◌&&◌, ◌||◌, not, leb, ltb, ◌==◌, if◌then◌else◌, min, List, [],
  ◌∷◌,
}
use jetedge_agent.Prelude.Words.{add64, sub64}
use jetedge_agent.Prelude.Doubles.{Doubles}

pub data SchedulerState : Type 0 where
  normal pressure thermal critical recovery : SchedulerState

-- The enumerator's value.
abbrev pub code : SchedulerState → ℕ
code normal = 0
code pressure = 1
code thermal = 2
code critical = 3
code recovery = 4

pub record PolicyTable : Type 0 where
  pub high : ℕ
  pub normal_ : ℕ
  pub low : ℕ

abbrev pub table : ℕ → ℕ → ℕ → PolicyTable
table h n l = record { high = h; normal_ = n; low = l }

-- `PolicyTable::operator==`
abbrev pub same_table : PolicyTable → PolicyTable → Bool
same_table a b = a.high == b.high && a.normal_ == b.normal_ && a.low == b.low

module _ (d : Doubles) where
  pub record SystemSample : Type 0 where
    pub cpu_pct : d.Double
    pub mem_pct : d.Double
    pub temp_c : d.Double

  pub record SchedulerConfig : Type 0 where
    pub enable : Bool
    pub sample_interval_sec : ℕ
    pub pressure_cpu_enter : d.Double
    pub pressure_cpu_exit : d.Double
    pub thermal_temp_enter : d.Double
    pub thermal_temp_exit : d.Double
    pub critical_temp_enter : d.Double
    pub critical_temp_exit : d.Double
    pub min_hold_ms : ℕ
    pub cooldown_ms : ℕ
    pub max_adjustments_per_window : ℕ
    pub adjust_window_ms : ℕ

-- The local `escalation` of `enter`.
abbrev pub escalation : SchedulerState → Bool
escalation pressure = true
escalation thermal = true
escalation critical = true
escalation _ = false

-- The members of `SchedulerPolicy`, but for its configuration.
pub record Policy : Type 0 where
  pub state : SchedulerState
  pub table_ : PolicyTable
  pub state_since_ms : ℕ
  pub cooldown_until_ms : ℕ
  pub window_start_ms : ℕ
  pub adjustments : ℕ
  pub recovery_step : ℕ

pub init : Policy
init = record {
  state = normal;
  table_ = table 0 0 0;
  state_since_ms = 0;
  cooldown_until_ms = 0;
  window_start_ms = 0;
  adjustments = 0;
  recovery_step = 0;
}

-- kPausedInterval
abbrev pub paused_interval : ℕ
paused_interval = 15

-- kRecoveryStages
recovery_stage : ℕ → PolicyTable
recovery_stage k = if k == 0 then table 0 1 2 else if k == 1 then table 0 0 1 else table 0 0 0

-- kNumRecoveryStages
abbrev pub num_recovery_stages : ℕ
num_recovery_stages = 3

pub table_for_state : SchedulerState → ℕ → PolicyTable
unfolding recovery_stage
table_for_state normal step = table 0 0 0
table_for_state pressure step = table 0 1 2
table_for_state thermal step = table 0 2 3
table_for_state critical step = table 1 3 paused_interval
table_for_state recovery step = recovery_stage (min step (num_recovery_stages - 1))

-- The Boolean locals at the head of `update` that the readings decide.
pub record Signals : Type 0 where
  pub hot_critical : Bool
  pub hot : Bool
  pub cooled : Bool
  pub cooled_critical : Bool
  pub cpu_high : Bool
  pub cpu_low : Bool

module _ (d : Doubles) (c : SchedulerConfig d) where
  open d use {zero_, leb as leq, ltb as less}

  unfoldable pub signals : SystemSample d → Signals
  signals s = record {
    hot_critical = leq zero_ s.temp_c && leq c.critical_temp_enter s.temp_c;
    hot = leq zero_ s.temp_c && leq c.thermal_temp_enter s.temp_c;
    cooled = less s.temp_c zero_ || leq s.temp_c c.thermal_temp_exit;
    cooled_critical = less s.temp_c zero_ || leq s.temp_c c.critical_temp_exit;
    cpu_high = leq zero_ s.cpu_pct && leq c.pressure_cpu_enter s.cpu_pct;
    cpu_low = less s.cpu_pct zero_ || leq s.cpu_pct c.pressure_cpu_exit;
  }

  pub enter : SchedulerState → ℕ → Policy → Policy
  enter st now p = record p {
    state = st;
    state_since_ms = now;
    recovery_step = 0;
    adjustments = if escalation st then p.adjustments + 1 else p.adjustments;
    cooldown_until_ms =
        if code st == code normal then add64 now c.cooldown_ms else p.cooldown_until_ms;
  }

  pub roll_window : ℕ → Policy → Policy
  roll_window now p =
      if leb (add64 p.window_start_ms c.adjust_window_ms) now
      then record p { window_start_ms = now; adjustments = 0 }
      else p

  abbrev pub hold_elapsed : ℕ → Policy → Bool
  hold_elapsed now p = leb c.min_hold_ms (sub64 now p.state_since_ms)

  abbrev pub cooldown_ok : ℕ → Policy → Bool
  cooldown_ok now p = leb p.cooldown_until_ms now

  abbrev pub budget_ok : Policy → Bool
  budget_ok p = ltb p.adjustments c.max_adjustments_per_window

  step_down : ℕ → Policy → Policy
  unfolding enter
  step_down now p =
      if ltb p.recovery_step (num_recovery_stages - 1)
      then record p { recovery_step = p.recovery_step + 1; state_since_ms = now }
      else enter normal now p

  -- The `switch` of `update`, at the state that it starts in.
  pub transition : SchedulerState → Signals → ℕ → Policy → Policy
  unfolding enter step_down
  transition normal g now p =
      if g.hot_critical
      then enter critical now p
      else if not (cooldown_ok now p)
      then p
      else if g.hot && hold_elapsed now p && budget_ok p
      then enter thermal now p
      else if g.cpu_high && hold_elapsed now p && budget_ok p
      then enter pressure now p
      else p
  transition pressure g now p =
      if g.hot_critical
      then enter critical now p
      else if g.hot && hold_elapsed now p && budget_ok p
      then enter thermal now p
      else if g.cpu_low && hold_elapsed now p
      then enter recovery now p
      else p
  transition thermal g now p =
      if g.hot_critical
      then enter critical now p
      else if g.cooled && hold_elapsed now p
      then enter recovery now p
      else p
  transition critical g now p =
      if g.cooled_critical && hold_elapsed now p then enter recovery now p else p
  transition recovery g now p =
      if g.hot_critical
      then enter critical now p
      else if g.hot && hold_elapsed now p && budget_ok p
      then enter thermal now p
      else if g.cpu_high && hold_elapsed now p && budget_ok p
      then enter pressure now p
      else if hold_elapsed now p && g.cooled && g.cpu_low
      then step_down now p
      else p

  -- `update` from the signals on.
  pub advance : Signals → ℕ → Policy → Policy × Bool
  unfolding transition roll_window table_for_state
  advance g now p =
      let p' = transition p.state g now (roll_window now p) in
      let t = table_for_state p'.state p'.recovery_step in
      (record p' { table_ = t }, not (code p'.state == code p.state) || not (same_table t p.table_))

  pub update : SystemSample d → ℕ → Policy → Policy × Bool
  unfolding advance signals
  update s now p = advance (signals s) now p

  -- A row of ticks of the driver.
  pub run : List (SystemSample d × ℕ) → Policy → Policy
  run [] p = p
  run ((s, now) ∷ xs) p = run xs (update s now p).0
