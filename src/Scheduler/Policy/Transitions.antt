-- ===== src/Scheduler/Policy/Transitions.antt =====
-- Which transitions `update` makes, on what condition, and what they do to the load.
use jetedge_agent.Prelude.{◌&&◌, ◌==◌, not, ◌⊎◌, ℕ, ◌≤◌, ◌≡◌, ◌≢◌, refl, Bool, true, false, arith}
use jetedge_agent.Prelude.Words.{sub64}
use jetedge_agent.Prelude.Doubles.{Doubles}
use jetedge_agent.Scheduler.Policy.{
  escalation, code, SchedulerState, normal, pressure, thermal, critical, recovery, PolicyTable,
  SystemSample, SchedulerConfig, Policy, Signals, table_for_state, transition, roll_window, advance,
  update, signals,
}
use jetedge_agent.Scheduler.Policy.Invariant.{IsConsistent, StepFits, roll_window_keeps}

-- The arrows of the state diagram, and staying put.
abbrev pub arrow : SchedulerState → SchedulerState → Bool
arrow normal recovery = false
arrow normal _ = true
arrow pressure normal = false
arrow pressure _ = true
arrow thermal normal = false
arrow thermal pressure = false
arrow thermal _ = true
arrow critical critical = true
arrow critical recovery = true
arrow critical _ = false
arrow recovery _ = true

-- A move up: into PRESSURE, THERMAL or CRITICAL from another state.
abbrev pub moved_up : SchedulerState → SchedulerState → Bool
moved_up old new = not (code old == code new) && escalation new

-- Each interval is at least the other table's: no more load on any tier.
pub record NoMoreLoad (t u : PolicyTable) : Type 0 where
  pub high : u.high ≤ t.high
  pub normal_ : u.normal_ ≤ t.normal_
  pub low : u.low ≤ t.low

module _ (d : Doubles) (c : SchedulerConfig d) where
  transition-arrow :
      (st : SchedulerState) (g : Signals) (now : ℕ) (p : Policy)
      → p.state ≡ st
      → arrow st (transition d c st g now p).state ≡ true
  unfolding transition
  transition-arrow normal g now p e = ground arith
  transition-arrow pressure g now p e = ground arith
  transition-arrow thermal g now p e = ground arith
  transition-arrow critical g now p e = ground arith
  transition-arrow recovery g now p e = ground arith

  -- Every tick stays in its state or follows an arrow of the diagram; so CRITICAL is left for
  -- RECOVERY alone, and NORMAL is reached from RECOVERY alone.
  pub update-arrow :
      (s : SystemSample d) (now : ℕ) (p : Policy)
      → arrow p.state (update d c s now p).0.state ≡ true
  unfolding update advance
  update-arrow s now p =
      transition-arrow p.state (signals d c s) now (roll_window d c now p)
        (roll_window_keeps d c now p).0

  transition_hold :
      (st : SchedulerState) (g : Signals) (now : ℕ) (p : Policy)
      → p.state ≡ st
      → g.hot_critical ≡ false
      → (transition d c st g now p).state ≢ st
      → c.min_hold_ms ≤ sub64 now p.state_since_ms
  unfolding transition
  transition_hold normal g now p e h k = ground arith
  transition_hold pressure g now p e h k = ground arith
  transition_hold thermal g now p e h k = ground arith
  transition_hold critical g now p e h k = ground arith
  transition_hold recovery g now p e h k = ground arith

  -- Unless the temperature is critical, a state is left only after it was held for `min_hold_ms`.
  pub update_hold :
      (s : SystemSample d) (now : ℕ) (p : Policy)
      → (signals d c s).hot_critical ≡ false
      → (update d c s now p).0.state ≢ p.state
      → c.min_hold_ms ≤ sub64 now p.state_since_ms
  unfolding update advance
  update_hold s now p h k =
      let kept = roll_window_keeps d c now p in
      rw (← kept.2) (transition_hold p.state (signals d c s) now (roll_window d c now p) kept.0 h k)

  transition_critical :
      (st : SchedulerState) (g : Signals) (now : ℕ) (p : Policy)
      → p.state ≡ st
      → g.hot_critical ≡ true
      → st ≢ critical
      → (transition d c st g now p).state ≡ critical
  unfolding transition
  transition_critical normal g now p e h k = ground arith
  transition_critical pressure g now p e h k = ground arith
  transition_critical thermal g now p e h k = ground arith
  transition_critical critical g now p e h k = absurd (k refl)
  transition_critical recovery g now p e h k = ground arith

  -- A critical temperature takes every other state to CRITICAL at once, with the heaviest throttling
  -- as output: no hold, cooldown or budget is in the way.
  pub update_critical :
      (s : SystemSample d) (now : ℕ) (p : Policy)
      → (signals d c s).hot_critical ≡ true
      → p.state ≢ critical
      → let p' = (update d c s now p).0 in
        (p'.state ≡ critical) × (p'.table_ ≡ record { high = 1; normal_ = 3; low = 15 })
  unfolding update advance table_for_state
  update_critical s now p h k =
      let e =
        transition_critical p.state (signals d c s) now (roll_window d c now p)
          (roll_window_keeps d c now p).0 h k in
      (e, ground arith)

  transition_load :
      (st : SchedulerState) (g : Signals) (now : ℕ) (p : Policy)
      → p.state ≡ st
      → StepFits p.state p.recovery_step
      → let p' = transition d c st g now p in
        let t = table_for_state st p.recovery_step in
        let t' = table_for_state p'.state p'.recovery_step in
        ((moved_up st p'.state ≡ true) × NoMoreLoad t' t)
        ⊎ ((moved_up st p'.state ≡ false) × NoMoreLoad t t')
  unfolding transition table_for_state
  transition_load normal g now p e h = ground arith
  transition_load pressure g now p e h = ground arith
  transition_load thermal g now p e h = ground arith
  transition_load critical g now p e h = ground arith
  transition_load recovery g now p e h = ground arith

  -- From a consistent state: a tick that moves up to PRESSURE, THERMAL or CRITICAL raises no tier's load,
  -- and any other tick, the one that leaves CRITICAL included, lowers no tier's load.
  pub update_load :
      (s : SystemSample d) (now : ℕ) (p : Policy)
      → IsConsistent p
      → let p' = (update d c s now p).0 in
        ((moved_up p.state p'.state ≡ true) × NoMoreLoad p'.table_ p.table_)
        ⊎ ((moved_up p.state p'.state ≡ false) × NoMoreLoad p.table_ p'.table_)
  unfolding update advance
  update_load s now p v =
      let p₀ = roll_window d c now p in
      let kept = roll_window_keeps d c now p in
      ground (
        arith,
        v.output,
        kept,
        transition_load p.state (signals d c s) now p₀ kept.0 (rw (kept.0, kept.1) v.step),
      )
