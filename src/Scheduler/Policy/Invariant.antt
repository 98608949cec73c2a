-- ===== src/Scheduler/Policy/Invariant.antt =====
-- The output table always is the one of the state, and RECOVERY has three stages.
use jetedge_agent.Prelude.{ℕ, ◌≤◌, ◌≡◌, refl, sym, List, [], ◌∷◌, arith}
use jetedge_agent.Prelude.Doubles.{Doubles}
use jetedge_agent.Scheduler.Policy.{
  SchedulerState, normal, pressure, thermal, critical, recovery, SystemSample, SchedulerConfig,
  Policy, init, Signals, table_for_state, transition, roll_window, advance, update, run, signals,
}

abbrev pub StepFits : SchedulerState → ℕ → Type 0
StepFits recovery k = k ≤ 2
StepFits _ k = k ≡ 0

pub record IsConsistent (p : Policy) : Type 0 where
  pub step : StepFits p.state p.recovery_step
  pub output : p.table_ ≡ table_for_state p.state p.recovery_step

init-IsConsistent : IsConsistent init
unfolding init table_for_state
init-IsConsistent = record { step = omega arith; output = ground arith }

module _ (d : Doubles) (c : SchedulerConfig d) where
  transition-StepFits :
      (st : SchedulerState) (g : Signals) (now : ℕ) (p : Policy)
      → st ≡ p.state
      → StepFits p.state p.recovery_step
      → let p' = transition d c st g now p in StepFits p'.state p'.recovery_step
  unfolding transition
  transition-StepFits normal g now p e h = ground arith
  transition-StepFits pressure g now p e h = ground arith
  transition-StepFits thermal g now p e h = ground arith
  transition-StepFits critical g now p e h = ground arith
  transition-StepFits recovery g now p e h = ground arith

  -- Rolling the window touches neither the state nor its clock.
  pub roll_window_keeps :
      (now : ℕ) (p : Policy)
      → let p' = roll_window d c now p in
        (p'.state ≡ p.state)
        × (p'.recovery_step ≡ p.recovery_step)
        × (p'.state_since_ms ≡ p.state_since_ms)
        × (p'.cooldown_until_ms ≡ p.cooldown_until_ms)
  unfolding roll_window
  roll_window_keeps now p = ground arith

  advance-IsConsistent :
      (g : Signals) (now : ℕ) (p : Policy) → IsConsistent p → IsConsistent (advance d c g now p).0
  unfolding advance
  advance-IsConsistent g now p v =
      let kept = roll_window_keeps now p in
      record {
        step =
            transition-StepFits p.state g now (roll_window d c now p) (sym kept.0)
              (ground (arith, kept, v.step));
        output = refl;
      }

  run-IsConsistent :
      (xs : List (SystemSample d × ℕ)) (p : Policy) → IsConsistent p → IsConsistent (run d c xs p)
  unfolding run update
  run-IsConsistent [] p v = v
  run-IsConsistent ((s, now) ∷ xs) p v =
      run-IsConsistent xs (update d c s now p).0 (advance-IsConsistent (signals d c s) now p v)

  -- After any row of ticks, whatever the readings and times, the output table is the table of the
  -- state reached, the recovery step is at most 2, and it is 0 outside RECOVERY.
  pub run-init-IsConsistent : (xs : List (SystemSample d × ℕ)) → IsConsistent (run d c xs init)
  run-init-IsConsistent xs = run-IsConsistent xs init init-IsConsistent
