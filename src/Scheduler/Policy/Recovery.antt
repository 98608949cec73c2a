-- ===== src/Scheduler/Policy/Recovery.antt =====
-- A healthy system comes back to NORMAL.
use jetedge_agent.Prelude.{
  inl, inr, length, ◌-◌, ℕ, ◌+◌, ◌≤◌, ◌<◌, ◌≡◌, ◌⊎◌, refl, true, false, arith, List, [], ◌∷◌,
}
use jetedge_agent.Prelude.Words.{sub64, u64_mod, sub64_exact}
use jetedge_agent.Prelude.Doubles.{Doubles}
use jetedge_agent.Scheduler.Policy.{
  SchedulerState, normal, pressure, thermal, critical, recovery, SystemSample, SchedulerConfig,
  Policy, Signals, transition, roll_window, advance, update, run, signals,
}
use jetedge_agent.Scheduler.Policy.Invariant.{IsConsistent, StepFits, roll_window_keeps}

-- No signal asks for throttling. A missing reading counts as healthy.
pub record IsHealthy (g : Signals) : Type 0 where
  pub not_critical : g.hot_critical ≡ false
  pub not_hot : g.hot ≡ false
  pub cooled : g.cooled ≡ true
  pub cooled_critical : g.cooled_critical ≡ true
  pub not_busy : g.cpu_high ≡ false
  pub cpu_low : g.cpu_low ≡ true

-- How many held ticks a healthy system is away from NORMAL.
abbrev pub distance : SchedulerState → ℕ → ℕ
distance normal k = 0
distance recovery k = 3 - k
distance _ k = 4

module _ (d : Doubles) (c : SchedulerConfig d) where
  -- Healthy ticks, each at least `min_hold_ms` after the one before; the clock does not wrap.
  abbrev pub Healthy : ℕ → List (SystemSample d × ℕ) → Type 0
  Healthy since [] = Unit {0}
  Healthy since ((s, now) ∷ xs) =
      (since + c.min_hold_ms ≤ now) × (now < u64_mod) × IsHealthy (signals d c s) × Healthy now xs

  transition_healthy :
      (st : SchedulerState) (g : Signals) (now : ℕ) (p : Policy)
      → p.state ≡ st
      → StepFits st p.recovery_step
      → IsHealthy g
      → c.min_hold_ms ≤ sub64 now p.state_since_ms
      → let p' = transition d c st g now p in
        (distance p'.state p'.recovery_step ≡ distance st p.recovery_step - 1)
        × ((p'.state_since_ms ≡ now) ⊎ (p'.state ≡ normal))
        × StepFits p'.state p'.recovery_step
  unfolding transition
  transition_healthy normal g now p e f h k = ground arith
  transition_healthy pressure g now p e f h k = ground arith
  transition_healthy thermal g now p e f h k = ground arith
  transition_healthy critical g now p e f h k = ground arith
  transition_healthy recovery g now p e f h k = ground arith

  update_normal :
      (s : SystemSample d) (now : ℕ) (p : Policy)
      → p.state ≡ normal
      → IsHealthy (signals d c s)
      → (update d c s now p).0.state ≡ normal
  unfolding update advance transition roll_window
  update_normal s now p e h = ground arith

  run_normal :
      (xs : List (SystemSample d × ℕ)) (p : Policy) (since : ℕ)
      → p.state ≡ normal
      → Healthy since xs
      → (run d c xs p).state ≡ normal
  unfolding run
  run_normal [] p since e h = e
  run_normal ((s, now) ∷ xs) p since e h =
      run_normal xs (update d c s now p).0 now (update_normal s now p e h.2) h.3

  update_healthy :
      (s : SystemSample d) (now : ℕ) (p : Policy)
      → StepFits p.state p.recovery_step
      → IsHealthy (signals d c s)
      → p.state_since_ms + c.min_hold_ms ≤ now
      → now < u64_mod
      → let p' = (update d c s now p).0 in
        (distance p'.state p'.recovery_step ≡ distance p.state p.recovery_step - 1)
        × ((p'.state_since_ms ≡ now) ⊎ (p'.state ≡ normal))
        × StepFits p'.state p'.recovery_step
  unfolding update advance
  update_healthy s now p f h k l =
      let kept = roll_window_keeps d c now p in
      ground (
        arith,
        kept,
        sub64_exact now p.state_since_ms,
        transition_healthy p.state (signals d c s) now (roll_window d c now p) kept.0 (rw kept.1 f),
      )

  distance_zero : (st : SchedulerState) (k : ℕ) → StepFits st k → distance st k ≤ 0 → st ≡ normal
  distance_zero normal k f h = refl
  distance_zero pressure k f h = absurd (omega arith)
  distance_zero thermal k f h = absurd (omega arith)
  distance_zero critical k f h = absurd (omega arith)
  distance_zero recovery k f h = absurd (omega arith)

  run-distance :
      (xs : List (SystemSample d × ℕ)) (p : Policy) (since : ℕ)
      → StepFits p.state p.recovery_step
      → (p.state_since_ms ≡ since) ⊎ (p.state ≡ normal)
      → Healthy since xs
      → distance p.state p.recovery_step ≤ length xs
      → (run d c xs p).state ≡ normal
  unfolding run
  run-distance [] p since f e h k = distance_zero p.state p.recovery_step f k
  run-distance ((s, now) ∷ xs) p since f (inr e) h k = run_normal ((s, now) ∷ xs) p since e h
  run-distance ((s, now) ∷ xs) p since f (inl e) h k =
      let one = update_healthy s now p f h.2 (rw e h.0) h.1 in
      run-distance xs (update d c s now p).0 now one.2 one.1 h.3 (omega (arith, one.0))

  distance-le : (st : SchedulerState) (k : ℕ) → distance st k ≤ 4
  distance-le normal k = omega arith
  distance-le pressure k = omega arith
  distance-le thermal k = omega arith
  distance-le critical k = omega arith
  distance-le recovery k = omega arith

  -- From every consistent state, four healthy ticks or more, each at least `min_hold_ms` after the
  -- one before, bring the scheduler to NORMAL.
  pub run-Healthy :
      (xs : List (SystemSample d × ℕ)) (p : Policy)
      → IsConsistent p
      → Healthy p.state_since_ms xs
      → 4 ≤ length xs
      → (run d c xs p).state ≡ normal
  run-Healthy xs p v h k =
      run-distance xs p p.state_since_ms v.step (inl refl) h
        (omega (arith, distance-le p.state p.recovery_step))
