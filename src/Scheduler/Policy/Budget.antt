-- ===== src/Scheduler/Policy/Budget.antt =====
-- The escalation budget and the cooldown after a return to NORMAL.
use jetedge_agent.Prelude.{
  ◌∙◌, inl, ◌==◌, ℕ, ◌+◌, ◌≤◌, ◌<◌, ◌≡◌, ◌⊎◌, refl, false, ◌||◌, arith, if◌then◌else◌, List, [],
  ◌∷◌, All,
}
use jetedge_agent.Prelude.Words.{add64}
use jetedge_agent.Prelude.Doubles.{Doubles}
use jetedge_agent.Scheduler.Policy.{
  SchedulerState, normal, pressure, thermal, critical, recovery, code, SystemSample,
  SchedulerConfig, Policy, Signals, table_for_state, transition, roll_window, advance, update, run,
  table, signals,
}

-- What a tick from `old` to `new` takes from the budget of pressure and thermal escalations.
abbrev pub budgeted : SchedulerState → SchedulerState → ℕ
budgeted old new =
    if code old == code new
    then 0
    else (if code new == code pressure || code new == code thermal then 1 else 0)

module _ (d : Doubles) (c : SchedulerConfig d) where
  -- The budgeted escalations of a row of ticks.
  pub count_budgeted : List (SystemSample d × ℕ) → Policy → ℕ
  count_budgeted [] p = 0
  count_budgeted ((s, now) ∷ xs) p =
      let p' = (update d c s now p).0 in budgeted p.state p'.state + count_budgeted xs p'

  transition_budget :
      (st : SchedulerState) (g : Signals) (now : ℕ) (p : Policy)
      → p.state ≡ st
      → let p' = transition d c st g now p in
        (p'.window_start_ms ≡ p.window_start_ms)
        × (p.adjustments + budgeted st p'.state ≤ p'.adjustments)
        × ((budgeted st p'.state ≡ 0)
            ⊎ ((p'.adjustments ≡ p.adjustments + 1)
                × (p.adjustments < c.max_adjustments_per_window)))
  unfolding transition
  transition_budget normal g now p e = ground arith
  transition_budget pressure g now p e = ground arith
  transition_budget thermal g now p e = ground arith
  transition_budget critical g now p e = ground arith
  transition_budget recovery g now p e = ground arith

  update_budget :
      (s : SystemSample d) (now : ℕ) (p : Policy)
      → now < add64 p.window_start_ms c.adjust_window_ms
      → let p' = (update d c s now p).0 in
        (p'.window_start_ms ≡ p.window_start_ms)
        × (p.adjustments + budgeted p.state p'.state ≤ p'.adjustments)
        × ((budgeted p.state p'.state ≡ 0)
            ⊎ ((p'.adjustments ≡ p.adjustments + 1)
                × (p.adjustments < c.max_adjustments_per_window)))
  unfolding update advance roll_window
  update_budget s now p h = ground (arith, transition_budget p.state (signals d c s) now p refl)

  count_budgeted_within :
      (xs : List (SystemSample d × ℕ)) (p : Policy) (start : ℕ)
      → p.window_start_ms ≡ start
      → All (λ x. x.1 < add64 start c.adjust_window_ms) xs
      → (count_budgeted xs p ≡ 0)
        ⊎ (p.adjustments + count_budgeted xs p ≤ c.max_adjustments_per_window)
  unfolding count_budgeted
  count_budgeted_within [] p start e h = inl refl
  count_budgeted_within ((s, now) ∷ xs) p start e h =
      let one = update_budget s now p (rw e h.0) in
      let rest = count_budgeted_within xs (update d c s now p).0 start (one.0 ∙ e) h.1 in
      omega (arith, one.1, one.2, rest)

  -- Within one budget window, whatever the readings, a row of ticks makes no more escalations to
  -- PRESSURE and THERMAL than the budget has left; with the budget used up it makes none.
  pub count_budgeted-le :
      (xs : List (SystemSample d × ℕ)) (p : Policy)
      → All (λ x. x.1 < add64 p.window_start_ms c.adjust_window_ms) xs
      → (count_budgeted xs p ≡ 0)
        ⊎ (p.adjustments + count_budgeted xs p ≤ c.max_adjustments_per_window)
  count_budgeted-le xs p h = count_budgeted_within xs p p.window_start_ms refl h

  update_cooldown :
      (s : SystemSample d) (now : ℕ) (p : Policy)
      → p.state ≡ normal
      → (signals d c s).hot_critical ≡ false
      → now < p.cooldown_until_ms
      → let p' = (update d c s now p).0 in
        (p'.state ≡ normal)
        × (p'.cooldown_until_ms ≡ p.cooldown_until_ms)
        × (p'.table_ ≡ table 0 0 0)
  unfolding update advance table_for_state transition roll_window
  update_cooldown s now p e h k = ground arith

  run_cooldown_until :
      (xs : List (SystemSample d × ℕ)) (p : Policy) (until : ℕ)
      → p.cooldown_until_ms ≡ until
      → p.state ≡ normal
      → p.table_ ≡ table 0 0 0
      → All (λ x. ((signals d c x.0).hot_critical ≡ false) × (x.1 < until)) xs
      → ((run d c xs p).state ≡ normal) × ((run d c xs p).table_ ≡ table 0 0 0)
  unfolding run
  run_cooldown_until [] p until u e k h = (e, k)
  run_cooldown_until ((s, now) ∷ xs) p until u e k h =
      let one = update_cooldown s now p e h.0.0 (rw u h.0.1) in
      run_cooldown_until xs (update d c s now p).0 until (one.1 ∙ u) one.0 one.2 h.1

  -- Until the cooldown set by the return to NORMAL has passed, a row of ticks without a critical
  -- temperature stays in NORMAL with every interval at 0.
  pub run_cooldown :
      (xs : List (SystemSample d × ℕ)) (p : Policy)
      → p.state ≡ normal
      → p.table_ ≡ table 0 0 0
      → All (λ x. ((signals d c x.0).hot_critical ≡ false) × (x.1 < p.cooldown_until_ms)) xs
      → ((run d c xs p).state ≡ normal) × ((run d c xs p).table_ ≡ table 0 0 0)
  run_cooldown xs p e k h = run_cooldown_until xs p p.cooldown_until_ms refl e k h
