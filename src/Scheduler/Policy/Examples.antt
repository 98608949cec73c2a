-- ===== src/Scheduler/Policy/Examples.antt =====
-- Ticks at whole degrees and percents.
use jetedge_agent.Prelude.{◌+◌, ℕ, ◌≤◌, ◌≡◌, ◌≢◌, ◌⊎◌, refl, true, false, arith, List, [], ◌∷◌}
use jetedge_agent.Prelude.Words.{add64, sub64}
use jetedge_agent.Prelude.Doubles.{whole}
use jetedge_agent.Scheduler.Policy.{
  normal, critical, table, SystemSample, SchedulerConfig, Policy, init, update, run, signals,
  table_for_state,
}
use jetedge_agent.Scheduler.Policy.Invariant.{IsConsistent}
use jetedge_agent.Scheduler.Policy.Transitions.{moved_up, NoMoreLoad, update_critical, update_load}
use jetedge_agent.Scheduler.Policy.Budget.{count_budgeted, count_budgeted-le}
use jetedge_agent.Scheduler.Policy.Recovery.{IsHealthy, Healthy, run-Healthy}

abbrev config : SchedulerConfig whole
config = record {
  enable = true;
  sample_interval_sec = 2;
  pressure_cpu_enter = 70;
  pressure_cpu_exit = 50;
  thermal_temp_enter = 75;
  thermal_temp_exit = 70;
  critical_temp_enter = 82;
  critical_temp_exit = 76;
  min_hold_ms = 100;
  cooldown_ms = 300;
  max_adjustments_per_window = 2;
  adjust_window_ms = 5000;
}

abbrev at : ℕ → ℕ → SystemSample whole
at cpu temp = record { cpu_pct = cpu; mem_pct = 0; temp_c = temp }

abbrev busy_ticks : List (SystemSample whole × ℕ)
busy_ticks = (at 90 40, 150) ∷ (at 90 78, 300) ∷ (at 90 90, 310) ∷ []

abbrev busy_tick : List (SystemSample whole × ℕ)
busy_tick = (at 90 78, 850) ∷ []

abbrev calm_ticks : List (SystemSample whole × ℕ)
calm_ticks = (at 10 40, 500) ∷ (at 10 40, 600) ∷ (at 10 40, 700) ∷ (at 10 40, 800) ∷ []

abbrev hot_policy : Policy
hot_policy = record {
  state = critical;
  table_ = table 1 3 15;
  state_since_ms = 310;
  cooldown_until_ms = 0;
  window_start_ms = 0;
  adjustments = 3;
  recovery_step = 0;
}

abbrev resting : Policy
resting = record init_policy { cooldown_until_ms = 900 }
  where
    init_policy : Policy
    init_policy = record hot_policy { state = normal; table_ = table 0 0 0 }

busy_ticks_heat : run whole config busy_ticks init ≡ hot_policy
unfolding run init update add64 sub64
busy_ticks_heat = refl

left_critical : (update whole config (at 10 40) 500 hot_policy).0.state ≢ critical
unfolding update sub64
left_critical = ground arith

update_critical_example :
    ((update whole config (at 10 90) 1 init).0.state ≡ critical)
    × ((update whole config (at 10 90) 1 init).0.table_ ≡ table 1 3 15)
unfolding signals init
update_critical_example = update_critical whole config (at 10 90) 1 init refl (λ e. cc)

hot_policy-IsConsistent : IsConsistent hot_policy
unfolding table_for_state
hot_policy-IsConsistent = record { step = refl; output = refl }

update_load_example :
    let p = (update whole config (at 10 40) 500 hot_policy).0 in
    ((moved_up critical p.state ≡ true) × NoMoreLoad p.table_ (table 1 3 15))
    ⊎ ((moved_up critical p.state ≡ false) × NoMoreLoad (table 1 3 15) p.table_)
update_load_example = update_load whole config (at 10 40) 500 hot_policy hot_policy-IsConsistent

count_budgeted-le_example :
    (count_budgeted whole config busy_ticks init ≡ 0)
    ⊎ (init.adjustments + count_budgeted whole config busy_ticks init ≤ 2)
unfolding init add64
count_budgeted-le_example = count_budgeted-le whole config busy_ticks init (omega arith)

calm-IsHealthy : IsHealthy (signals whole config (at 10 40))
unfolding signals
calm-IsHealthy = ground arith

calm_ticks-Healthy : Healthy whole config 310 calm_ticks
calm_ticks-Healthy =
    let h = calm-IsHealthy in
    (
      omega arith,
      omega arith,
      h,
      (
        omega arith,
        omega arith,
        h,
        (omega arith, omega arith, h, (omega arith, omega arith, h, tt)),
      ),
    )

run-Healthy_example : (run whole config calm_ticks hot_policy).state ≡ normal
run-Healthy_example =
    run-Healthy whole config calm_ticks hot_policy hot_policy-IsConsistent calm_ticks-Healthy
      (omega arith)
