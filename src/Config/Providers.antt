-- ===== src/Config/Providers.antt =====
-- The ranges that the LLM section and the control section keep to.
use jetedge_agent.Prelude.{◌≤◌, ◌≡◌, refl, true, arith}
use jetedge_agent.Prelude.Int.{ltb_ℤ}
use jetedge_agent.Llm.Breaker.{Config}
use jetedge_agent.Llm.Router.Types.{ProviderEndpoint}
use jetedge_agent.Config.Types.{QueueConfig, LlmConfig, ControlConfig}
use jetedge_agent.Config.Fields.{Yaml}
use jetedge_agent.Config.Sections.{
  not_empty, in_range, from, provider_rows, load_provider, queue_rows, load_queue,
  circuit_breaker_rows, load_circuit_breaker, load_routing, llm_rows, load_llm, control_rows,
  load_control,
}
use jetedge_agent.Config.Triples.{Takes, steps-Chain, inside, takes_any}

pub record ProviderRanges (c : ProviderEndpoint) : Type 0 where
  pub tokens : in_range 1 8192 c.max_tokens ≡ true
  pub timeout : in_range 1 120 c.timeout_sec ≡ true
  pub retries : in_range 0 5 c.max_retries ≡ true

pub record QueueRanges (c : QueueConfig) : Type 0 where
  pub size : in_range 1 256 c.max_size ≡ true
  pub threads : in_range 1 8 c.worker_threads ≡ true

pub record BreakerRanges (c : Config) : Type 0 where
  pub failure : 1 ≤ c.failure_threshold
  pub timeout : 1 ≤ c.reset_timeout_sec
  pub success : 1 ≤ c.half_open_success_threshold

pub record LlmRanges (c : LlmConfig) : Type 0 where
  pub qwen : ProviderRanges c.qwen
  pub deepseek : ProviderRanges c.deepseek
  pub queue : QueueRanges c.queue
  pub breaker : BreakerRanges c.circuit_breaker
  pub interval : from 0 c.deepseek_interval_sec ≡ true

pub record ControlRanges (c : ControlConfig) : Type 0 where
  pub port : in_range 1 65_535 c.port ≡ true
  pub max_body : (256 ≤ c.max_body_bytes) × (c.max_body_bytes ≤ 1_048_576)
  pub timeout : in_range 100 60_000 c.read_timeout_ms ≡ true
  pub interval : in_range 1 60 c.max_infer_interval ≡ true
  pub restart : in_range 0 600_000 c.restart_min_interval_ms ≡ true
  pub snapshots : in_range 1 1000 c.max_snapshots ≡ true
  pub min_duration : in_range 1 3600 c.benchmark_min_duration_s ≡ true
  pub max_duration : in_range 1 3600 c.benchmark_max_duration_s ≡ true
  pub default_duration : in_range 1 3600 c.benchmark_default_duration_s ≡ true
  pub state_dir : not_empty c.state_dir ≡ true
  pub dashboard : not_empty c.dashboard_file ≡ true

pub record IsControl (c : ControlConfig) : Type 0 where
  pub ranges : ControlRanges c
  pub order : ltb_ℤ c.benchmark_min_duration_s c.benchmark_max_duration_s ≡ true

module _ {N D : Type 0} (y : Yaml N D) where
  load_provider-ProviderRanges : Takes ProviderRanges (load_provider y) ProviderRanges
  unfolding load_provider provider_rows
  load_provider-ProviderRanges = steps-Chain y ProviderRanges ProviderRanges (provider_rows y) (
    (λ a c t p. ground arith),
    (
      (λ a c t p. ground arith),
      (
        (λ a c t p. ground arith),
        ((λ a c t p. ground arith), ((λ a c t p. ground arith), ((λ a c t p. ground arith), refl))),
      ),
    ),
  )

  load_queue-QueueRanges : Takes QueueRanges (load_queue y) QueueRanges
  unfolding load_queue queue_rows
  load_queue-QueueRanges =
      steps-Chain y QueueRanges QueueRanges (queue_rows y)
        ((λ a c t p. ground arith), ((λ a c t p. ground arith), refl))

  load_circuit_breaker-BreakerRanges : Takes BreakerRanges (load_circuit_breaker y) BreakerRanges
  unfolding load_circuit_breaker circuit_breaker_rows
  load_circuit_breaker-BreakerRanges =
      steps-Chain y BreakerRanges BreakerRanges (circuit_breaker_rows y)
        ((λ a c t p. ground arith), ((λ a c t p. ground arith), ((λ a c t p. ground arith), refl)))

  pub load_llm-LlmRanges : Takes LlmRanges (load_llm y) LlmRanges
  unfolding load_llm llm_rows
  load_llm-LlmRanges =
      let P = LlmRanges in
      steps-Chain y LlmRanges LlmRanges (llm_rows y) (
        (λ a c t p. ground arith),
        (
          (λ a c t p. ground arith),
          (
            (λ a c t p. ground arith),
            (
              (λ a c t p. ground arith),
              (
                inside y P ProviderRanges _ _ _ _ (λ e p. p.qwen) (λ v e i p. ground arith)
                    load_provider-ProviderRanges,
                (
                  inside y P ProviderRanges _ _ _ _ (λ e p. p.deepseek) (λ v e i p. ground arith)
                      load_provider-ProviderRanges,
                  (
                    inside y P QueueRanges _ _ _ _ (λ e p. p.queue) (λ v e i p. ground arith)
                        load_queue-QueueRanges,
                    (
                      inside y P BreakerRanges _ _ _ _ (λ e p. p.breaker) (λ v e i p. ground arith)
                          load_circuit_breaker-BreakerRanges,
                      (
                        inside y P (λ c. Unit) _ _ _ _ (λ e p. tt) (λ v e i p. ground arith)
                            (takes_any (load_routing y)),
                        refl,
                      ),
                    ),
                  ),
                ),
              ),
            ),
          ),
        ),
      )

  pub load_control-IsControl : Takes ControlRanges (load_control y) IsControl
  unfolding load_control control_rows
  load_control-IsControl = steps-Chain y ControlRanges IsControl (control_rows y) (
    (λ a c t p. ground arith),
    (
      (λ a c t p. ground arith),
      (
        (λ a c t p. ground arith),
        (
          (λ a c t p. ground arith),
          (
            (λ a c t p. ground arith),
            (
              (λ a c t p. ground arith),
              (
                (λ a c t p. ground arith),
                (
                  (λ a c t p. ground arith),
                  (
                    (λ a c t p. ground arith),
                    (
                      (λ a c t p. ground arith),
                      (
                        (λ a c t p. ground arith),
                        (
                          (λ a c t p. ground arith),
                          (
                            (λ a c t p. ground arith),
                            (
                              (λ a c t p. ground arith),
                              (IsControl, ((λ c t p. record { ranges = p; order = t }), refl)),
                            ),
                          ),
                        ),
                      ),
                    ),
                  ),
                ),
              ),
            ),
          ),
        ),
      ),
    ),
  )
