-- ===== src/Config/Sections.antt =====
-- The sections of `load_streams_config` of src/common/config_loader.cpp, one row of steps for each.
use Prim.Native.String.{String}
use text.Mathlib.Text.{◌==◌ as str_eq}
use jetedge_agent.Prelude.{ℕ, Bool, true, ◌||◌, not, List, [], ◌∷◌, Option}
use jetedge_agent.Prelude.Int.{ℤ, pos, ltb_ℤ, pos_part}
use jetedge_agent.Llm.Breaker.{Config}
use jetedge_agent.Llm.Router.Types.{ProviderEndpoint, RoutingConfig}
use jetedge_agent.Config.Types.{
  MuxConfig, InferenceConfig, TrackerConfig, OutputConfig, QueueConfig, LlmConfig, ControlConfig,
}
use jetedge_agent.Config.Fields.{Yaml, Step, field, require, call, steps, part, within}

abbrev pub any {ℓ} : {A : Type ℓ} → A → Bool
any a = true

-- `!(v < lo || v > hi)` and `!(v < lo)`
abbrev pub in_range : ℕ → ℕ → ℤ → Bool
in_range lo hi v = not (ltb_ℤ v (pos lo) || ltb_ℤ (pos hi) v)

abbrev pub from : ℕ → ℤ → Bool
from lo v = not (ltb_ℤ v (pos lo))

abbrev pub not_empty : String → Bool
not_empty s = not (str_eq s "")

module _ {N D : Type 0} (y : Yaml N D) where
  unfoldable pub mux_rows : List (Step N (MuxConfig))
  mux_rows =
      field "output_width" y.as_int any (λ v c. record c { output_width = v })
      ∷ field "output_height" y.as_int any (λ v c. record c { output_height = v })
      ∷ field "batch_timeout_usec" y.as_int any (λ v c. record c { batch_timeout_usec = v })
      ∷ []

  unfoldable pub load_mux : N → MuxConfig → Option MuxConfig
  load_mux = steps y mux_rows

  unfoldable pub inference_rows : List (Step N (InferenceConfig))
  inference_rows =
      field "enable" y.as_bool any (λ v c. record c { enable = v })
      ∷ field "config_file_path" y.as_text any (λ v c. record c { nvinfer_config_path = v })
      ∷ field "gie_unique_id" y.as_int any (λ v c. record c { gie_unique_id = v })
      ∷ []

  unfoldable pub load_inference : N → InferenceConfig → Option InferenceConfig
  load_inference = steps y inference_rows

  unfoldable pub tracker_rows : List (Step N (TrackerConfig))
  tracker_rows =
      field "enable" y.as_bool any (λ v c. record c { enable = v })
      ∷ field "ll_lib_file" y.as_text any (λ v c. record c { ll_lib_file = v })
      ∷ field "ll_config_file" y.as_text any (λ v c. record c { ll_config_file = v })
      ∷ field "width" y.as_int any (λ v c. record c { width = v })
      ∷ field "height" y.as_int any (λ v c. record c { height = v })
      ∷ field "gpu_id" y.as_int any (λ v c. record c { gpu_id = v })
      ∷ []

  unfoldable pub load_tracker : N → TrackerConfig → Option TrackerConfig
  load_tracker = steps y tracker_rows

  unfoldable pub output_rows : List (Step N (OutputConfig))
  output_rows =
      field "jsonl_path" y.as_text any (λ v c. record c { jsonl_path = v })
      ∷ field "labels_file_path" y.as_text any (λ v c. record c { labels_file_path = v })
      ∷ field "fps_report_interval_sec" y.as_int any
          (λ v c. record c { fps_report_interval_sec = v })
      ∷ []

  unfoldable pub load_output : N → OutputConfig → Option OutputConfig
  load_output = steps y output_rows

  unfoldable pub provider_rows : List (Step N (ProviderEndpoint))
  provider_rows =
      field "endpoint" y.as_text any (λ v c. record c { endpoint = v })
      ∷ field "model" y.as_text any (λ v c. record c { model = v })
      ∷ field "max_tokens" y.as_int (in_range 1 8192) (λ v c. record c { max_tokens = v })
      ∷ field "timeout_sec" y.as_int (in_range 1 120) (λ v c. record c { timeout_sec = v })
      ∷ field "max_retries" y.as_int (in_range 0 5) (λ v c. record c { max_retries = v })
      ∷ field "thinking_mode" y.as_bool any (λ v c. record c { thinking_mode = v })
      ∷ []

  unfoldable pub load_provider : N → ProviderEndpoint → Option ProviderEndpoint
  load_provider = steps y provider_rows

  unfoldable pub queue_rows : List (Step N (QueueConfig))
  queue_rows =
      field "max_size" y.as_int (in_range 1 256) (λ v c. record c { max_size = v })
      ∷ field "worker_threads" y.as_int (in_range 1 8) (λ v c. record c { worker_threads = v })
      ∷ []

  unfoldable pub load_queue : N → QueueConfig → Option QueueConfig
  load_queue = steps y queue_rows

  unfoldable pub circuit_breaker_rows : List (Step N (Config))
  circuit_breaker_rows =
      field "failure_threshold" y.as_int (from 1)
        (λ v c. record c { failure_threshold = pos_part v })
      ∷ field "reset_timeout_sec" y.as_int (from 1)
          (λ v c. record c { reset_timeout_sec = pos_part v })
      ∷ field "half_open_success_threshold" y.as_int (from 1)
          (λ v c. record c { half_open_success_threshold = pos_part v })
      ∷ []

  unfoldable pub load_circuit_breaker : N → Config → Option Config
  load_circuit_breaker = steps y circuit_breaker_rows

  unfoldable pub routing_rows : List (Step N (RoutingConfig))
  routing_rows =
      field "appearance_to_qwen" y.as_bool any (λ v c. record c { appearance_to_qwen = v })
      ∷ field "disappearance_to_qwen" y.as_bool any (λ v c. record c { disappearance_to_qwen = v })
      ∷ field "zone_entry_to_qwen" y.as_bool any (λ v c. record c { zone_entry_to_qwen = v })
      ∷ field "count_high_to_qwen" y.as_bool any (λ v c. record c { count_high_to_qwen = v })
      ∷ []

  unfoldable pub load_routing : N → RoutingConfig → Option RoutingConfig
  load_routing = steps y routing_rows

  unfoldable pub llm_rows : List (Step N (LlmConfig))
  unfolding load_provider load_queue load_circuit_breaker load_routing
  llm_rows =
      field "enable" y.as_bool any (λ v c. record c { enable = v })
      ∷ field "keyframe_dir" y.as_text any (λ v c. record c { keyframe_dir = v })
      ∷ field "cloud_output_path" y.as_text any (λ v c. record c { cloud_output_path = v })
      ∷ field "deepseek_interval_sec" y.as_int (from 0)
          (λ v c. record c { deepseek_interval_sec = v })
      ∷ call (
          part y "qwen"
            (within y (λ (c : LlmConfig). c.qwen) (λ v c. record c { qwen = v }) load_provider))
      ∷ call (
          part y "deepseek" (
            within y (λ (c : LlmConfig). c.deepseek) (λ v c. record c { deepseek = v })
              load_provider))
      ∷ call (
          part y "queue"
            (within y (λ (c : LlmConfig). c.queue) (λ v c. record c { queue = v }) load_queue))
      ∷ call (
          part y "circuit_breaker" (
            within y (λ (c : LlmConfig). c.circuit_breaker)
              (λ v c. record c { circuit_breaker = v }) load_circuit_breaker))
      ∷ call (
          part y "routing" (
            within y (λ (c : LlmConfig). c.routing) (λ v c. record c { routing = v }) load_routing))
      ∷ []

  unfoldable pub load_llm : N → LlmConfig → Option LlmConfig
  load_llm = steps y llm_rows

  unfoldable pub control_rows : List (Step N (ControlConfig))
  control_rows =
      field "enable" y.as_bool any (λ v c. record c { enable = v })
      ∷ field "host" y.as_text any (λ v c. record c { host = v })
      ∷ field "port" y.as_int (in_range 1 65_535) (λ v c. record c { port = v })
      ∷ field "state_dir" y.as_text not_empty (λ v c. record c { state_dir = v })
      ∷ field "max_body_bytes" y.as_int (in_range 256 1_048_576)
          (λ v c. record c { max_body_bytes = pos_part v })
      ∷ field "read_timeout_ms" y.as_int (in_range 100 60_000)
          (λ v c. record c { read_timeout_ms = v })
      ∷ field "max_infer_interval" y.as_int (in_range 1 60)
          (λ v c. record c { max_infer_interval = v })
      ∷ field "restart_min_interval_ms" y.as_int (in_range 0 600_000)
          (λ v c. record c { restart_min_interval_ms = v })
      ∷ field "max_snapshots" y.as_int (in_range 1 1000) (λ v c. record c { max_snapshots = v })
      ∷ field "benchmark_min_duration_s" y.as_int (in_range 1 3600)
          (λ v c. record c { benchmark_min_duration_s = v })
      ∷ field "benchmark_max_duration_s" y.as_int (in_range 1 3600)
          (λ v c. record c { benchmark_max_duration_s = v })
      ∷ field "benchmark_default_duration_s" y.as_int (in_range 1 3600)
          (λ v c. record c { benchmark_default_duration_s = v })
      ∷ field "cors" y.as_bool any (λ v c. record c { cors = v })
      ∷ field "dashboard_file" y.as_text not_empty (λ v c. record c { dashboard_file = v })
      ∷ require (λ (c : ControlConfig). ltb_ℤ c.benchmark_min_duration_s c.benchmark_max_duration_s)
      ∷ []

  unfoldable pub load_control : N → ControlConfig → Option ControlConfig
  load_control = steps y control_rows
