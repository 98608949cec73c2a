-- ===== src/Llm/Router/Types.antt =====
-- include/jetedge/llm/llm_types.h and llm_config.h: what the router handles, with `HttpResponse` of
-- http_client.h and the line that `write_cloud_result` writes.
use Prim.Native.String.{String}
use jetedge_agent.Prelude.{ℕ, Bool, List}
use jetedge_agent.Prelude.Int.{ℤ}
use jetedge_agent.Prelude.Doubles.{Doubles}
use jetedge_agent.Events.Types.{EventRecord}
use jetedge_agent.Llm.Queue.{RequestPriority}
use jetedge_agent.Llm.Breaker.{Config}

pub data LlmProvider : Type 0 where
  qwen deepseek : LlmProvider

abbrev pub llm_provider_str : LlmProvider → String
llm_provider_str qwen = "qwen"
llm_provider_str deepseek = "deepseek"

pub record LlmRequest : Type 0 where
  pub provider : LlmProvider
  pub priority : RequestPriority
  pub request_id : ℕ
  pub prompt : String
  pub image_paths : List String
  pub event_type : String
  pub stream_idx : ℤ
  pub orig_ts_ms : ℕ
  pub metrics_json : String

pub record LlmResponse : Type 0 where
  pub provider : LlmProvider
  pub success : Bool
  pub http_status : ℤ
  pub latency_ms : ℕ
  pub result_json : String
  pub error : String
  pub request_id : ℕ
  pub event_type : String
  pub stream_idx : ℤ
  pub orig_ts_ms : ℕ

pub record CloudAnalysisRecord : Type 0 where
  pub ts_ms : ℕ
  pub request_id : ℕ
  pub orig_ts_ms : ℕ
  pub event_type : String
  pub stream_id : String
  pub provider : String
  pub success : Bool
  pub http_status : ℤ
  pub latency_ms : ℕ
  pub result_json : String
  pub error : String

pub record ProviderEndpoint : Type 0 where
  pub endpoint : String
  pub model : String
  pub max_tokens : ℤ
  pub timeout_sec : ℤ
  pub max_retries : ℤ
  pub thinking_mode : Bool

pub record RoutingConfig : Type 0 where
  pub appearance_to_qwen : Bool
  pub disappearance_to_qwen : Bool
  pub zone_entry_to_qwen : Bool
  pub count_high_to_qwen : Bool

pub record LlmConfig : Type 0 where
  pub enable : Bool
  pub keyframe_dir : String
  pub qwen : ProviderEndpoint
  pub deepseek : ProviderEndpoint
  pub max_size : ℤ
  pub circuit_breaker : Config
  pub routing : RoutingConfig

pub record HttpResponse : Type 0 where
  pub success : Bool
  pub status_code : ℤ
  pub body : String
  pub error : String

-- What the router calls: the prompt manager, the keys of common/secrets.h, and `std::to_string`. The
-- prompts read image files, so each step of the router has services of its own.
pub record Services (d : Doubles) : Type 0 where
  pub build_qwen_prompt : EventRecord d → List String → Bool → String
  pub build_deepseek_metrics_prompt : String → String
  pub deepseek_system_message : String
  pub build_qwen_body : String → String → List String → ℤ → Bool → String
  pub build_deepseek_body : String → String → String → ℤ → Bool → String
  pub extract_content : String → Bool × String
  pub validate_review_json : String → Bool
  pub strip_markdown_fence : String → String
  pub api_key : LlmProvider → String
  pub to_string : ℤ → String
