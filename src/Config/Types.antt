-- ===== src/Config/Types.antt =====
-- The structs of the configuration, with their defaults: src/include/jetedge/pipeline/stream_config.h,
-- inference/inference_config.h, events/event_types.h, llm/llm_config.h, control/control_config.h,
-- common/config_loader.h. A number that the loader keeps at 0 or above, and that another part reads as
-- such, is a natural number. The value of a decimal literal is given by `literal`, from tenths.
use Prim.Native.String.{String}
use jetedge_agent.Prelude.{ℕ, Bool, true, false, List, []}
use jetedge_agent.Prelude.Int.{ℤ, pos}
use jetedge_agent.Prelude.Doubles.{Doubles}
use jetedge_agent.Llm.Breaker.{Config}
use jetedge_agent.Llm.Router.Types.{ProviderEndpoint, RoutingConfig}
use jetedge_agent.Events.Types.{ZoneRule}
use jetedge_agent.Scheduler.Policy.{SchedulerConfig}
use jetedge_agent.Control.Writes.{StreamPriority}

pub record MuxConfig : Type 0 where
  pub output_width : ℤ
  pub output_height : ℤ
  pub batch_timeout_usec : ℤ

pub record InferenceConfig : Type 0 where
  pub enable : Bool
  pub nvinfer_config_path : String
  pub gie_unique_id : ℤ

pub record TrackerConfig : Type 0 where
  pub enable : Bool
  pub ll_lib_file : String
  pub ll_config_file : String
  pub width : ℤ
  pub height : ℤ
  pub gpu_id : ℤ

pub record OutputConfig : Type 0 where
  pub jsonl_path : String
  pub labels_file_path : String
  pub fps_report_interval_sec : ℤ

pub record QueueConfig : Type 0 where
  pub max_size : ℤ
  pub worker_threads : ℤ

pub record LlmConfig : Type 0 where
  pub enable : Bool
  pub keyframe_dir : String
  pub cloud_output_path : String
  pub qwen : ProviderEndpoint
  pub deepseek : ProviderEndpoint
  pub queue : QueueConfig
  pub circuit_breaker : Config
  pub routing : RoutingConfig
  pub deepseek_interval_sec : ℤ

pub record ControlConfig : Type 0 where
  pub enable : Bool
  pub host : String
  pub port : ℤ
  pub state_dir : String
  pub max_body_bytes : ℕ
  pub read_timeout_ms : ℤ
  pub max_infer_interval : ℤ
  pub restart_min_interval_ms : ℤ
  pub max_snapshots : ℤ
  pub benchmark_min_duration_s : ℤ
  pub benchmark_max_duration_s : ℤ
  pub benchmark_default_duration_s : ℤ
  pub cors : Bool
  pub dashboard_file : String
  pub events_jsonl_path : String
  pub keyframes_dir : String

module _ (d : Doubles) where
  pub record EventsConfig : Type 0 where
    pub enable : Bool
    pub jsonl_path : String
    pub keyframe_dir : String
    pub max_keyframes : ℤ
    pub jpeg_quality : ℤ
    pub disappear_grace_frames : ℕ
    pub count_threshold : ℤ
    pub count_hysteresis : ℤ
    pub classes : List ℤ
    pub zones : List (ZoneRule d)

  pub record RtspConfig : Type 0 where
    pub enable : Bool
    pub live_source : Bool
    pub watch_timeout_sec : ℤ
    pub first_frame_timeout_sec : ℤ
    pub max_retries : ℤ
    pub backoff_base_ms : ℤ
    pub backoff_max_ms : ℤ
    pub verify_sec : ℤ
    pub min_fps : d.Double
    pub rtspsrc_latency_ms : ℤ
    pub transport : String

  pub record StreamConfig : Type 0 where
    pub id : String
    pub type : String
    pub uri : String
    pub priority : StreamPriority
    pub expected_fps : d.Double

  pub record StreamsConfig : Type 0 where
    pub mux : MuxConfig
    pub inference : InferenceConfig
    pub tracker : TrackerConfig
    pub output : OutputConfig
    pub events : EventsConfig
    pub llm : LlmConfig
    pub rtsp : RtspConfig
    pub scheduler : SchedulerConfig d
    pub control : ControlConfig
    pub streams : List StreamConfig

abbrev default_endpoint : ProviderEndpoint
default_endpoint = record {
  endpoint = "";
  model = "";
  max_tokens = pos 512;
  timeout_sec = pos 20;
  max_retries = pos 2;
  thinking_mode = false;
}

abbrev pub default_llm : LlmConfig
default_llm = record {
  enable = false;
  keyframe_dir = "";
  cloud_output_path = "";
  qwen = default_endpoint;
  deepseek = default_endpoint;
  queue = record { max_size = pos 32; worker_threads = pos 1 };
  circuit_breaker = record {
    failure_threshold = 5;
    reset_timeout_sec = 30;
    half_open_success_threshold = 2;
  };
  routing = record {
    appearance_to_qwen = false;
    disappearance_to_qwen = false;
    zone_entry_to_qwen = true;
    count_high_to_qwen = false;
  };
  deepseek_interval_sec = pos 60;
}

abbrev pub default_control : ControlConfig
default_control = record {
  enable = false;
  host = "127.0.0.1";
  port = pos 8080;
  state_dir = "logs/control";
  max_body_bytes = 4096;
  read_timeout_ms = pos 5000;
  max_infer_interval = pos 5;
  restart_min_interval_ms = pos 30_000;
  max_snapshots = pos 32;
  benchmark_min_duration_s = pos 5;
  benchmark_max_duration_s = pos 120;
  benchmark_default_duration_s = pos 60;
  cors = false;
  dashboard_file = "web/dashboard.html";
  events_jsonl_path = "";
  keyframes_dir = "";
}

module _ (d : Doubles) (literal : ℕ → d.Double) where
  abbrev pub default_rtsp : RtspConfig d
  default_rtsp = record {
    enable = false;
    live_source = true;
    watch_timeout_sec = pos 5;
    first_frame_timeout_sec = pos 12;
    max_retries = pos 5;
    backoff_base_ms = pos 1000;
    backoff_max_ms = pos 15_000;
    verify_sec = pos 5;
    min_fps = literal 10;
    rtspsrc_latency_ms = pos 500;
    transport = "auto";
  }

  abbrev pub default_events : EventsConfig d
  default_events = record {
    enable = false;
    jsonl_path = "";
    keyframe_dir = "";
    max_keyframes = pos 100;
    jpeg_quality = pos 85;
    disappear_grace_frames = 15;
    count_threshold = pos 3;
    count_hysteresis = pos 1;
    classes = [];
    zones = [];
  }

  abbrev pub default_scheduler : SchedulerConfig d
  default_scheduler = record {
    enable = false;
    sample_interval_sec = 2;
    pressure_cpu_enter = literal 700;
    pressure_cpu_exit = literal 500;
    thermal_temp_enter = literal 750;
    thermal_temp_exit = literal 700;
    critical_temp_enter = literal 820;
    critical_temp_exit = literal 760;
    min_hold_ms = 15_000;
    cooldown_ms = 30_000;
    max_adjustments_per_window = 2;
    adjust_window_ms = 120_000;
  }

  abbrev pub default_config : StreamsConfig d
  default_config = record {
    mux = record {
      output_width = pos 1920;
      output_height = pos 1080;
      batch_timeout_usec = pos 40_000;
    };
    inference = record { enable = false; nvinfer_config_path = ""; gie_unique_id = pos 1 };
    tracker = record {
      enable = false;
      ll_lib_file = "";
      ll_config_file = "";
      width = pos 960;
      height = pos 544;
      gpu_id = pos 0;
    };
    output = record { jsonl_path = ""; labels_file_path = ""; fps_report_interval_sec = pos 5 };
    events = default_events;
    llm = default_llm;
    rtsp = default_rtsp;
    scheduler = default_scheduler;
    control = default_control;
    streams = [];
  }
