-- ===== src/Config/Rules.antt =====
-- The sections of `load_streams_config` with floating-point members: events, RTSP, scheduler. `literal`
-- gives the value of a decimal literal, from its tenths.
use Prim.Native.String.{String}
use text.Mathlib.Text.{◌==◌ as str_eq}
use jetedge_agent.Prelude.{
  ℕ, ◌*◌, Bool, ◌||◌, not, if◌then◌else◌, List, [], ◌∷◌, ◌++◌, Option, none, some,
}
use jetedge_agent.Prelude.Int.{pos, ltb_ℤ, pos_part}
use jetedge_agent.Prelude.Doubles.{Doubles}
use jetedge_agent.Events.Types.{ZoneRule}
use jetedge_agent.Scheduler.Policy.{SchedulerConfig}
use jetedge_agent.Config.Types.{EventsConfig, RtspConfig}
use jetedge_agent.Config.Fields.{Yaml, Step, field, require, call, steps, part}
use jetedge_agent.Config.Sections.{any, in_range, from, not_empty}

abbrev pub is_transport : String → Bool
is_transport t = str_eq t "tcp" || (str_eq t "udp" || str_eq t "auto")

module _ {N : Type 0} (d : Doubles) (literal : ℕ → d.Double) (y : Yaml N d.Double) where
  -- The conversions of the four numbers of a rectangle, of which two must be above 0.
  unfoldable pub load_rect : String → String → N → N → N → N → Option (ZoneRule d)
  load_rect name stream_id a b e f = elim (y.as_double a) [
    | none ↦ none
    | some left ↦ elim (y.as_double b) [
      | none ↦ none
      | some top ↦ elim (y.as_double e) [
        | none ↦ none
        | some width ↦ elim (y.as_double f) [
          | none ↦ none
          | some height ↦
              if d.leb width d.zero_ || d.leb height d.zero_
              then none
              else some (record {
                name = name;
                stream_id = stream_id;
                left = left;
                top = top;
                width = width;
                height = height;
              })
        ]
      ]
    ]
  ]

  unfoldable pub four : List N → (N → N → N → N → Option (ZoneRule d)) → Option (ZoneRule d)
  four (a ∷ b ∷ e ∷ f ∷ []) k = k a b e f
  four _ k = none

  -- A text that may be missing.
  unfoldable pub text_or : String → String → N → Option String
  text_or key default n = elim (y.member n key) [ none ↦ some default | some v ↦ y.as_text v ]

  unfoldable pub load_zone : N → Option (ZoneRule d)
  unfolding load_rect four text_or
  load_zone z = elim (y.member z "name") [
    | none ↦ none
    | some n ↦ elim (y.as_text n) [
      | none ↦ none
      | some name ↦ if not (not_empty name) then none else elim (text_or "stream_id" "" z) [
        | none ↦ none
        | some stream_id ↦ elim (y.member z "rect") [
          | none ↦ none
          | some rect ↦ four (y.items rect) (load_rect name stream_id)
        ]
      ]
    ]
  ]

  -- The loops over the classes and over the zones.
  unfoldable pub add_classes : List N → EventsConfig d → Option (EventsConfig d)
  add_classes [] c = some c
  add_classes (n ∷ ns) c = elim (y.as_int n) [
    | none ↦ none
    | some v ↦
        if not (from 0 v)
        then none
        else add_classes ns (record c { classes = c.classes ++ (v ∷ []) })
  ]

  unfoldable pub add_zones : List N → EventsConfig d → Option (EventsConfig d)
  unfolding load_zone
  add_zones [] c = some c
  add_zones (n ∷ ns) c = elim (load_zone n) [
    | none ↦ none
    | some zone ↦ add_zones ns (record c { zones = c.zones ++ (zone ∷ []) })
  ]

  -- The hysteresis is tested against the threshold that is set by then.
  unfoldable pub load_hysteresis : N → EventsConfig d → Option (EventsConfig d)
  load_hysteresis n c = elim (y.as_int n) [
    | none ↦ none
    | some v ↦
        if ltb_ℤ v (pos 0) || not (ltb_ℤ v c.count_threshold)
        then none
        else some (record c { count_hysteresis = v })
  ]

  unfoldable pub events_rows : List (Step N (EventsConfig d))
  unfolding add_classes add_zones load_hysteresis
  events_rows =
      field "enable" y.as_bool any (λ v c. record c { enable = v })
      ∷ field "jsonl_path" y.as_text any (λ v c. record c { jsonl_path = v })
      ∷ field "keyframe_dir" y.as_text any (λ v c. record c { keyframe_dir = v })
      ∷ field "max_keyframes" y.as_int (from 0) (λ v c. record c { max_keyframes = v })
      ∷ field "jpeg_quality" y.as_int (in_range 1 100) (λ v c. record c { jpeg_quality = v })
      ∷ field "disappear_grace_frames" y.as_int (from 0)
          (λ v c. record c { disappear_grace_frames = pos_part v })
      ∷ field "count_threshold" y.as_int (from 1) (λ v c. record c { count_threshold = v })
      ∷ call (part y "count_hysteresis" load_hysteresis)
      ∷ call (part y "classes" (λ n. add_classes (y.items n)))
      ∷ call (part y "zones" (λ n. add_zones (y.items n)))
      ∷ []

  unfoldable pub load_events : N → EventsConfig d → Option (EventsConfig d)
  load_events = steps y events_rows

  unfoldable pub rtsp_rows : List (Step N (RtspConfig d))
  rtsp_rows =
      field "enable" y.as_bool any (λ v c. record c { enable = v })
      ∷ field "live_source" y.as_bool any (λ v c. record c { live_source = v })
      ∷ field "watch_timeout_sec" y.as_int (in_range 1 60)
          (λ v c. record c { watch_timeout_sec = v })
      ∷ field "first_frame_timeout_sec" y.as_int (in_range 1 120)
          (λ v c. record c { first_frame_timeout_sec = v })
      ∷ field "max_retries" y.as_int (in_range 1 20) (λ v c. record c { max_retries = v })
      ∷ field "backoff_base_ms" y.as_int (in_range 100 60_000)
          (λ v c. record c { backoff_base_ms = v })
      ∷ field "backoff_max_ms" y.as_int (in_range 100 600_000)
          (λ v c. record c { backoff_max_ms = v })
      ∷ require (λ (c : RtspConfig d). not (ltb_ℤ c.backoff_max_ms c.backoff_base_ms))
      ∷ field "verify_sec" y.as_int (in_range 1 60) (λ v c. record c { verify_sec = v })
      ∷ field "min_fps" y.as_double (λ v. not (d.leb v (literal 0) || d.ltb (literal 600) v))
          (λ v c. record c { min_fps = v })
      ∷ field "rtspsrc_latency_ms" y.as_int (in_range 0 10_000)
          (λ v c. record c { rtspsrc_latency_ms = v })
      ∷ field "transport" y.as_text is_transport (λ v c. record c { transport = v })
      ∷ []

  unfoldable pub load_rtsp : N → RtspConfig d → Option (RtspConfig d)
  load_rtsp = steps y rtsp_rows

  -- `!(v <= 0.0 || v >= 100.0)` and `!(v < 30.0 || v > 125.0)`
  abbrev pub percent : d.Double → Bool
  percent v = not (d.leb v (literal 0) || d.leb (literal 1000) v)

  abbrev pub degrees : d.Double → Bool
  degrees v = not (d.ltb v (literal 300) || d.ltb (literal 1250) v)

  unfoldable pub scheduler_rows : List (Step N (SchedulerConfig d))
  scheduler_rows =
      field "enable" y.as_bool any (λ v c. record c { enable = v })
      ∷ field "sample_interval_sec" y.as_int (in_range 1 60)
          (λ v c. record c { sample_interval_sec = pos_part v })
      ∷ field "pressure_cpu_enter" y.as_double percent (λ v c. record c { pressure_cpu_enter = v })
      ∷ field "pressure_cpu_exit" y.as_double percent (λ v c. record c { pressure_cpu_exit = v })
      ∷ require (λ (c : SchedulerConfig d). not (d.leb c.pressure_cpu_enter c.pressure_cpu_exit))
      ∷ field "thermal_temp_enter" y.as_double degrees (λ v c. record c { thermal_temp_enter = v })
      ∷ field "thermal_temp_exit" y.as_double degrees (λ v c. record c { thermal_temp_exit = v })
      ∷ require (λ (c : SchedulerConfig d). not (d.leb c.thermal_temp_enter c.thermal_temp_exit))
      ∷ field "critical_temp_enter" y.as_double degrees
          (λ v c. record c { critical_temp_enter = v })
      ∷ field "critical_temp_exit" y.as_double degrees (λ v c. record c { critical_temp_exit = v })
      ∷ require (λ (c : SchedulerConfig d). not (d.leb c.critical_temp_enter c.critical_temp_exit))
      ∷ require (λ (c : SchedulerConfig d). not (d.leb c.critical_temp_enter c.thermal_temp_enter))
      ∷ field "min_hold_sec" y.as_int (in_range 0 600)
          (λ v c. record c { min_hold_ms = pos_part v * 1000 })
      ∷ field "cooldown_sec" y.as_int (in_range 0 600)
          (λ v c. record c { cooldown_ms = pos_part v * 1000 })
      ∷ field "max_adjustments_per_window" y.as_int (in_range 0 10)
          (λ v c. record c { max_adjustments_per_window = pos_part v })
      ∷ field "adjust_window_sec" y.as_int (in_range 10 3600)
          (λ v c. record c { adjust_window_ms = pos_part v * 1000 })
      ∷ []

  unfoldable pub load_scheduler : N → SchedulerConfig d → Option (SchedulerConfig d)
  load_scheduler = steps y scheduler_rows
