-- ===== src/Llm/Router/Submit.antt =====
-- src/llm/llm_router.cpp: `route_event` and the two `enqueue_…` functions, each as one step.
use Prim.Native.String.{String, ◌++◌ as append_text}
use text.Mathlib.Text.{◌==◌ as str_eq}
use jetedge_agent.Prelude.{
  ℕ, ◌+◌, Bool, true, false, ◌||◌, ◌&&◌, not, if◌then◌else◌, List, [], ◌∷◌, Option, none, some,
}
use jetedge_agent.Prelude.Int.{negsuc}
use jetedge_agent.Prelude.Doubles.{Doubles}
use jetedge_agent.Events.Types.{
  EventType, appearance, disappearance, count_high, count_exit, zone_entry, EventRecord,
}
use jetedge_agent.Llm.Queue.{RequestPriority, high, normal, low, enqueue}
use jetedge_agent.Llm.Router.Types.{qwen, deepseek, LlmRequest, RoutingConfig, LlmConfig, Services}
use jetedge_agent.Llm.Router.State.{LlmRouter}

abbrev pub event_type_str : EventType → String
event_type_str appearance = "appearance"
event_type_str disappearance = "disappearance"
event_type_str count_high = "count_high"
event_type_str count_exit = "count_exit"
event_type_str zone_entry = "zone_entry"

-- The `switch` of `route_event`: whether the event is routed, and how urgent it is; `none` is the
-- `default`.
abbrev pub route_of : RoutingConfig → EventType → Option (Bool × RequestPriority)
route_of c appearance = some (c.appearance_to_qwen, normal)
route_of c disappearance = some (c.disappearance_to_qwen, normal)
route_of c zone_entry = some (c.zone_entry_to_qwen, high)
route_of c count_high = some (c.count_high_to_qwen, high)
route_of c count_exit = none

abbrev pub keyframe_paths : LlmConfig → String → List String
keyframe_paths c name =
    if not (str_eq c.keyframe_dir "") && not (str_eq name "")
    then append_text c.keyframe_dir (append_text "/" name) ∷ []
    else []

-- The end of both `enqueue_…` functions: count the request, and put it in the queue.
unfoldable pub submit : LlmRequest → LlmRouter → LlmRouter × Bool
submit req r =
    let (q, accepted) = enqueue req req.priority r.queue in
    (
      record r {
        request_seq = r.request_seq + 1;
        queue = q;
        stats = record r.stats {
          enqueued = r.stats.enqueued + 1;
          shed = if accepted then r.stats.shed else r.stats.shed + 1;
        };
      },
      accepted,
    )

module _ {d : Doubles} where
  abbrev pub event_request :
      Services d → LlmRouter → RequestPriority → EventRecord d → String → LlmRequest
  event_request v r priority e name =
      let paths = keyframe_paths r.config name in
      record {
        provider = qwen;
        priority = priority;
        request_id = r.request_seq;
        prompt = v.build_qwen_prompt e r.class_names (elim paths [ [] ↦ false | _ ∷ _ ↦ true ]);
        image_paths = paths;
        event_type = event_type_str e.type;
        stream_idx = e.stream_idx;
        orig_ts_ms = e.ts_ms;
        metrics_json = "";
      }

  -- The request of `route_event`, if it returns true; the router takes the sequence number then.
  unfoldable pub route_event : Services d → EventRecord d → String → LlmRouter → Option LlmRequest
  route_event v e name r = elim (route_of r.config.routing e.type) [
    | none ↦ none
    | some (route, priority) ↦
        if not route || str_eq r.config.qwen.endpoint ""
        then none
        else some (event_request v r priority e name)
  ]

  unfoldable pub enqueue_event : Services d → EventRecord d → String → LlmRouter → LlmRouter × Bool
  unfolding route_event submit
  enqueue_event v e name r =
      if not r.config.enable
      then (r, false)
      else (elim (route_event v e name r) [ none ↦ (r, false) | some req ↦ submit req r ])

unfoldable pub enqueue_metrics_analysis : ℕ → String → LlmRouter → LlmRouter × Bool
unfolding submit
enqueue_metrics_analysis now_ms metrics_json r =
    if not r.config.enable || str_eq r.config.deepseek.endpoint ""
    then (r, false)
    else submit
        (record {
          provider = deepseek;
          priority = low;
          request_id = r.request_seq;
          prompt = "";
          image_paths = [];
          event_type = "metrics";
          stream_idx = negsuc 0;
          orig_ts_ms = now_ms;
          metrics_json = metrics_json;
        })
        r
