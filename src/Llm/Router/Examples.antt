-- ===== src/Llm/Router/Examples.antt =====
-- A router that sends zone entries to one endpoint, with two workers' calls out at once.
use Prim.Native.String.{String}
use jetedge_agent.Prelude.{◌+◌, ◌&&◌, not, if◌then◌else◌, ◌≡◌, true, false, List, [], ◌∷◌, arith}
use jetedge_agent.Prelude.Int.{ℤ, pos}
use jetedge_agent.Prelude.Doubles.{whole}
use jetedge_agent.Events.Types.{EventRecord, appearance, zone_entry}
use jetedge_agent.Llm.Breaker.{Config}
use jetedge_agent.Llm.Breaker.Invariant.{IsPositive}
use jetedge_agent.Llm.Router.Types.{LlmConfig, ProviderEndpoint, HttpResponse, Services}
use jetedge_agent.Llm.Router.State.{LlmRouter, init}
use jetedge_agent.Llm.Router.Submit.{enqueue_event}
use jetedge_agent.Llm.Router.Histories.{
  RouterCall, starts, stops, closes, routes, analyses, works, finishes, counts, writes, router_run,
}
use jetedge_agent.Llm.Router.Accounting.{AddsUp, router_run-init-AddsUp}
use jetedge_agent.Llm.Router.Breakers.{AreValid, router_run-init-AreValid}
use jetedge_agent.Llm.Router.Lines.{AreRecorded, router_run-init-AreRecorded}
use jetedge_agent.Llm.Router.Answers.{is_wanted, enqueue_event_answer}

abbrev endpoint_at : String → ProviderEndpoint
endpoint_at url = record {
  endpoint = url;
  model = "vl";
  max_tokens = pos 512;
  timeout_sec = pos 20;
  max_retries = pos 2;
  thinking_mode = false;
}

abbrev breaker_config : Config
breaker_config = record {
  failure_threshold = 1;
  reset_timeout_sec = 30;
  half_open_success_threshold = 2;
}

abbrev config : LlmConfig
config = record {
  enable = true;
  keyframe_dir = "frames";
  qwen = endpoint_at "https://qwen";
  deepseek = endpoint_at "";
  max_size = pos 8;
  circuit_breaker = breaker_config;
  routing = record {
    appearance_to_qwen = false;
    disappearance_to_qwen = false;
    zone_entry_to_qwen = true;
    count_high_to_qwen = false;
  };
}

abbrev services : Services whole
services = record {
  build_qwen_prompt = λ e names has_image. "look";
  build_deepseek_metrics_prompt = λ s. s;
  deepseek_system_message = "be brief";
  build_qwen_body = λ model prompt paths n thinking. prompt;
  build_deepseek_body = λ model prompt system n thinking. prompt;
  extract_content = λ s. (true, s);
  validate_review_json = λ s. true;
  strip_markdown_fence = λ s. s;
  api_key = λ p. "key";
  to_string = λ n. "500";
}

abbrev entered : EventRecord whole
entered = record {
  type = zone_entry;
  stream_idx = pos 0;
  frame_num = 7;
  ts_ms = 70;
  track_id = 1;
  class_id = pos 0;
  box = record { confidence = 1; left = 1; top = 1; width = 2; height = 2 };
  count = 0;
  zone = "door";
}

abbrev reply : ℤ → HttpResponse
reply status = record { success = true; status_code = status; body = "{}"; error = "" }

-- Two requests go out, one succeeds, one fails and opens the breaker; they are counted in the other
-- order, one line is written, and a third request is skipped.
abbrev history : List (RouterCall whole)
history =
    starts
    ∷ routes services entered "a.jpg"
    ∷ routes services entered "b.jpg"
    ∷ routes services (record entered { type = appearance }) "c.jpg"
    ∷ analyses 5 "{}"
    ∷ works services 10 11
    ∷ works services 12 13
    ∷ finishes services 20 (reply (pos 200)) 1
    ∷ finishes services 22 (reply (pos 500)) 0
    ∷ counts 1
    ∷ counts 0
    ∷ writes 23 true 1
    ∷ routes services entered "d.jpg"
    ∷ works services 24 25
    ∷ stops
    ∷ closes
    ∷ []

abbrev router : LlmRouter
router = init config ("cam" ∷ []) [] true

router_run-init-AddsUp_example : AddsUp 0 (router_run history router)
router_run-init-AddsUp_example = router_run-init-AddsUp config ("cam" ∷ []) [] true history

breaker_config-IsPositive : IsPositive breaker_config
breaker_config-IsPositive = record { failure = omega arith; success = omega arith }

router_run-init-AreValid_example : AreValid breaker_config (router_run history router)
router_run-init-AreValid_example =
    router_run-init-AreValid config ("cam" ∷ []) [] true history breaker_config-IsPositive

router_run-init-AreRecorded_example : AreRecorded (router_run history router)
router_run-init-AreRecorded_example =
    router_run-init-AreRecorded config ("cam" ∷ []) [] true history

enqueue_event_answer_example :
    let (r', said) = enqueue_event services entered "a.jpg" router in
    (said ≡ is_wanted router entered.type && not router.queue.shut)
    × (r'.stats.shed ≡ (
        if is_wanted router entered.type && router.queue.shut
        then router.stats.shed + 1
        else router.stats.shed))
enqueue_event_answer_example = enqueue_event_answer services entered "a.jpg" router
