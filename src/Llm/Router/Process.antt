-- ===== src/Llm/Router/Process.antt =====
-- src/llm/llm_router.cpp: the workers. `process_request` is four steps, between which other threads
-- take theirs: up to the HTTP call, then the breaker, the counters and the file, each under a lock of
-- its own.
use Prim.Native.String.{String, ◌++◌ as append_text}
use text.Mathlib.Text.{◌==◌ as str_eq}
use jetedge_agent.Prelude.{
  false, ℕ, zero, suc, ◌+◌, ◌-◌, ◌/◌, Bool, ◌||◌, ◌&&◌, not, if◌then◌else◌, List, [], ◌∷◌, ◌++◌,
  Option, none, some, get_elem?,
}
use jetedge_agent.Prelude.Int.{ℤ, pos, negsuc, eqb_ℤ}
use jetedge_agent.Prelude.Doubles.{Doubles}
use jetedge_agent.Llm.Breaker.{Breaker, allow_request, record_success, record_failure}
use jetedge_agent.Llm.Queue.{dequeue}
use jetedge_agent.Llm.Router.Types.{
  LlmProvider, qwen, deepseek, llm_provider_str, LlmRequest, LlmResponse, ProviderEndpoint,
  LlmConfig, HttpResponse, Services,
}
use jetedge_agent.Llm.Router.State.{LlmRouter}

-- `stream_id_at`
abbrev pub stream_id_at : List String → ℤ → String
stream_id_at ids (negsuc i) = "unknown"
stream_id_at ids (pos i) = elim (get_elem? ids i) [ none ↦ "unknown" | some id ↦ id ]

abbrev pub breaker_of : LlmProvider → LlmRouter → Breaker
breaker_of qwen r = r.cb_qwen
breaker_of deepseek r = r.cb_deepseek

abbrev pub set_breaker : LlmProvider → Breaker → LlmRouter → LlmRouter
set_breaker p b r = record r {
  cb_qwen = elim p [ qwen ↦ b | deepseek ↦ r.cb_qwen ];
  cb_deepseek = elim p [ qwen ↦ r.cb_deepseek | deepseek ↦ b ];
}

abbrev pub endpoint_of : LlmProvider → LlmConfig → ProviderEndpoint
endpoint_of qwen c = c.qwen
endpoint_of deepseek c = c.deepseek

-- `written` is whether the file takes the whole line.
abbrev pub write_cloud_result : ℕ → Bool → LlmRequest → LlmResponse → LlmRouter → LlmRouter
write_cloud_result now_ms written req resp r =
    if not r.is_open
    then r
    else if not (r.file_good && written)
    then record r { file_good = false }
    else record r {
      lines =
          r.lines
          ++ (record {
            ts_ms = now_ms;
            request_id = req.request_id;
            orig_ts_ms = req.orig_ts_ms;
            event_type = req.event_type;
            stream_id = stream_id_at r.stream_ids req.stream_idx;
            provider = llm_provider_str resp.provider;
            success = resp.success;
            http_status = resp.http_status;
            latency_ms = resp.latency_ms;
            result_json = resp.result_json;
            error = resp.error;
          }
              ∷ []);
    }

-- The `i`-th of the requests at a step goes on.
unfoldable pub returned : {A : Type 0} → ℕ → List A → Option A × List A
returned i [] = (none, [])
returned zero (x ∷ xs) = (some x, xs)
returned (suc i) (x ∷ xs) = let (y, ys) = returned i xs in (y, x ∷ ys)

-- `++stats_.succeeded` or `++stats_.failed`.
unfoldable pub count_outcome : LlmRequest × LlmResponse → LlmRouter → LlmRouter
count_outcome (req, result) r = record r {
  stats = record r.stats {
    succeeded = if result.success then r.stats.succeeded + 1 else r.stats.succeeded;
    failed = if result.success then r.stats.failed else r.stats.failed + 1;
  };
  unwritten = r.unwritten ++ ((req, result) ∷ []);
}

unfoldable pub count_one : ℕ → LlmRouter → LlmRouter
unfolding returned count_outcome
count_one i r =
    let (found, rest) = returned i r.judged in
    elim found [ none ↦ r | some x ↦ count_outcome x (record r { judged = rest }) ]

unfoldable pub write_one : ℕ → Bool → ℕ → LlmRouter → LlmRouter
unfolding returned
write_one now_ms written i r =
    let (found, rest) = returned i r.unwritten in
    elim found [
      | none ↦ r
      | some (req, result) ↦
          write_cloud_result now_ms written req result (record r { unwritten = rest })
    ]

module _ {d : Doubles} where
  abbrev pub body_of : Services d → ProviderEndpoint → LlmRequest → String
  body_of v ep req = elim req.provider [
    | qwen ↦ v.build_qwen_body ep.model req.prompt req.image_paths ep.max_tokens ep.thinking_mode
    | deepseek ↦
        let prompt =
          if str_eq req.metrics_json ""
          then req.prompt
          else v.build_deepseek_metrics_prompt req.metrics_json in
        v.build_deepseek_body ep.model prompt v.deepseek_system_message ep.max_tokens
          ep.thinking_mode
  ]

  -- `process_request` up to the call: the breaker's gate, the early returns, and `++stats_.sent`.
  -- `now` and `started` are the steady clock at the gate and before the call.
  unfoldable pub send : Services d → ℕ → ℕ → LlmRequest → LlmRouter → LlmRouter
  send v now started req r =
      let (b, allowed) = allow_request r.config.circuit_breaker now (breaker_of req.provider r) in
      let r' = set_breaker req.provider b r in
      let ep = endpoint_of req.provider r.config in
      if not allowed
      then record r' {
        stats = record r.stats { skipped_circuit_open = r.stats.skipped_circuit_open + 1 };
      }
      else if str_eq ep.endpoint ""
          || str_eq (v.api_key req.provider) ""
          || str_eq (body_of v ep req) ""
      then r'
      else record r' {
        stats = record r.stats { sent = r.stats.sent + 1 };
        in_flight = r.in_flight ++ ((req, started) ∷ []);
      }

  -- One round of `worker_loop`.
  unfoldable pub work : Services d → ℕ → ℕ → LlmRouter → LlmRouter
  unfolding send
  work v now started r =
      if not r.running
      then r
      else (let (q, item) = dequeue r.queue in
          elim item [
            | none ↦ record r { queue = q }
            | some req ↦ send v now started req (record r { queue = q })
          ])

  -- The response is HTTP 200 with content of the expected form.
  unfoldable pub is_reviewed : Services d → HttpResponse → Bool
  is_reviewed v resp =
      let (extracted, content) = v.extract_content resp.body in
      (resp.success && eqb_ℤ resp.status_code (pos 200))
      && (extracted && v.validate_review_json content)

  abbrev pub error_text : Services d → HttpResponse → String
  error_text v resp =
      if resp.success && eqb_ℤ resp.status_code (pos 200)
      then "schema validation failed: content is not the expected JSON"
      else if str_eq resp.error ""
      then append_text "HTTP " (v.to_string resp.status_code)
      else resp.error

  abbrev pub result_of : Services d → ℕ → ℕ → LlmRequest → HttpResponse → LlmResponse
  unfolding is_reviewed
  result_of v started now req resp = record {
    provider = req.provider;
    success = is_reviewed v resp;
    http_status = resp.status_code;
    latency_ms = (now - started) / 1_000_000;
    result_json =
        if is_reviewed v resp then v.strip_markdown_fence (v.extract_content resp.body).1 else "";
    error = if is_reviewed v resp then "" else error_text v resp;
    request_id = req.request_id;
    event_type = req.event_type;
    stream_idx = req.stream_idx;
    orig_ts_ms = req.orig_ts_ms;
  }

  -- `process_request` after the call, up to the breaker.
  unfoldable pub settle : Services d → ℕ → HttpResponse → LlmRequest × ℕ → LlmRouter → LlmRouter
  unfolding is_reviewed
  settle v now resp (req, started) r =
      let b = breaker_of req.provider r in
      let b' =
        if is_reviewed v resp
        then record_success r.config.circuit_breaker b
        else record_failure r.config.circuit_breaker now b in
      record (set_breaker req.provider b' r) {
        judged = r.judged ++ ((req, result_of v started now req resp) ∷ []);
      }

  unfoldable pub finish : Services d → ℕ → HttpResponse → ℕ → LlmRouter → LlmRouter
  finish v now resp i r =
      let (found, rest) = returned i r.in_flight in
      elim found [ none ↦ r | some x ↦ settle v now resp x (record r { in_flight = rest }) ]
