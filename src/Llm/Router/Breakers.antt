-- ===== src/Llm/Router/Breakers.antt =====
-- The router's two circuit breakers are only used through their methods.
use Prim.Native.String.{String}
use text.Mathlib.Text.{◌==◌ as str_eq}
use jetedge_agent.Prelude.{
  ℕ, Bool, true, false, ◌||◌, not, if◌then◌else◌, ◌≡◌, refl, ◌⊎◌, List, [], ◌∷◌, inl, inr,
  Bool-cases, Option-cases, arith,
}
use jetedge_agent.Prelude.Doubles.{Doubles}
use jetedge_agent.Events.Types.{EventRecord}
use jetedge_agent.Llm.Breaker.{Config, Breaker, allow_request, record_success, record_failure}
use jetedge_agent.Llm.Breaker.Invariant.{
  IsValid, IsPositive, init-IsValid, allow_request-IsValid, record_success-IsValid,
  record_failure-IsValid,
}
use jetedge_agent.Llm.Queue.{dequeue}
use jetedge_agent.Llm.Router.Types.{
  LlmProvider, qwen, deepseek, LlmRequest, LlmResponse, LlmConfig, HttpResponse, Services,
}
use jetedge_agent.Llm.Router.State.{LlmRouter, init, start, stop, close_file}
use jetedge_agent.Llm.Router.Submit.{submit, route_event, enqueue_event, enqueue_metrics_analysis}
use jetedge_agent.Llm.Router.Process.{
  send, work, settle, returned, finish, is_reviewed, count_outcome, count_one, write_cloud_result,
  write_one,
}
use jetedge_agent.Llm.Router.Histories.{
  RouterCall, starts, stops, closes, routes, analyses, works, finishes, counts, writes, router_step,
  router_run,
}

pub record AreValid (c : Config) (r : LlmRouter) : Type 0 where
  pub config : r.config.circuit_breaker ≡ c
  pub qwen_valid : IsValid c r.cb_qwen
  pub deepseek_valid : IsValid c r.cb_deepseek

provider-cases : (p : LlmProvider) → (p ≡ qwen) ⊎ (p ≡ deepseek)
provider-cases qwen = inl refl
provider-cases deepseek = inr refl

submit-breakers :
    (req : LlmRequest) (r : LlmRouter)
    → ((submit req r).0.config ≡ r.config)
      × ((submit req r).0.cb_qwen ≡ r.cb_qwen)
      × ((submit req r).0.cb_deepseek ≡ r.cb_deepseek)
unfolding submit
submit-breakers req r = (refl, refl, refl)

module _ {d : Doubles} where
  send_breakers :
      (v : Services d) (now started : ℕ) (req : LlmRequest) (r : LlmRouter)
      → ((send v now started req r).config ≡ r.config)
        × ((send v now started req r).cb_qwen ≡ elim req.provider [
          | qwen ↦ (allow_request r.config.circuit_breaker now r.cb_qwen).0
          | deepseek ↦ r.cb_qwen
        ])
        × ((send v now started req r).cb_deepseek ≡ elim req.provider [
          | qwen ↦ r.cb_deepseek
          | deepseek ↦ (allow_request r.config.circuit_breaker now r.cb_deepseek).0
        ])
  unfolding send
  send_breakers v now started req r = ground arith

  settle_breakers :
      (v : Services d) (now : ℕ) (resp : HttpResponse) (x : LlmRequest × ℕ) (r : LlmRouter)
      → let c = r.config.circuit_breaker in
        let told = λ (b : Breaker).
          if is_reviewed v resp then record_success c b else record_failure c now b in
        ((settle v now resp x r).config ≡ r.config)
        × ((settle v now resp x r).cb_qwen
            ≡ elim x.0.provider [ qwen ↦ told r.cb_qwen | deepseek ↦ r.cb_qwen ])
        × ((settle v now resp x r).cb_deepseek
            ≡ elim x.0.provider [ qwen ↦ r.cb_deepseek | deepseek ↦ told r.cb_deepseek ])
  unfolding settle
  settle_breakers v now resp x r = ground arith

module _ (c : Config) (p : IsPositive c) where
  submit-AreValid : (req : LlmRequest) (r : LlmRouter) → AreValid c r → AreValid c (submit req r).0
  unfolding submit
  submit-AreValid req r a = record {
    config = a.config;
    qwen_valid = a.qwen_valid;
    deepseek_valid = a.deepseek_valid;
  }

  enqueue_metrics_analysis-AreValid :
      (now_ms : ℕ) (metrics_json : String) (r : LlmRouter)
      → AreValid c r
      → AreValid c (enqueue_metrics_analysis now_ms metrics_json r).0
  unfolding enqueue_metrics_analysis
  enqueue_metrics_analysis-AreValid now_ms metrics_json r a =
      elim (Bool-cases (not r.config.enable || str_eq r.config.deepseek.endpoint "")) [
        | inl h ↦ simp h a
        | inr h ↦ simp h (submit-AreValid _ r a)
      ]

  count_one-AreValid : (i : ℕ) (r : LlmRouter) → AreValid c r → AreValid c (count_one i r)
  unfolding count_one count_outcome
  count_one-AreValid i r a = elim (Option-cases (returned i r.judged).0) [
    | inl e ↦ rw (e, count_one) a
    | inr (x, e) ↦
        rw (e, count_one)
          (record {
            config = a.config;
            qwen_valid = a.qwen_valid;
            deepseek_valid = a.deepseek_valid;
          })
  ]

  write_cloud_result-AreValid :
      (now_ms : ℕ) (written : Bool) (req : LlmRequest) (resp : LlmResponse) (r : LlmRouter)
      → AreValid c r
      → AreValid c (write_cloud_result now_ms written req resp r)
  write_cloud_result-AreValid now_ms written req resp r a =
      ground (arith, a.config, a.qwen_valid, a.deepseek_valid)

  write_one-AreValid :
      (now_ms : ℕ) (written : Bool) (i : ℕ) (r : LlmRouter)
      → AreValid c r
      → AreValid c (write_one now_ms written i r)
  unfolding write_one
  write_one-AreValid now_ms written i r a = elim (Option-cases (returned i r.unwritten).0) [
    | inl e ↦ rw (e, write_one) a
    | inr ((req, result), e) ↦
        rw (e, write_one)
          (write_cloud_result-AreValid now_ms written req result
            (record r { unwritten = (returned i r.unwritten).1 })
            (record {
              config = a.config;
              qwen_valid = a.qwen_valid;
              deepseek_valid = a.deepseek_valid;
            }))
  ]

  told-IsValid :
      (reviewed : Bool) (now : ℕ) (b : Breaker)
      → IsValid c b
      → IsValid c (if reviewed then record_success c b else record_failure c now b)
  told-IsValid true now b v = record_success-IsValid c b p v
  told-IsValid false now b v = record_failure-IsValid c now b p v

  module _ {d : Doubles} where
    enqueue_event-AreValid :
        (v : Services d) (e : EventRecord d) (name : String) (r : LlmRouter)
        → AreValid c r
        → AreValid c (enqueue_event v e name r).0
    unfolding enqueue_event
    enqueue_event-AreValid v e name r a = elim (Bool-cases r.config.enable) [
      | inr h ↦ simp h a
      | inl h ↦ simp h (elim (Option-cases (route_event v e name r)) [
        | inl none_routed ↦ simp none_routed a
        | inr (req, routed) ↦ simp routed (submit-AreValid req r a)
      ])
    ]

    send-AreValid :
        (v : Services d) (now started : ℕ) (req : LlmRequest) (r : LlmRouter)
        → AreValid c r
        → AreValid c (send v now started req r)
    send-AreValid v now started req r a =
        let (same, is_qwen, is_deepseek) = send_breakers v now started req r in
        elim (provider-cases req.provider) [
          | inl e ↦ record {
            config = simp (same, a.config) refl;
            qwen_valid =
                simp (is_qwen, e, a.config) (allow_request-IsValid c now r.cb_qwen p a.qwen_valid);
            deepseek_valid = simp (is_deepseek, e) a.deepseek_valid;
          }
          | inr e ↦ record {
            config = simp (same, a.config) refl;
            qwen_valid = simp (is_qwen, e) a.qwen_valid;
            deepseek_valid =
                simp (is_deepseek, e, a.config)
                  (allow_request-IsValid c now r.cb_deepseek p a.deepseek_valid);
          }
        ]

    work-AreValid :
        (v : Services d) (now started : ℕ) (r : LlmRouter)
        → AreValid c r
        → AreValid c (work v now started r)
    unfolding work
    work-AreValid v now started r a = elim (Bool-cases r.running) [
      | inr h ↦ simp h a
      | inl h ↦ simp h (elim (Option-cases (dequeue r.queue).1) [
        | inl e ↦ simp e (record {
          config = a.config;
          qwen_valid = a.qwen_valid;
          deepseek_valid = a.deepseek_valid;
        })
        | inr (req, e) ↦ simp e (
            send-AreValid v now started req _ (record {
              config = a.config;
              qwen_valid = a.qwen_valid;
              deepseek_valid = a.deepseek_valid;
            }))
      ])
    ]

    settle-AreValid :
        (v : Services d) (now : ℕ) (resp : HttpResponse) (x : LlmRequest × ℕ) (r : LlmRouter)
        → AreValid c r
        → AreValid c (settle v now resp x r)
    settle-AreValid v now resp x r a =
        let (same, is_qwen, is_deepseek) = settle_breakers v now resp x r in
        let told = told-IsValid (is_reviewed v resp) now in
        elim (provider-cases x.0.provider) [
          | inl e ↦ record {
            config = simp (same, a.config) refl;
            qwen_valid = simp (is_qwen, e, a.config) (told r.cb_qwen a.qwen_valid);
            deepseek_valid = simp (is_deepseek, e) a.deepseek_valid;
          }
          | inr e ↦ record {
            config = simp (same, a.config) refl;
            qwen_valid = simp (is_qwen, e) a.qwen_valid;
            deepseek_valid = simp (is_deepseek, e, a.config) (told r.cb_deepseek a.deepseek_valid);
          }
        ]

    finish-AreValid :
        (v : Services d) (now : ℕ) (resp : HttpResponse) (i : ℕ) (r : LlmRouter)
        → AreValid c r
        → AreValid c (finish v now resp i r)
    unfolding finish
    finish-AreValid v now resp i r a = elim (Option-cases (returned i r.in_flight).0) [
      | inl e ↦ rw (e, finish) a
      | inr (x, e) ↦
          rw (e, finish)
            (settle-AreValid v now resp x _ (record {
              config = a.config;
              qwen_valid = a.qwen_valid;
              deepseek_valid = a.deepseek_valid;
            }))
    ]

    step-AreValid : (x : RouterCall d) (r : LlmRouter) → AreValid c r → AreValid c (router_step x r)
    unfolding router_step start stop close_file
    step-AreValid starts r a = ground (arith, a.config, a.qwen_valid, a.deepseek_valid)
    step-AreValid stops r a = ground (arith, a.config, a.qwen_valid, a.deepseek_valid)
    step-AreValid closes r a = record {
      config = a.config;
      qwen_valid = a.qwen_valid;
      deepseek_valid = a.deepseek_valid;
    }
    step-AreValid (routes v e name) r a = enqueue_event-AreValid v e name r a
    step-AreValid (analyses now_ms metrics_json) r a =
        enqueue_metrics_analysis-AreValid now_ms metrics_json r a
    step-AreValid (works v now started) r a = work-AreValid v now started r a
    step-AreValid (finishes v now resp i) r a = finish-AreValid v now resp i r a
    step-AreValid (counts i) r a = count_one-AreValid i r a
    step-AreValid (writes now_ms written i) r a = write_one-AreValid now_ms written i r a

    run-AreValid :
        (xs : List (RouterCall d)) (r : LlmRouter) → AreValid c r → AreValid c (router_run xs r)
    unfolding router_run
    run-AreValid [] r a = a
    run-AreValid (x ∷ xs) r a = run-AreValid xs (router_step x r) (step-AreValid x r a)

module _ {d : Doubles} where
  -- With thresholds of at least 1 in the configuration, after any interleaving of calls on a fresh
  -- router both providers' breakers keep their invariant: the outcomes of several workers, whose HTTP
  -- calls overlap, do not bring a counter to its threshold or over.
  pub router_run-init-AreValid :
      (c : LlmConfig) (ids names : List String) (opened : Bool) (xs : List (RouterCall d))
      → IsPositive c.circuit_breaker
      → AreValid c.circuit_breaker (router_run xs (init c ids names opened))
  unfolding init
  router_run-init-AreValid c ids names opened xs p =
      run-AreValid c.circuit_breaker p xs (init c ids names opened) (record {
        config = refl;
        qwen_valid = init-IsValid c.circuit_breaker p;
        deepseek_valid = init-IsValid c.circuit_breaker p;
      })
