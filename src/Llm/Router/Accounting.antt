-- ===== src/Llm/Router/Accounting.antt =====
-- What the router's counters add up to.
use Prim.Native.String.{String}
use jetedge_agent.Prelude.{
  Option-cases, ap, zero, ◌⊎◌, ℕ, suc, ◌+◌, ◌≤◌, ◌≡◌, refl, List, [], ◌∷◌, none, some, inl, inr,
  arith, length, length-append, Bool, not, ◌||◌, ◌⊎◌, Bool-cases,
}
use text.Mathlib.Text.{◌==◌ as str_eq}
use jetedge_agent.Prelude.Int.{pos_part}
use jetedge_agent.Prelude.Doubles.{Doubles}
use jetedge_agent.Events.Types.{EventRecord}
use jetedge_agent.Llm.Queue.Lengths.{
  length-enqueue, length-dequeue, length-shutdown, length-empty_queue,
}
use jetedge_agent.Llm.Router.Types.{LlmRequest, LlmResponse, LlmConfig, HttpResponse, Services}
use jetedge_agent.Llm.Router.State.{LlmRouter, init, start, stop, close_file}
use jetedge_agent.Llm.Router.Submit.{submit, route_event, enqueue_event, enqueue_metrics_analysis}
use jetedge_agent.Llm.Router.Process.{
  send, work, settle, returned, finish, count_outcome, count_one, write_cloud_result, write_one,
  result_of,
}
use jetedge_agent.Llm.Router.Histories.{
  RouterCall, starts, stops, closes, routes, analyses, works, finishes, counts, writes, router_step,
  router_run,
}

-- Every request sent has succeeded, has failed, is out or is about to be counted; every request counted as shed, skipped or
-- sent, or still in the queue, was enqueued, and `spare` more were.
pub record AddsUp (spare : ℕ) (r : LlmRouter) : Type 0 where
  pub sent :
      r.stats.sent ≡ r.stats.succeeded + r.stats.failed + length r.judged + length r.in_flight
  pub enqueued :
      spare + r.stats.shed + r.stats.sent + r.stats.skipped_circuit_open + length r.queue.entries
      ≤ r.stats.enqueued

submit-AddsUp : (req : LlmRequest) (r : LlmRouter) → AddsUp 0 r → AddsUp 0 (submit req r).0
unfolding submit
submit-AddsUp req r a = ground (arith, a.sent, a.enqueued, length-enqueue req req.priority r.queue)

length-returned :
    {A : Type 0} (i : ℕ) (xs : List A)
    → ((returned i xs).0 ≡ none)
      ⊎ ((x : A) × ((returned i xs).0 ≡ some x) × (suc (length (returned i xs).1) ≡ length xs))
unfolding returned
length-returned i [] = inl refl
length-returned zero (x ∷ xs) = inr (x, refl, refl)
length-returned (suc i) (x ∷ xs) = elim (length-returned i xs) [
  | inl e ↦ inl e
  | inr (y, e, l) ↦ inr (y, e, ap suc l)
]

enqueue_metrics_analysis-AddsUp :
    (now_ms : ℕ) (metrics_json : String) (r : LlmRouter)
    → AddsUp 0 r
    → AddsUp 0 (enqueue_metrics_analysis now_ms metrics_json r).0
unfolding enqueue_metrics_analysis
enqueue_metrics_analysis-AddsUp now_ms metrics_json r a =
    elim (Bool-cases (not r.config.enable || str_eq r.config.deepseek.endpoint "")) [
      | inl h ↦ simp h a
      | inr h ↦ simp h (submit-AddsUp _ r a)
    ]

count_outcome-AddsUp :
    (x : LlmRequest × LlmResponse) (r : LlmRouter) (rest : List (LlmRequest × LlmResponse))
    → suc (length rest) ≡ length r.judged
    → AddsUp 0 r
    → AddsUp 0 (count_outcome x (record r { judged = rest }))
unfolding count_outcome
count_outcome-AddsUp (req, result) r rest h a = ground (arith, a.sent, a.enqueued, h)

count_one-AddsUp : (i : ℕ) (r : LlmRouter) → AddsUp 0 r → AddsUp 0 (count_one i r)
unfolding count_one
count_one-AddsUp i r a = elim (length-returned i r.judged) [
  | inl e ↦ rw (e, count_one) a
  | inr (x, e, l) ↦ rw (e, count_one) (count_outcome-AddsUp x r _ l a)
]

write_cloud_result-AddsUp :
    (now_ms : ℕ) (written : Bool) (req : LlmRequest) (resp : LlmResponse) (r : LlmRouter)
    → AddsUp 0 r
    → AddsUp 0 (write_cloud_result now_ms written req resp r)
write_cloud_result-AddsUp now_ms written req resp r a = ground (arith, a.sent, a.enqueued)

write_one-AddsUp :
    (now_ms : ℕ) (written : Bool) (i : ℕ) (r : LlmRouter)
    → AddsUp 0 r
    → AddsUp 0 (write_one now_ms written i r)
unfolding write_one
write_one-AddsUp now_ms written i r a = elim (length-returned i r.unwritten) [
  | inl e ↦ rw (e, write_one) a
  | inr ((req, result), e, l) ↦
      rw (e, write_one)
        (write_cloud_result-AddsUp now_ms written req result
          (record r { unwritten = (returned i r.unwritten).1 })
          (record { sent = a.sent; enqueued = a.enqueued }))
]

module _ {d : Doubles} where
  enqueue_event-AddsUp :
      (v : Services d) (e : EventRecord d) (name : String) (r : LlmRouter)
      → AddsUp 0 r
      → AddsUp 0 (enqueue_event v e name r).0
  unfolding enqueue_event
  enqueue_event-AddsUp v e name r a = elim (Bool-cases r.config.enable) [
    | inr h ↦ simp h a
    | inl h ↦ simp h (elim (Option-cases (route_event v e name r)) [
      | inl none_routed ↦ simp none_routed a
      | inr (req, routed) ↦ simp routed (submit-AddsUp req r a)
    ])
  ]

  send-AddsUp :
      (v : Services d) (now started : ℕ) (req : LlmRequest) (r : LlmRouter)
      → AddsUp 1 r
      → AddsUp 0 (send v now started req r)
  unfolding send
  send-AddsUp v now started req r a =
      ground (arith, a.sent, a.enqueued, length-append r.in_flight ((req, started) ∷ []))

  work-AddsUp :
      (v : Services d) (now started : ℕ) (r : LlmRouter)
      → AddsUp 0 r
      → AddsUp 0 (work v now started r)
  unfolding work
  work-AddsUp v now started r a = elim (Bool-cases r.running) [
    | inr h ↦ simp h a
    | inl h ↦ simp h (elim (length-dequeue r.queue) [
      | inl (e, l) ↦ simp e (record { sent = a.sent; enqueued = omega (arith, a.enqueued, l) })
      | inr (req, e, l) ↦ simp e (
          send-AddsUp v now started req _
            (record { sent = a.sent; enqueued = omega (arith, a.enqueued, l) }))
    ])
  ]

  settle-AddsUp :
      (v : Services d) (now : ℕ) (resp : HttpResponse) (x : LlmRequest × ℕ) (r : LlmRouter)
      (rest : List (LlmRequest × ℕ))
      → suc (length rest) ≡ length r.in_flight
      → AddsUp 0 r
      → AddsUp 0 (settle v now resp x (record r { in_flight = rest }))
  unfolding settle
  settle-AddsUp v now resp (req, started) r rest h a =
      let result = result_of v started now req resp in
      let longer = length-append r.judged ((req, result) ∷ []) in
      record { sent = omega (arith, a.sent, h, longer); enqueued = a.enqueued }

  finish-AddsUp :
      (v : Services d) (now : ℕ) (resp : HttpResponse) (i : ℕ) (r : LlmRouter)
      → AddsUp 0 r
      → AddsUp 0 (finish v now resp i r)
  unfolding finish
  finish-AddsUp v now resp i r a = elim (length-returned i r.in_flight) [
    | inl e ↦ rw (e, finish) a
    | inr (x, e, l) ↦ rw (e, finish) (settle-AddsUp v now resp x r _ l a)
  ]

  step-AddsUp : (x : RouterCall d) (r : LlmRouter) → AddsUp 0 r → AddsUp 0 (router_step x r)
  unfolding router_step start stop close_file
  step-AddsUp starts r a = ground (arith, a.sent, a.enqueued)
  step-AddsUp stops r a = ground (arith, a.sent, a.enqueued, length-shutdown r.queue)
  step-AddsUp closes r a = ground (arith, a.sent, a.enqueued)
  step-AddsUp (routes v e name) r a = enqueue_event-AddsUp v e name r a
  step-AddsUp (analyses now_ms metrics_json) r a =
      enqueue_metrics_analysis-AddsUp now_ms metrics_json r a
  step-AddsUp (works v now started) r a = work-AddsUp v now started r a
  step-AddsUp (finishes v now resp i) r a = finish-AddsUp v now resp i r a
  step-AddsUp (counts i) r a = count_one-AddsUp i r a
  step-AddsUp (writes now_ms written i) r a = write_one-AddsUp now_ms written i r a

  run-AddsUp : (xs : List (RouterCall d)) (r : LlmRouter) → AddsUp 0 r → AddsUp 0 (router_run xs r)
  unfolding router_run
  run-AddsUp [] r a = a
  run-AddsUp (x ∷ xs) r a = run-AddsUp xs (router_step x r) (step-AddsUp x r a)

  -- After any interleaving of calls on a fresh router, with any number of workers, any responses and
  -- any prompts: every request sent has succeeded, has failed, is still out, or is back and not
  -- yet counted, exactly one of the four; and the requests shed, skipped at an open circuit, sent and still queued are no more than
  -- those enqueued.
  pub router_run-init-AddsUp :
      (c : LlmConfig) (ids names : List String) (opened : Bool) (xs : List (RouterCall d))
      → AddsUp 0 (router_run xs (init c ids names opened))
  unfolding init
  router_run-init-AddsUp c ids names opened xs = run-AddsUp xs (init c ids names opened) (
      ground (
        arith,
        length-empty_queue {T = LlmRequest} 32,
        length-empty_queue {T = LlmRequest} (pos_part c.max_size),
      ))
