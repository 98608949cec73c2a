-- ===== src/Llm/Router/Lines.antt =====
-- What the analysis file holds.
use Prim.Native.String.{String}
use text.Mathlib.Text.{◌==◌ as str_eq}
use jetedge_agent.Prelude.{
  ℕ, zero, suc, ap, none, some, ◌⊎◌, ◌&&◌, if◌then◌else◌, ◌+◌, Bool, true, ◌||◌, not, ◌≡◌, refl,
  List, [], ◌∷◌, inl, inr, Bool-cases, Option-cases, All, All-append, length, length-append, arith,
}
use jetedge_agent.Prelude.Int.{pos, eqb_ℤ}
use jetedge_agent.Prelude.Doubles.{Doubles}
use jetedge_agent.Events.Types.{EventRecord}
use jetedge_agent.Llm.Queue.{dequeue}
use jetedge_agent.Llm.Router.Types.{
  LlmRequest, LlmConfig, LlmResponse, HttpResponse, Services, CloudAnalysisRecord,
}
use jetedge_agent.Llm.Router.State.{LlmRouter, init, start, stop, close_file}
use jetedge_agent.Llm.Router.Submit.{submit, route_event, enqueue_event, enqueue_metrics_analysis}
use jetedge_agent.Llm.Router.Process.{
  send, work, settle, returned, finish, is_reviewed, count_outcome, count_one, write_cloud_result,
  write_one, result_of,
}
use jetedge_agent.Llm.Router.Histories.{
  RouterCall, starts, stops, closes, routes, analyses, works, finishes, counts, writes, router_step,
  router_run,
}

-- A line that claims success is of an HTTP 200 and has no error; and so a result.
abbrev pub Honest : CloudAnalysisRecord → Type 0
Honest l = l.success ≡ true → (eqb_ℤ l.http_status (pos 200) ≡ true) × (l.error ≡ "")

abbrev pub HonestResult : LlmRequest × LlmResponse → Type 0
HonestResult x = x.1.success ≡ true → (eqb_ℤ x.1.http_status (pos 200) ≡ true) × (x.1.error ≡ "")

-- While the file is open and no write has failed, each request that is counted has its line, or waits
-- for it.
pub record AreRecorded (r : LlmRouter) : Type 0 where
  pub honest : All Honest r.lines
  pub judged_honest : All HonestResult r.judged
  pub unwritten_honest : All HonestResult r.unwritten
  pub all :
      r.is_open ≡ true
      → r.file_good ≡ true
      → length r.lines + length r.unwritten ≡ r.stats.succeeded + r.stats.failed

-- Results that go on and results that stay.
returned-Honest :
    (i : ℕ) (xs : List (LlmRequest × LlmResponse))
    → All HonestResult xs
    → ((returned i xs).0 ≡ none)
      ⊎ ((x : LlmRequest × LlmResponse) × ((returned i xs).0 ≡ some x)
          × HonestResult x
          × All HonestResult (returned i xs).1
          × (suc (length (returned i xs).1) ≡ length xs))
unfolding returned
returned-Honest i [] h = inl refl
returned-Honest zero (x ∷ xs) h = inr (x, refl, h.0, h.1, refl)
returned-Honest (suc i) (x ∷ xs) h = elim (returned-Honest i xs h.1) [
  | inl e ↦ inl e
  | inr (y, e, k, a, l) ↦ inr (y, e, k, (h.0, a), ap suc l)
]

submit-lines : (req : LlmRequest) (r : LlmRouter) → AreRecorded r → AreRecorded (submit req r).0
unfolding submit
submit-lines req r a = record {
  honest = a.honest;
  judged_honest = a.judged_honest;
  unwritten_honest = a.unwritten_honest;
  all = a.all;
}

enqueue_metrics_analysis-lines :
    (now_ms : ℕ) (metrics_json : String) (r : LlmRouter)
    → AreRecorded r
    → AreRecorded (enqueue_metrics_analysis now_ms metrics_json r).0
unfolding enqueue_metrics_analysis
enqueue_metrics_analysis-lines now_ms metrics_json r a =
    elim (Bool-cases (not r.config.enable || str_eq r.config.deepseek.endpoint "")) [
      | inl h ↦ simp h a
      | inr h ↦ simp h (submit-lines _ r a)
    ]

-- What an operation leaves if it leaves the file, the results and the outcomes.
same_lines :
    (r r' : LlmRouter)
    → r'.lines ≡ r.lines
    → r'.judged ≡ r.judged
    → r'.unwritten ≡ r.unwritten
    → r'.is_open ≡ r.is_open
    → r'.file_good ≡ r.file_good
    → r'.stats.succeeded ≡ r.stats.succeeded
    → r'.stats.failed ≡ r.stats.failed
    → AreRecorded r
    → AreRecorded r'
same_lines r r' e f g h i j k a = record {
  honest = rw e a.honest;
  judged_honest = rw f a.judged_honest;
  unwritten_honest = rw g a.unwritten_honest;
  all = λ o p. omega (
    arith,
    a.all (ground (arith, o, h)) (ground (arith, p, i)),
    ap (λ l. length l) e,
    ap (λ l. length l) g,
    j,
    k,
  );
}

count_outcome-lines :
    (x : LlmRequest × LlmResponse) (r : LlmRouter)
    → HonestResult x
    → All Honest r.lines
    → All HonestResult r.judged
    → All HonestResult r.unwritten
    → (r.is_open ≡ true
        → r.file_good ≡ true
        → length r.lines + length r.unwritten ≡ r.stats.succeeded + r.stats.failed)
    → AreRecorded (count_outcome x r)
unfolding count_outcome
count_outcome-lines (req, result) r x h j u all =
    let longer = length-append r.unwritten ((req, result) ∷ []) in
    let counted : (if result.success then r.stats.succeeded + 1 else r.stats.succeeded)
          + (if result.success then r.stats.failed else r.stats.failed + 1)
        ≡ suc (r.stats.succeeded + r.stats.failed) =
      ground arith in
    record {
      honest = h;
      judged_honest = j;
      unwritten_honest = All-append HonestResult r.unwritten ((req, result) ∷ []) u (x, tt);
      all = λ o g. omega (arith, all o g, longer, counted);
    }

count_one-lines : (i : ℕ) (r : LlmRouter) → AreRecorded r → AreRecorded (count_one i r)
unfolding count_one
count_one-lines i r a = elim (returned-Honest i r.judged a.judged_honest) [
  | inl e ↦ rw (e, count_one) a
  | inr (x, e, k, rest, l) ↦
      rw (e, count_one)
        (count_outcome-lines x (record r { judged = (returned i r.judged).1 }) k a.honest rest
          a.unwritten_honest a.all)
]

write_cloud_result-lines :
    (now_ms : ℕ) (written : Bool) (req : LlmRequest) (resp : LlmResponse) (r : LlmRouter)
    → HonestResult (req, resp)
    → All Honest r.lines
    → All HonestResult r.judged
    → All HonestResult r.unwritten
    → (r.is_open ≡ true
        → r.file_good ≡ true
        → length r.lines + suc (length r.unwritten) ≡ r.stats.succeeded + r.stats.failed)
    → AreRecorded (write_cloud_result now_ms written req resp r)
write_cloud_result-lines now_ms written req resp r x h j u all = elim (Bool-cases r.is_open) [
  | inr o ↦ simp o (record {
    honest = h;
    judged_honest = j;
    unwritten_honest = u;
    all = λ p g. absurd (ground (arith, p, o));
  })
  | inl o ↦ elim (Bool-cases (r.file_good && written)) [
    | inr w ↦
        simp (o, w)
          (record {
            honest = h;
            judged_honest = j;
            unwritten_honest = u;
            all = λ p g. absurd (ground (arith, g));
          })
    | inl w ↦
        simp (o, w)
          (record {
            honest = All-append Honest r.lines (_ ∷ []) h (x, tt);
            judged_honest = j;
            unwritten_honest = u;
            all = λ p g. omega (
              arith,
              all o (ground (arith, w)),
              length-append {A = CloudAnalysisRecord} r.lines (_ ∷ []),
            );
          })
  ]
]

write_one-lines :
    (now_ms : ℕ) (written : Bool) (i : ℕ) (r : LlmRouter)
    → AreRecorded r
    → AreRecorded (write_one now_ms written i r)
unfolding write_one
write_one-lines now_ms written i r a = elim (returned-Honest i r.unwritten a.unwritten_honest) [
  | inl e ↦ rw (e, write_one) a
  | inr ((req, result), e, k, rest, l) ↦
      rw (e, write_one)
        (write_cloud_result-lines now_ms written req result
          (record r { unwritten = (returned i r.unwritten).1 }) k a.honest a.judged_honest rest
          (λ o g. omega (arith, a.all o g, l)))
]

module _ {d : Doubles} where
  enqueue_event-lines :
      (v : Services d) (e : EventRecord d) (name : String) (r : LlmRouter)
      → AreRecorded r
      → AreRecorded (enqueue_event v e name r).0
  unfolding enqueue_event
  enqueue_event-lines v e name r a = elim (Bool-cases r.config.enable) [
    | inr h ↦ simp h a
    | inl h ↦ simp h (elim (Option-cases (route_event v e name r)) [
      | inl none_routed ↦ simp none_routed a
      | inr (req, routed) ↦ simp routed (submit-lines req r a)
    ])
  ]

  send-lines :
      (v : Services d) (now started : ℕ) (req : LlmRequest) (r : LlmRouter)
      → AreRecorded r
      → AreRecorded (send v now started req r)
  unfolding send
  send-lines v now started req r a =
      ground (arith, a.honest, a.judged_honest, a.unwritten_honest, a.all)

  work-lines :
      (v : Services d) (now started : ℕ) (r : LlmRouter)
      → AreRecorded r
      → AreRecorded (work v now started r)
  unfolding work
  work-lines v now started r a = elim (Bool-cases r.running) [
    | inr h ↦ simp h a
    | inl h ↦ simp h (elim (Option-cases (dequeue r.queue).1) [
      | inl e ↦ simp e (
          same_lines r (record r { queue = (dequeue r.queue).0 }) refl refl refl refl refl refl refl
            a)
      | inr (req, e) ↦ simp e (
          send-lines v now started req _ (
            same_lines r (record r { queue = (dequeue r.queue).0 }) refl refl refl refl refl refl
              refl a))
    ])
  ]

  result_of-Honest :
      (v : Services d) (now started : ℕ) (req : LlmRequest) (resp : HttpResponse)
      → HonestResult (req, result_of v started now req resp)
  unfolding is_reviewed
  result_of-Honest v now started req resp h = ground (arith, h)

  settle-lines :
      (v : Services d) (now : ℕ) (resp : HttpResponse) (x : LlmRequest × ℕ) (r : LlmRouter)
      → AreRecorded r
      → AreRecorded (settle v now resp x r)
  unfolding settle
  settle-lines v now resp (req, started) r a =
      let result = result_of v started now req resp in
      let honest = result_of-Honest v now started req resp in
      record {
        honest = a.honest;
        judged_honest =
            All-append HonestResult r.judged ((req, result) ∷ []) a.judged_honest (honest, tt);
        unwritten_honest = a.unwritten_honest;
        all = a.all;
      }

  finish-lines :
      (v : Services d) (now : ℕ) (resp : HttpResponse) (i : ℕ) (r : LlmRouter)
      → AreRecorded r
      → AreRecorded (finish v now resp i r)
  unfolding finish
  finish-lines v now resp i r a = elim (Option-cases (returned i r.in_flight).0) [
    | inl e ↦ rw (e, finish) a
    | inr (x, e) ↦
        let r' = record r { in_flight = (returned i r.in_flight).1 } in
        rw (e, finish)
          (settle-lines v now resp x r' (same_lines r r' refl refl refl refl refl refl refl a))
  ]

  step-lines : (x : RouterCall d) (r : LlmRouter) → AreRecorded r → AreRecorded (router_step x r)
  unfolding router_step start stop close_file
  step-lines starts r a = ground (arith, a.honest, a.judged_honest, a.unwritten_honest, a.all)
  step-lines stops r a = ground (arith, a.honest, a.judged_honest, a.unwritten_honest, a.all)
  step-lines closes r a = record {
    honest = a.honest;
    judged_honest = a.judged_honest;
    unwritten_honest = a.unwritten_honest;
    all = λ o g. absurd (ground (arith, o));
  }
  step-lines (routes v e name) r a = enqueue_event-lines v e name r a
  step-lines (analyses now_ms metrics_json) r a =
      enqueue_metrics_analysis-lines now_ms metrics_json r a
  step-lines (works v now started) r a = work-lines v now started r a
  step-lines (finishes v now resp i) r a = finish-lines v now resp i r a
  step-lines (counts i) r a = count_one-lines i r a
  step-lines (writes now_ms written i) r a = write_one-lines now_ms written i r a

  run-lines :
      (xs : List (RouterCall d)) (r : LlmRouter) → AreRecorded r → AreRecorded (router_run xs r)
  unfolding router_run
  run-lines [] r a = a
  run-lines (x ∷ xs) r a = run-lines xs (router_step x r) (step-lines x r a)

  -- After any interleaving of calls on a fresh router: every line that it has added to the analysis file
  -- and that claims success is of an HTTP 200 and has no error text; and as long as the file is open
  -- and no write to it has failed, the lines and the results that wait to be written are together as
  -- many as the requests counted as succeeded or failed.
  pub router_run-init-AreRecorded :
      (c : LlmConfig) (ids names : List String) (opened : Bool) (xs : List (RouterCall d))
      → AreRecorded (router_run xs (init c ids names opened))
  unfolding init
  router_run-init-AreRecorded c ids names opened xs =
      run-lines xs (init c ids names opened)
        (record { honest = tt; judged_honest = tt; unwritten_honest = tt; all = λ o g. refl })
