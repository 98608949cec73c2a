-- ===== src/Llm/Router/Histories.antt =====
-- The calls of all threads on the router, in the order in which they happen.
use Prim.Native.String.{String}
use jetedge_agent.Prelude.{ℕ, Bool, List, [], ◌∷◌}
use jetedge_agent.Prelude.Doubles.{Doubles}
use jetedge_agent.Events.Types.{EventRecord}
use jetedge_agent.Llm.Router.Types.{HttpResponse, Services}
use jetedge_agent.Llm.Router.State.{LlmRouter, start, stop, close_file}
use jetedge_agent.Llm.Router.Submit.{enqueue_event, enqueue_metrics_analysis}
use jetedge_agent.Llm.Router.Process.{work, finish, count_one, write_one}

pub data RouterCall (d : Doubles) : Type 0 where
  starts stops closes : RouterCall d
  routes : Services d → EventRecord d → String → RouterCall d
  analyses : ℕ → String → RouterCall d
  works : Services d → ℕ → ℕ → RouterCall d
  finishes : Services d → ℕ → HttpResponse → ℕ → RouterCall d
  counts : ℕ → RouterCall d
  writes : ℕ → Bool → ℕ → RouterCall d

module _ {d : Doubles} where
  unfoldable pub router_step : RouterCall d → LlmRouter → LlmRouter
  router_step starts r = start r
  router_step stops r = stop r
  router_step closes r = close_file r
  router_step (routes v e name) r = (enqueue_event v e name r).0
  router_step (analyses now_ms metrics_json) r = (enqueue_metrics_analysis now_ms metrics_json r).0
  router_step (works v now started) r = work v now started r
  router_step (finishes v now resp i) r = finish v now resp i r
  router_step (counts i) r = count_one i r
  router_step (writes now_ms written i) r = write_one now_ms written i r

  unfoldable pub router_run : List (RouterCall d) → LlmRouter → LlmRouter
  router_run [] r = r
  router_run (x ∷ xs) r = router_run xs (router_step x r)
