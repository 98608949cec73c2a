-- ===== src/Llm/Router/Answers.antt =====
-- What `enqueue_event` answers, and what it counts as shed.
use Prim.Native.String.{String}
use text.Mathlib.Text.{◌==◌ as str_eq}
use jetedge_agent.Prelude.{
  ◌||◌, ◌⊎◌, inl, inr, Bool-cases, ◌+◌, Bool, true, false, ◌&&◌, not, if◌then◌else◌, ◌≡◌, refl,
  arith, none, some,
}
use jetedge_agent.Prelude.Doubles.{Doubles}
use jetedge_agent.Events.Types.{
  EventRecord, EventType, appearance, disappearance, count_high, count_exit, zone_entry,
}
use jetedge_agent.Llm.Queue.{RequestPriority, high, normal}
use jetedge_agent.Llm.Queue.Lengths.{length-enqueue}
use jetedge_agent.Llm.Router.Types.{LlmRequest, Services, RoutingConfig}
use jetedge_agent.Llm.Router.State.{LlmRouter}
use jetedge_agent.Llm.Router.Submit.{route_of, event_request, submit, route_event, enqueue_event}

-- The routing table: which kinds of event the configuration sends to the model.
abbrev pub is_routed : RoutingConfig → EventType → Bool
is_routed c appearance = c.appearance_to_qwen
is_routed c disappearance = c.disappearance_to_qwen
is_routed c zone_entry = c.zone_entry_to_qwen
is_routed c count_high = c.count_high_to_qwen
is_routed c count_exit = false

-- The event is to be sent: by the switch, the table and the endpoint.
abbrev pub is_wanted : LlmRouter → EventType → Bool
is_wanted r t =
    r.config.enable && (is_routed r.config.routing t && not (str_eq r.config.qwen.endpoint ""))

submit_answer :
    (req : LlmRequest) (r : LlmRouter)
    → ((submit req r).1 ≡ not r.queue.shut)
      × ((submit req r).0.stats.shed ≡ (if r.queue.shut then r.stats.shed + 1 else r.stats.shed))
unfolding submit
submit_answer req r = ground (arith, length-enqueue req req.priority r.queue)

route_of-is_routed :
    (c : RoutingConfig) (t : EventType)
    → (route_of c t ≡ none) × (is_routed c t ≡ false)
      ⊎ ((p : RequestPriority) × (route_of c t ≡ some (is_routed c t, p)))
route_of-is_routed c appearance = inr (normal, refl)
route_of-is_routed c disappearance = inr (normal, refl)
route_of-is_routed c zone_entry = inr (high, refl)
route_of-is_routed c count_high = inr (high, refl)
route_of-is_routed c count_exit = inl (refl, refl)

module _ {d : Doubles} where
  -- `route_event` gives a request exactly for the events that the table routes.
  route_event_answer :
      (v : Services d) (e : EventRecord d) (name : String) (r : LlmRouter)
      → let routed = is_routed r.config.routing e.type && not (str_eq r.config.qwen.endpoint "") in
        (route_event v e name r ≡ none) × (routed ≡ false)
        ⊎ ((req : LlmRequest) × (route_event v e name r ≡ some req) × (routed ≡ true))
  unfolding route_event
  route_event_answer v e name r = elim (route_of-is_routed r.config.routing e.type) [
    | inl (h, k) ↦ inl (rw (h, route_event) refl, rw k refl)
    | inr (p, h) ↦
        elim (Bool-cases
          (not (is_routed r.config.routing e.type) || str_eq r.config.qwen.endpoint "")) [
            | inl k ↦ inl (rw (h, k, route_event) refl, ground (arith, k))
            | inr k ↦
                inr (event_request v r p e name, rw (h, k, route_event) refl, ground (arith, k))
          ]
  ]

  -- `enqueue_event` answers true exactly when the router is enabled, the table routes the kind of
  -- event, the endpoint is configured and the queue is not shut down; it counts a request as shed
  -- exactly when one is wanted and the queue is shut down. A full queue does not make it answer false,
  -- and counts nothing as shed.
  pub enqueue_event_answer :
      (v : Services d) (e : EventRecord d) (name : String) (r : LlmRouter)
      → let (r', answer) = enqueue_event v e name r in
        (answer ≡ is_wanted r e.type && not r.queue.shut)
        × (r'.stats.shed
            ≡ (if is_wanted r e.type && r.queue.shut then r.stats.shed + 1 else r.stats.shed))
  unfolding enqueue_event
  enqueue_event_answer v e name r = elim (Bool-cases r.config.enable) [
    | inr h ↦ simp h (refl, refl)
    | inl h ↦ simp h (elim (route_event_answer v e name r) [
      | inl (n, k) ↦ simp (n, k) (refl, refl)
      | inr (req, n, k) ↦ simp (n, k) (submit_answer req r)
    ])
  ]
