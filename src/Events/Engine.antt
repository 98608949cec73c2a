-- ===== src/Events/Engine.antt =====
-- src/events/event_engine.cpp: `process_frame` and `flush_stream` on one stream's state and counters.
use Prim.Native.String.{String}
use jetedge_agent.Prelude.{ℕ, List, [], map}
use jetedge_agent.Prelude.Doubles.{Doubles}
use jetedge_agent.Events.Types.{ObservedObject, EventsConfig}
use jetedge_agent.Events.State.{EventCounters, StreamState, Sink, Frame}
use jetedge_agent.Events.Passes.{disappear, flush_tracks, observe, tally, transits}

-- A stream's state, its counters and the events of the last call.
pub record Outcome (d : Doubles) : Type 0 where
  pub stream : StreamState d
  pub sink : Sink d

module _ {d : Doubles} where
  abbrev pub track_ids : List (ObservedObject d) → List ℕ
  track_ids = map (λ o. o.track_id)

  unfoldable pub process_frame :
      EventsConfig d
      → List String
      → Frame d
      → List (ObservedObject d)
      → StreamState d
      → EventCounters
      → Outcome d
  process_frame c ids f objects ss counters =
      let s : Sink d = record { events = []; counters = counters } in
      let (m₁, s₁) = disappear c (track_ids objects) f ss.tracks s in
      let (m₂, s₂) = observe c ids f objects (m₁, s₁) in
      let (latches, s₃) = transits c f (tally c objects []) ss.count_high_fired s₂ in
      record { stream = record { tracks = m₂; count_high_fired = latches }; sink = s₃ }

  unfoldable pub flush_stream : Frame d → StreamState d → EventCounters → Outcome d
  flush_stream f ss counters =
      let (m, s) = flush_tracks f ss.tracks (record { events = []; counters = counters }) in
      record { stream = record ss { tracks = m }; sink = s }
