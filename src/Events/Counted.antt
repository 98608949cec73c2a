-- ===== src/Events/Counted.antt =====
-- The per-stream counters against the events that the calls return.
use Prim.Native.String.{String}
use jetedge_agent.Prelude.{ℕ, ◌+◌, ◌≡◌, ◌==◌, List, [], ◌∷◌, ◌++◌, arith}
use jetedge_agent.Prelude.Doubles.{Doubles}
use jetedge_agent.Events.Types.{
  EventType, appearance, disappearance, count_high, count_exit, zone_entry, code, ObservedObject,
  EventsConfig, EventRecord,
}
use jetedge_agent.Events.State.{EventCounters, StreamState, Sink, Frame, emit, bump}
use jetedge_agent.Events.Tracks.{one_if}
use jetedge_agent.Events.Passes.{tally}
use jetedge_agent.Events.Engine.{track_ids, process_frame, flush_stream}
use jetedge_agent.Events.Emits.{disappear-keeps, flush_tracks-keeps, observe-keeps, transits-keeps}

abbrev pub counter : EventType → EventCounters → ℕ
counter appearance n = n.appearances
counter disappearance n = n.disappearances
counter count_high n = n.count_highs
counter count_exit n = n.count_exits
counter zone_entry n = n.zone_entries

counter-bump :
    (type t : EventType) (n : EventCounters)
    → counter type (bump t n) ≡ counter type n + one_if (code t == code type)
unfolding bump
counter-bump appearance t n = ground arith
counter-bump disappearance t n = ground arith
counter-bump count_high t n = ground arith
counter-bump count_exit t n = ground arith
counter-bump zone_entry t n = ground arith

module _ {d : Doubles} where
  -- The events of a kind.
  abbrev pub count_type : EventType → List (EventRecord d) → ℕ
  count_type type [] = 0
  count_type type (e ∷ es) = one_if (code e.type == code type) + count_type type es

  count_type-append :
      (type : EventType) (es : List (EventRecord d)) (e : EventRecord d)
      → count_type type (es ++ (e ∷ [])) ≡ count_type type es + one_if (code e.type == code type)
  count_type-append type [] e = ground arith
  count_type-append type (x ∷ es) e = ground (arith, count_type-append type es e)

  module _ (type : EventType) (start : EventCounters) where
    Agrees : Sink d → Type 0
    Agrees s = counter type s.counters ≡ counter type start + count_type type s.events

    emit-Agrees : (e : EventRecord d) (s : Sink d) → Agrees s → Agrees (emit e s)
    unfolding Agrees emit
    emit-Agrees e s h =
        omega (arith, h, counter-bump type e.type s.counters, count_type-append type s.events e)

  -- Each call raises each of the stream's counters by the number of events of that kind that it
  -- returns: here a frame.
  pub process_frame_counted :
      (type : EventType) (c : EventsConfig d) (ids : List String) (f : Frame d)
      (objects : List (ObservedObject d)) (ss : StreamState d) (n : EventCounters)
      → let s = (process_frame c ids f objects ss n).sink in
        counter type s.counters ≡ counter type n + count_type type s.events
  unfolding process_frame
  process_frame_counted type c ids f objects ss n =
      let kept = λ (t : EventType) (e : EventRecord d) (s : Sink d) (_ : e.type ≡ t).
        emit-Agrees type n e s in
      unfold Agrees in
      transits-keeps (Agrees type n) c f (tally c objects []) ss.count_high_fired _
        (kept count_high) (kept count_exit)
        (observe-keeps (Agrees type n) c ids f objects _ (kept appearance) (kept zone_entry) (
          disappear-keeps (Agrees type n) c (track_ids objects) f ss.tracks _ (kept disappearance)
            (omega arith)))

  -- The same for the flush at the end of a stream.
  pub flush_stream_counted :
      (type : EventType) (f : Frame d) (ss : StreamState d) (n : EventCounters)
      → let s = (flush_stream f ss n).sink in
        counter type s.counters ≡ counter type n + count_type type s.events
  unfolding flush_stream
  flush_stream_counted type f ss n =
      unfold Agrees in
      flush_tracks-keeps (Agrees type n) f ss.tracks _ (λ e s _. emit-Agrees type n e s)
        (omega arith)
