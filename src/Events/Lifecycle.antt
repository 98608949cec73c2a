-- ===== src/Events/Lifecycle.antt =====
-- Appearances and disappearances of a track alternate.
use Prim.Native.String.{String}
use jetedge_agent.Prelude.{ℕ, ◌+◌, ◌≤◌, ◌≡◌, refl, List, [], ◌∷◌, ◌++◌, arith}
use jetedge_agent.Prelude.Doubles.{Doubles}
use jetedge_agent.Events.Types.{
  appearance, disappearance, count_high, count_exit, ObservedObject, EventsConfig, EventRecord,
}
use jetedge_agent.Events.State.{EventCounters, StreamState, Sink, Frame}
use jetedge_agent.Events.Passes.{disappear, observe, tally}
use jetedge_agent.Events.Engine.{Outcome, track_ids, process_frame, flush_stream}
use jetedge_agent.Events.Tracks.{occurs, live, live-le-occurs}
use jetedge_agent.Events.Emits.{transits-keeps}
use jetedge_agent.Events.Balance.{
  of_track, of_track-join, disappear_balance, flush_balance, Same, emit-Same, observe-Balanced,
}

module _ {d : Doubles} where
  -- One call: what it emits for a track id balances the change of the map.
  abbrev CallBalanced : ℕ → StreamState d → Outcome d → Type 0
  CallBalanced i ss out =
      (of_track appearance i out.sink.events + live i ss.tracks
        ≡ of_track disappearance i out.sink.events + live i out.stream.tracks)
      × ((j : ℕ) → occurs j out.stream.tracks ≤ 1)

  process_frame_balance :
      (i : ℕ) (c : EventsConfig d) (ids : List String) (f : Frame d)
      (objects : List (ObservedObject d)) (ss : StreamState d) (n : EventCounters)
      → ((j : ℕ) → occurs j ss.tracks ≤ 1)
      → CallBalanced i ss (process_frame c ids f objects ss n)
  unfolding process_frame
  process_frame_balance i c ids f objects ss n u =
      let s₀ : Sink d = record { events = []; counters = n } in
      let w₁ = disappear c (track_ids objects) f ss.tracks s₀ in
      let first = λ (j : ℕ). disappear_balance j c (track_ids objects) f ss.tracks s₀ in
      let w₂ = observe c ids f objects w₁ in
      let second =
        observe-Balanced i (live i ss.tracks) c ids f objects w₁
          (omega (arith, first i), λ j. rw ((first j).2) (u j)) in
      let third =
        transits-keeps (Same i w₂.1) c f (tally c objects []) ss.count_high_fired w₂.1
          (emit-Same i count_high w₂.1 refl refl) (emit-Same i count_exit w₂.1 refl refl)
          (refl, refl) in
      (omega (arith, second.0, third), second.1)

  flush_stream_balance :
      (i : ℕ) (f : Frame d) (ss : StreamState d) (n : EventCounters)
      → ((j : ℕ) → occurs j ss.tracks ≤ 1)
      → CallBalanced i ss (flush_stream f ss n)
  unfolding flush_stream
  flush_stream_balance i f ss n u =
      let all = λ (j : ℕ). flush_balance j f ss.tracks (record { events = []; counters = n }) in
      (omega (arith, all i), λ j. rw ((all j).3) (u j))

-- The calls that a stream's events come from.
pub data Call (d : Doubles) : Type 0 where
  frames : Frame d → List (ObservedObject d) → Call d
  flushes : Frame d → Call d

module _ {d : Doubles} (c : EventsConfig d) (ids : List String) where
  unfoldable pub step : Call d → StreamState d → EventCounters → Outcome d
  step (frames f objects) ss n = process_frame c ids f objects ss n
  step (flushes f) ss n = flush_stream f ss n

  -- The final state of a stream and all of its events.
  unfoldable pub run :
      List (Call d) → StreamState d → EventCounters → StreamState d × List (EventRecord d)
  run [] ss n = (ss, [])
  run (x ∷ xs) ss n =
      let out = step x ss n in
      let (last, es) = run xs out.stream out.sink.counters in (last, out.sink.events ++ es)

  step_balance :
      (i : ℕ) (x : Call d) (ss : StreamState d) (n : EventCounters)
      → ((j : ℕ) → occurs j ss.tracks ≤ 1)
      → CallBalanced i ss (step x ss n)
  unfolding step
  step_balance i (frames f objects) ss n u = process_frame_balance i c ids f objects ss n u
  step_balance i (flushes f) ss n u = flush_stream_balance i f ss n u

  run_balance :
      (i : ℕ) (xs : List (Call d)) (ss : StreamState d) (n : EventCounters)
      → ((j : ℕ) → occurs j ss.tracks ≤ 1)
      → let (last, es) = run xs ss n in
        (of_track appearance i es + live i ss.tracks
          ≡ of_track disappearance i es + live i last.tracks)
        × (live i last.tracks ≤ 1)
  unfolding run
  run_balance i [] ss n u = (refl, omega (arith, live-le-occurs i ss.tracks, u i))
  run_balance i (x ∷ xs) ss n u =
      let out = step x ss n in
      let one = step_balance i x ss n u in
      let rest = run_balance i xs out.stream out.sink.counters one.1 in
      let es = (run xs out.stream out.sink.counters).1 in
      (
        omega (
          arith,
          one.0,
          rest.0,
          of_track-join appearance i out.sink.events es,
          of_track-join disappearance i out.sink.events es,
        ),
        rest.1,
      )

  -- Whatever frames and flushes a stream sees from its start, each track id has appeared as often as
  -- it has disappeared, or once more: once more exactly while it is in the map and has not
  -- disappeared. So its appearances and disappearances alternate.
  pub run_lifecycle :
      (i : ℕ) (xs : List (Call d)) (n : EventCounters)
      → let (last, es) = run xs (record { tracks = []; count_high_fired = [] }) n in
        (of_track appearance i es ≡ of_track disappearance i es + live i last.tracks)
        × (live i last.tracks ≤ 1)
  run_lifecycle i xs n =
      let all =
        run_balance i xs (record { tracks = []; count_high_fired = [] }) n (λ j. omega arith) in
      (omega (arith, all.0), all.1)
