-- ===== src/Events/Examples.antt =====
-- One stream with a door zone, seen over a few frames.
use Prim.Native.String.{String}
use jetedge_agent.Prelude.{ℕ, ◌+◌, ◌≤◌, ◌≡◌, refl, true, List, [], ◌∷◌}
use jetedge_agent.Prelude.Int.{pos}
use jetedge_agent.Prelude.Words.{sub64}
use jetedge_agent.Prelude.Doubles.{whole}
use jetedge_agent.Events.Types.{
  appearance, disappearance, count_high, count_exit, Box, ObservedObject, ZoneRule, EventsConfig,
}
use jetedge_agent.Events.State.{
  StreamState, Frame, no_counts, bump, latched, set_latch, contains_text, contains_class,
  contains_id, emit, find, erase, replace, track_event,
}
use jetedge_agent.Events.Passes.{
  tally_one, tally, stays, disappear, flush_tracks, watches_class, zone_applies, in_zone,
  zone_event, enter_zone, enter_zones, refresh, new_track, look_up, place, fire_zones, observe_one,
  observe, count_event, transit, transits,
}
use jetedge_agent.Events.Engine.{process_frame, flush_stream}
use jetedge_agent.Events.Tracks.{one_if, live}
use jetedge_agent.Events.Balance.{of_track}
use jetedge_agent.Events.Lifecycle.{Call, frames, flushes, step, run, run_lifecycle}
use jetedge_agent.Events.Latch.{of_class, process_frame_absent, run_latch}
use jetedge_agent.Events.Zones.{of_zone}

abbrev door : ZoneRule whole
door = record { name = "door"; stream_id = ""; left = 0; top = 0; width = 10; height = 10 }

abbrev config : EventsConfig whole
config = record {
  disappear_grace_frames = 2;
  count_threshold = 2;
  count_hysteresis = 1;
  classes = [];
  zones = door ∷ door ∷ [];
}

abbrev box_at : ℕ → Box whole
box_at x = record { confidence = 1; left = x; top = x; width = 4; height = 4 }

abbrev person : ℕ → ℕ → ObservedObject whole
person id x = record { track_id = id; class_id = pos 0; box = box_at x }

abbrev frame : ℕ → Frame whole
frame n = record { stream_idx = pos 0; frame_num = n; ts_ms = n + n }

abbrev fresh : StreamState whole
fresh = record { tracks = []; count_high_fired = [] }

-- Track 1 comes, goes for longer than the grace period, and comes back; the stream ends.
abbrev calls : List (Call whole)
calls =
    frames (frame 1) (person 1 1 ∷ person 2 30 ∷ [])
    ∷ frames (frame 2) (person 2 2 ∷ [])
    ∷ frames (frame 3) (person 2 2 ∷ [])
    ∷ frames (frame 4) (person 1 1 ∷ person 2 30 ∷ [])
    ∷ flushes (frame 5)
    ∷ []

abbrev ids : List String
ids = "cam" ∷ []

-- A busy stream: one track, latched.
abbrev latched_stream : StreamState whole
latched_stream = record {
  tracks =
      (
        1,
        record {
          class_id = pos 0;
          last_seen_frame = 1;
          last_seen_ns = 2;
          box = box_at 1;
          disappearance_fired = true;
          zones_fired = [];
        },
      )
      ∷ [];
  count_high_fired = (pos 0, true) ∷ [];
}

calls-appearances :
    (of_track appearance 1 (run config ids calls fresh no_counts).1 ≡ 2)
    × (of_track disappearance 1 (run config ids calls fresh no_counts).1 ≡ 2)
    × (of_class count_high (pos 0) (run config ids calls fresh no_counts).1 ≡ 2)
    × (of_class count_exit (pos 0) (run config ids calls fresh no_counts).1 ≡ 1)
    × (of_zone "door" (run config ids calls fresh no_counts).1 ≡ 3)
unfolding run step process_frame flush_stream disappear stays flush_tracks observe observe_one
    look_up place fire_zones enter_zones enter_zone zone_applies in_zone zone_event refresh
    new_track tally tally_one watches_class transits transit count_event latched set_latch
    contains_text contains_class contains_id emit bump find erase replace track_event sub64
calls-appearances = (refl, refl, refl, refl, refl)

run_lifecycle_example :
    let (last, es) = run config ids calls fresh no_counts in
    (of_track appearance 1 es ≡ of_track disappearance 1 es + live 1 last.tracks)
    × (live 1 last.tracks ≤ 1)
run_lifecycle_example = run_lifecycle config ids 1 calls no_counts

run_latch_example :
    let (last, es) = run config ids calls fresh no_counts in
    of_class count_high (pos 0) es
    ≡ of_class count_exit (pos 0) es + one_if (latched (pos 0) last.count_high_fired)
run_latch_example = run_latch (pos 0) config ids calls no_counts

process_frame_absent_example :
    let out = process_frame config ids (frame 9) [] latched_stream no_counts in
    (latched (pos 0) out.stream.count_high_fired ≡ latched (pos 0) latched_stream.count_high_fired)
    × (of_class count_high (pos 0) out.sink.events ≡ 0)
    × (of_class count_exit (pos 0) out.sink.events ≡ 0)
process_frame_absent_example =
    process_frame_absent (pos 0) config ids (frame 9) [] latched_stream no_counts tt
