-- ===== src/Events/Passes.antt =====
-- src/events/event_engine.cpp: the three passes of `EventEngine::process_frame` over one stream's
-- state, in the order of the code, and the pass of `flush_stream`.
use Prim.Native.String.{String}
use text.Mathlib.Text.{◌==◌ as str_eq}
use jetedge_agent.Prelude.{
  ℕ, ◌+◌, ◌-◌, Bool, true, false, ◌||◌, ◌&&◌, not, leb, ltb, if◌then◌else◌, List, [], ◌∷◌, ◌++◌,
  Option, none, some, get_elem?,
}
use jetedge_agent.Prelude.Int.{ℤ, pos, negsuc, eqb_ℤ}
use jetedge_agent.Prelude.Words.{sub64}
use jetedge_agent.Prelude.Doubles.{Doubles}
use jetedge_agent.Events.Types.{
  EventType, appearance, disappearance, count_high, count_exit, zone_entry, Box, ObservedObject,
  ZoneRule, EventsConfig, EventRecord,
}
use jetedge_agent.Events.State.{
  latched, set_latch, contains_text, contains_class, contains_id, TrackState, Tracks, Sink, Frame,
  emit, find, erase, replace, track_event,
}

-- `++counts[class_id]`
unfoldable pub tally_one : ℤ → List (ℤ × ℕ) → List (ℤ × ℕ)
tally_one k [] = (k, 1) ∷ []
tally_one k ((j, n) ∷ m) = if eqb_ℤ j k then (j, n + 1) ∷ m else (j, n) ∷ tally_one k m

module _ {d : Doubles} where
  open d use {add, half, ltb as less, leb as leq}

  -- The disappearance of a track: last seen at its own frame, and at the given time.
  abbrev pub disappearance_event : Frame d → ℕ → ℕ → TrackState d → EventRecord d
  disappearance_event f ts_ms id t = record (track_event disappearance f id t) {
    frame_num = t.last_seen_frame;
    ts_ms = ts_ms;
  }

  -- The two `continue`s of the first pass.
  unfoldable pub stays : EventsConfig d → List ℕ → ℕ → ℕ → TrackState d → Bool
  stays c seen frame_num id t =
      (t.disappearance_fired || contains_id seen id)
      || ltb (sub64 frame_num t.last_seen_frame) c.disappear_grace_frames

  -- 1. Disappearances.
  unfoldable pub disappear :
      EventsConfig d → List ℕ → Frame d → Tracks d → Sink d → Tracks d × Sink d
  disappear c seen f [] s = ([], s)
  disappear c seen f ((id, t) ∷ m) s =
      if stays c seen f.frame_num id t
      then (let (m', s') = disappear c seen f m s in ((id, t) ∷ m', s'))
      else (let (m', s') =
            disappear c seen f m (emit (disappearance_event f t.last_seen_ns id t) s) in
          ((id, record t { disappearance_fired = true }) ∷ m', s'))

  -- The loop of `flush_stream`.
  unfoldable pub flush_tracks : Frame d → Tracks d → Sink d → Tracks d × Sink d
  flush_tracks f [] s = ([], s)
  flush_tracks f ((id, t) ∷ m) s =
      if t.disappearance_fired
      then (let (m', s') = flush_tracks f m s in ((id, t) ∷ m', s'))
      else (let (m', s') = flush_tracks f m (emit (disappearance_event f f.ts_ms id t) s) in
          ((id, record t { disappearance_fired = true }) ∷ m', s'))

  unfoldable pub watches_class : EventsConfig d → ℤ → Bool
  watches_class c k = elim c.classes [ [] ↦ true | _ ∷ _ ↦ contains_class c.classes k ]

  -- `stream_ids_[stream_idx]`, for an index in range.
  unfoldable pub zone_applies : List String → ZoneRule d → ℤ → Bool
  zone_applies stream_ids z (negsuc i) = str_eq z.stream_id ""
  zone_applies stream_ids z (pos i) =
      str_eq z.stream_id ""
      || (elim (get_elem? stream_ids i) [ none ↦ false | some id ↦ str_eq z.stream_id id ])

  -- The centre of the box lies in the zone: left and top edges in, right and bottom edges out.
  unfoldable pub in_zone : Box d → ZoneRule d → Bool
  in_zone b z =
      let cx = add b.left (half b.width) in
      let cy = add b.top (half b.height) in
      not (
        ((less cx z.left || leq (add z.left z.width) cx) || less cy z.top)
        || leq (add z.top z.height) cy)

  unfoldable pub zone_event : Frame d → ObservedObject d → String → EventRecord d
  zone_event f o name = record {
    type = zone_entry;
    stream_idx = f.stream_idx;
    frame_num = f.frame_num;
    ts_ms = f.ts_ms;
    track_id = o.track_id;
    class_id = o.class_id;
    box = o.box;
    count = 0;
    zone = name;
  }

  -- One round of the zone loop: the zones fired for the track, and the events.
  unfoldable pub enter_zone :
      List String
      → Frame d
      → ObservedObject d
      → ZoneRule d
      → List String × Sink d
      → List String × Sink d
  enter_zone ids f o z (fired, s) =
      if (not (zone_applies ids z f.stream_idx) || not (in_zone o.box z))
        || contains_text fired z.name
      then (fired, s)
      else (fired ++ (z.name ∷ []), emit (zone_event f o z.name) s)

  unfoldable pub enter_zones :
      List String
      → Frame d
      → ObservedObject d
      → List (ZoneRule d)
      → List String × Sink d
      → List String × Sink d
  enter_zones ids f o [] w = w
  enter_zones ids f o (z ∷ zs) w = enter_zones ids f o zs (enter_zone ids f o z w)

  -- The members that an observation writes.
  unfoldable pub refresh : Frame d → ObservedObject d → TrackState d → TrackState d
  refresh f o t = record t {
    class_id = o.class_id;
    last_seen_frame = f.frame_num;
    last_seen_ns = f.ts_ms;
    box = o.box;
  }

  unfoldable pub new_track : Frame d → ObservedObject d → TrackState d
  new_track f o = record {
    class_id = o.class_id;
    last_seen_frame = f.frame_num;
    last_seen_ns = f.ts_ms;
    box = o.box;
    disappearance_fired = false;
    zones_fired = [];
  }

  -- The look-up: a track that has already disappeared is erased and counts as missing.
  unfoldable pub look_up : ℕ → Tracks d → Tracks d × Option (TrackState d)
  look_up id m = elim (find id m) [
    | none ↦ (m, none)
    | some t ↦ if t.disappearance_fired then (erase id m, none) else (m, some t)
  ]

  -- The new or refreshed track is in the map before its zones are looked at.
  unfoldable pub place :
      Frame d
      → ObservedObject d
      → Tracks d × Option (TrackState d)
      → Sink d
      → Tracks d × TrackState d × Sink d
  place f o (m, found) s = elim found [
    | none ↦ (
      m ++ ((o.track_id, new_track f o) ∷ []),
      new_track f o,
      emit (track_event appearance f o.track_id (new_track f o)) s,
    )
    | some t ↦ (replace o.track_id (refresh f o t) m, refresh f o t, s)
  ]

  unfoldable pub fire_zones :
      EventsConfig d
      → List String
      → Frame d
      → ObservedObject d
      → Tracks d × TrackState d × Sink d
      → Tracks d × Sink d
  fire_zones c ids f o (m, t, s) =
      let (fired, s') = enter_zones ids f o c.zones (t.zones_fired, s) in
      (replace o.track_id (record t { zones_fired = fired }) m, s')

  -- The body of the loop over the objects.
  unfoldable pub observe_one :
      EventsConfig d
      → List String
      → Frame d
      → ObservedObject d
      → Tracks d × Sink d
      → Tracks d × Sink d
  observe_one c ids f o (m, s) =
      if not (watches_class c o.class_id)
      then (m, s)
      else fire_zones c ids f o (place f o (look_up o.track_id m) s)

  -- 2. The loop over the objects.
  unfoldable pub observe :
      EventsConfig d
      → List String
      → Frame d
      → List (ObservedObject d)
      → Tracks d × Sink d
      → Tracks d × Sink d
  observe c ids f [] w = w
  observe c ids f (o ∷ os) w = observe c ids f os (observe_one c ids f o w)

  unfoldable pub tally : EventsConfig d → List (ObservedObject d) → List (ℤ × ℕ) → List (ℤ × ℕ)
  tally c [] counts = counts
  tally c (o ∷ os) counts =
      tally c os (if watches_class c o.class_id then tally_one o.class_id counts else counts)

  abbrev pub no_box : d.Double → Box d
  no_box zero' = record {
    confidence = zero';
    left = zero';
    top = zero';
    width = zero';
    height = zero';
  }

  unfoldable pub count_event : EventType → Frame d → ℤ → ℕ → EventRecord d
  count_event type f k n = record {
    type = type;
    stream_idx = f.stream_idx;
    frame_num = f.frame_num;
    ts_ms = f.ts_ms;
    track_id = 0;
    class_id = k;
    box = no_box d.zero_;
    count = n;
    zone = "";
  }

  -- One class of the third pass.
  unfoldable pub transit :
      EventsConfig d → Frame d → ℤ → ℕ → List (ℤ × Bool) → Sink d → List (ℤ × Bool) × Sink d
  transit c f k n latches s =
      if not (latched k latches) && leb c.count_threshold n
      then (set_latch k true latches, emit (count_event count_high f k n) s)
      else if latched k latches && leb n (c.count_threshold - c.count_hysteresis)
      then (set_latch k false latches, emit (count_event count_exit f k n) s)
      else (latches, s)

  -- 3. Count transitions.
  unfoldable pub transits :
      EventsConfig d → Frame d → List (ℤ × ℕ) → List (ℤ × Bool) → Sink d → List (ℤ × Bool) × Sink d
  transits c f [] latches s = (latches, s)
  transits c f ((k, n) ∷ counts) latches s =
      let (latches', s') = transit c f k n latches s in transits c f counts latches' s'
