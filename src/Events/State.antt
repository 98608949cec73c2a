-- ===== src/Events/State.antt =====
-- include/jetedge/events/event_engine.h and src/events/event_engine.cpp: the state of one stream. An
-- `unordered_map` is an association list, whose order stands for the map's iteration order.
use Prim.Native.String.{String}
use text.Mathlib.Text.{◌==◌ as str_eq}
use jetedge_agent.Prelude.{
  ℕ, ◌+◌, Bool, false, ◌||◌, ◌==◌, if◌then◌else◌, List, [], ◌∷◌, ◌++◌, Option, none, some,
}
use jetedge_agent.Prelude.Int.{ℤ, eqb_ℤ}
use jetedge_agent.Prelude.Doubles.{Doubles}
use jetedge_agent.Events.Types.{
  EventType, appearance, disappearance, count_high, count_exit, zone_entry, Box, EventRecord,
}

pub record EventCounters : Type 0 where
  pub appearances : ℕ
  pub disappearances : ℕ
  pub count_highs : ℕ
  pub count_exits : ℕ
  pub zone_entries : ℕ

abbrev pub no_counts : EventCounters
no_counts = record {
  appearances = 0;
  disappearances = 0;
  count_highs = 0;
  count_exits = 0;
  zone_entries = 0;
}

-- The `++` on the counter of the event's kind.
unfoldable pub bump : EventType → EventCounters → EventCounters
bump appearance n = record n { appearances = n.appearances + 1 }
bump disappearance n = record n { disappearances = n.disappearances + 1 }
bump count_high n = record n { count_highs = n.count_highs + 1 }
bump count_exit n = record n { count_exits = n.count_exits + 1 }
bump zone_entry n = record n { zone_entries = n.zone_entries + 1 }

-- The class → latch map; a missing class reads as false.
unfoldable pub latched : ℤ → List (ℤ × Bool) → Bool
latched k [] = false
latched k ((j, b) ∷ m) = if eqb_ℤ j k then b else latched k m

unfoldable pub set_latch : ℤ → Bool → List (ℤ × Bool) → List (ℤ × Bool)
set_latch k b [] = (k, b) ∷ []
set_latch k b ((j, b') ∷ m) = if eqb_ℤ j k then (j, b) ∷ m else (j, b') ∷ set_latch k b m

unfoldable pub contains_text : List String → String → Bool
contains_text [] a = false
contains_text (x ∷ xs) a = str_eq x a || contains_text xs a

unfoldable pub contains_class : List ℤ → ℤ → Bool
contains_class [] a = false
contains_class (x ∷ xs) a = eqb_ℤ x a || contains_class xs a

unfoldable pub contains_id : List ℕ → ℕ → Bool
contains_id [] a = false
contains_id (x ∷ xs) a = x == a || contains_id xs a

module _ (d : Doubles) where
  pub record TrackState : Type 0 where
    pub class_id : ℤ
    pub last_seen_frame : ℕ
    pub last_seen_ns : ℕ
    pub box : Box d
    pub disappearance_fired : Bool
    pub zones_fired : List String

  -- `tracks`, by track id.
  abbrev pub Tracks : Type 0
  Tracks = List (ℕ × TrackState)

  pub record StreamState : Type 0 where
    pub tracks : Tracks
    pub count_high_fired : List (ℤ × Bool)

  -- The events of this call so far and the stream's counters.
  pub record Sink : Type 0 where
    pub events : List (EventRecord d)
    pub counters : EventCounters

  -- The place of a frame: the parameters that every event of the call carries.
  pub record Frame : Type 0 where
    pub stream_idx : ℤ
    pub frame_num : ℕ
    pub ts_ms : ℕ

module _ {d : Doubles} where
  -- `events.push_back(e)` and the counter's `++`.
  unfoldable pub emit : EventRecord d → Sink d → Sink d
  unfolding bump
  emit e s = record { events = s.events ++ (e ∷ []); counters = bump e.type s.counters }

  unfoldable pub find : ℕ → Tracks d → Option (TrackState d)
  find id [] = none
  find id ((j, t) ∷ m) = if j == id then some t else find id m

  unfoldable pub erase : ℕ → Tracks d → Tracks d
  erase id [] = []
  erase id ((j, t) ∷ m) = if j == id then m else (j, t) ∷ erase id m

  -- A write through the iterator.
  unfoldable pub replace : ℕ → TrackState d → Tracks d → Tracks d
  replace id t [] = []
  replace id t ((j, u) ∷ m) = if j == id then (j, t) ∷ m else (j, u) ∷ replace id t m

  unfoldable pub track_event : EventType → Frame d → ℕ → TrackState d → EventRecord d
  track_event type f id t = record {
    type = type;
    stream_idx = f.stream_idx;
    frame_num = f.frame_num;
    ts_ms = f.ts_ms;
    track_id = id;
    class_id = t.class_id;
    box = t.box;
    count = 0;
    zone = "";
  }
