-- ===== src/Events/Types.antt =====
-- include/jetedge/events/event_types.h: what the rule engine reads and emits. Coordinates and
-- confidences are abstract floats; names are texts.
use Prim.Native.String.{String}
use jetedge_agent.Prelude.{ℕ, List}
use jetedge_agent.Prelude.Int.{ℤ}
use jetedge_agent.Prelude.Doubles.{Doubles}

pub data EventType : Type 0 where
  appearance disappearance count_high count_exit zone_entry : EventType

-- The enumerator's value.
abbrev pub code : EventType → ℕ
code appearance = 0
code disappearance = 1
code count_high = 2
code count_exit = 3
code zone_entry = 4

module _ (d : Doubles) where
  -- The floats that an object, a track and an event carry alike.
  pub record Box : Type 0 where
    pub confidence : d.Double
    pub left : d.Double
    pub top : d.Double
    pub width : d.Double
    pub height : d.Double

  pub record ObservedObject : Type 0 where
    pub track_id : ℕ
    pub class_id : ℤ
    pub box : Box

  pub record ZoneRule : Type 0 where
    pub name : String
    pub stream_id : String
    pub left : d.Double
    pub top : d.Double
    pub width : d.Double
    pub height : d.Double

  -- The members that the engine reads.
  pub record EventsConfig : Type 0 where
    pub disappear_grace_frames : ℕ
    pub count_threshold : ℕ
    pub count_hysteresis : ℕ
    pub classes : List ℤ
    pub zones : List ZoneRule

  -- An event fills in the members of its kind; the others keep their defaults.
  pub record EventRecord : Type 0 where
    pub type : EventType
    pub stream_idx : ℤ
    pub frame_num : ℕ
    pub ts_ms : ℕ
    pub track_id : ℕ
    pub class_id : ℤ
    pub box : Box
    pub count : ℕ
    pub zone : String
