-- ===== src/Config/Loaded.antt =====
-- What holds of a configuration that is loaded.
use jetedge_agent.Prelude.{ℕ, ◌≤◌, ◌≡◌, Bool, true, [], All, length}
use jetedge_agent.Prelude.Doubles.{Doubles}
use jetedge_agent.Config.Types.{StreamConfig, StreamsConfig}
use jetedge_agent.Config.Fields.{Yaml}
use jetedge_agent.Config.Load.{type_allowed}
use jetedge_agent.Config.Ranges.{IsRtsp, MinFps}
use jetedge_agent.Config.Providers.{LlmRanges, IsControl}
use jetedge_agent.Config.Thresholds.{IsScheduler, EventsRanges}

module _ {d : Doubles} where
  pub record IsSection (literal : ℕ → d.Double) (c : StreamsConfig d) : Type 0 where
    pub events : EventsRanges c.events
    pub llm : LlmRanges c.llm
    pub rtsp : IsRtsp c.rtsp
    pub min_fps : MinFps literal c.rtsp
    pub scheduler : IsScheduler literal c.scheduler
    pub control : IsControl c.control

  -- What the loader is given, and what holds until it comes to the streams.
  pub record IsStart (literal : ℕ → d.Double) (c : StreamsConfig d) : Type 0 where
    pub sections : IsSection literal c
    pub none_yet : c.streams ≡ []

  -- The stream's type is one of the two, and RTSP only where it is enabled.
  abbrev pub Allowed : Bool → StreamConfig d → Type 0
  Allowed rtsp s = type_allowed rtsp s.type ≡ true

  pub record IsLoaded (literal : ℕ → d.Double) (c : StreamsConfig d) : Type 0 where
    pub sections : IsSection literal c
    pub streams : All (Allowed c.rtsp.enable) c.streams
    pub some_stream : 1 ≤ length c.streams

module _ {N : Type 0} (d : Doubles) (literal : ℕ → d.Double) (y : Yaml N d.Double) where
  -- The sections and the streams so far.
  abbrev WithStreams : StreamsConfig d → Type 0
  WithStreams c = IsSection literal c × All (Allowed c.rtsp.enable) c.streams
