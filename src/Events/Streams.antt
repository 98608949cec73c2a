-- ===== src/Events/Streams.antt =====
-- src/events/event_engine.cpp: the engine over all streams, `stream_state` and the indexing of
-- `process_frame`, `flush_stream` and `stream_counters`. `none` is an access out of range, which the
-- C++ leaves undefined.
use Prim.Native.String.{String}
use jetedge_agent.Prelude.{
  get_elem?-some, ℕ, suc, ◌-◌, ◌<◌, ◌≡◌, List, [], ◌++◌, Option, none, some, length, get_elem?, set,
  replicate, arith, leb, if◌then◌else◌, length-append, length-set, length-replicate,
}
use jetedge_agent.Prelude.Int.{ℤ, pos, negsuc}
use jetedge_agent.Prelude.Doubles.{Doubles}
use jetedge_agent.Events.Types.{ObservedObject, EventsConfig, EventRecord}
use jetedge_agent.Events.State.{EventCounters, StreamState, Frame, no_counts}
use jetedge_agent.Events.Engine.{Outcome, process_frame, flush_stream}

pub record EventEngine (d : Doubles) : Type 0 where
  pub config : EventsConfig d
  pub stream_ids : List String
  pub streams : List (StreamState d)
  pub counters : List EventCounters

module _ {d : Doubles} where
  abbrev pub no_tracks : StreamState d
  no_tracks = record { tracks = []; count_high_fired = [] }

  -- The constructor: state for every configured stream.
  unfoldable pub init : EventsConfig d → List String → EventEngine d
  init config ids = record {
    config = config;
    stream_ids = ids;
    streams = replicate (length ids) no_tracks;
    counters = replicate (length ids) no_counts;
  }

  -- `stream_state` at an index that is not negative: the vectors grow together up to it.
  unfoldable pub grow : ℕ → EventEngine d → EventEngine d
  grow i e =
      let missing = suc i - length e.streams in
      record e {
        streams = e.streams ++ replicate missing no_tracks;
        counters = e.counters ++ replicate missing no_counts;
      }

  -- Write a stream's outcome back, and return its events.
  unfoldable pub put_back : ℕ → EventEngine d → Outcome d → EventEngine d × List (EventRecord d)
  put_back i e out = (
    record e {
      streams = set e.streams i out.stream;
      counters = set e.counters i out.sink.counters;
    },
    out.sink.events,
  )

  -- `counters_[static_cast<size_t>(stream_idx)]` does not clamp: a negative index is out of range.
  unfoldable pub process_frame_at :
      ℤ
      → ℕ
      → ℕ
      → List (ObservedObject d)
      → EventEngine d
      → Option (EventEngine d × List (EventRecord d))
  unfolding grow put_back
  process_frame_at (negsuc i) frame_num ts_ms objects e = none
  process_frame_at (pos i) frame_num ts_ms objects e =
      let e' = grow i e in
      let f : Frame d = record { stream_idx = pos i; frame_num = frame_num; ts_ms = ts_ms } in
      elim (get_elem? e'.streams i) [
        | none ↦ none
        | some ss ↦ elim (get_elem? e'.counters i) [
          | none ↦ none
          | some n ↦ some (put_back i e' (process_frame e.config e.stream_ids f objects ss n))
        ]
      ]

  unfoldable pub flush_stream_at :
      ℤ → ℕ → EventEngine d → Option (EventEngine d × List (EventRecord d))
  unfolding put_back
  flush_stream_at (negsuc i) ts_ms e = some (e, [])
  flush_stream_at (pos i) ts_ms e =
      let f : Frame d = record { stream_idx = pos i; frame_num = 0; ts_ms = ts_ms } in
      if leb (length e.streams) i then some (e, []) else (elim (get_elem? e.streams i) [
        | none ↦ none
        | some ss ↦ elim (get_elem? e.counters i) [
          | none ↦ none
          | some n ↦ some (put_back i e (flush_stream f ss n))
        ]
      ])

  -- The two vectors have one length.
  abbrev pub Paired : EventEngine d → Type 0
  Paired e = length e.streams ≡ length e.counters

  length-grow :
      (i : ℕ) (e : EventEngine d) → Paired e → Paired (grow i e) × (i < length (grow i e).streams)
  unfolding grow
  length-grow i e p =
      let missing = suc i - length e.streams in
      omega (
        arith,
        length-append e.streams (replicate missing no_tracks),
        length-append e.counters (replicate missing no_counts),
        length-replicate missing no_tracks,
        length-replicate missing no_counts,
      )

  put_back-Paired :
      (i : ℕ) (e : EventEngine d) (out : Outcome d)
      → Paired e
      → i < length e.streams
      → Paired (put_back i e out).0 × (i < length (put_back i e out).0.streams)
  unfolding put_back
  put_back-Paired i e out p h =
      omega (arith, length-set e.streams i out.stream, length-set e.counters i out.sink.counters)

  -- On an engine whose two vectors have one length, a frame of any stream with an index that is not
  -- negative is processed without an access out of range, also for a stream that was not configured,
  -- and the two vectors keep one length, beyond the index.
  pub process_frame_at_total :
      (i frame_num ts_ms : ℕ) (objects : List (ObservedObject d)) (e : EventEngine d)
      → Paired e
      → (e' : EventEngine d) × (es : List (EventRecord d)) × (process_frame_at
            (pos i)
            frame_num
            ts_ms
            objects
            e
          ≡ some (e', es))
        × Paired e'
        × (i < length e'.streams)
  unfolding process_frame_at
  process_frame_at_total i frame_num ts_ms objects e p =
      let e₁ = grow i e in
      let grown = length-grow i e p in
      let (ss, at) = get_elem?-some e₁.streams i grown.1 in
      let (n, at') = get_elem?-some e₁.counters i (omega (arith, grown)) in
      let f : Frame d = record { stream_idx = pos i; frame_num = frame_num; ts_ms = ts_ms } in
      let out = process_frame e.config e.stream_ids f objects ss n in
      let kept = put_back-Paired i e₁ out grown.0 grown.1 in
      ((put_back i e₁ out).0, (put_back i e₁ out).1, ground (arith, at, at'), kept.0, kept.1)
