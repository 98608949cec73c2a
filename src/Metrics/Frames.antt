-- ===== src/Metrics/Frames.antt =====
-- src/metrics/metrics_registry.cpp: the registration of streams and the frame counters, with their
-- window of two seconds. `rate` is the division of a count by an elapsed time in nanoseconds; `now` is
-- what the clock returns to the call. Logging is left out.
use Prim.Native.String.{String}
use jetedge_agent.Prelude.{
  ℕ, ◌+◌, Bool, false, ltb, leb, if◌then◌else◌, List, [], ◌∷◌, ◌++◌, none, some, length, get_elem?,
  set,
}
use jetedge_agent.Prelude.Int.{ℤ, pos, negsuc}
use jetedge_agent.Prelude.Words.{sub64}
use jetedge_agent.Prelude.Doubles.{Doubles}

abbrev pub window_duration_ns : ℕ
window_duration_ns = 2_000_000_000

pub record PerStream (d : Doubles) : Type 0 where
  pub stream_id : String
  pub input_frames : ℕ
  pub infer_frames : ℕ
  pub output_frames : ℕ
  pub frames_with_objects : ℕ
  pub total_detections : ℕ
  pub run_start_ns : ℕ
  pub window_input : ℕ
  pub window_infer : ℕ
  pub window_output : ℕ
  pub window_start_ns : ℕ
  pub latest_input_fps : d.Double
  pub latest_infer_fps : d.Double
  pub latest_output_fps : d.Double

module _ {d : Doubles} where
  unfoldable pub register_stream : String → ℕ → List (PerStream d) → List (PerStream d) × ℕ
  register_stream id now streams = (
    streams
        ++ (record {
          stream_id = id;
          input_frames = 0;
          infer_frames = 0;
          output_frames = 0;
          frames_with_objects = 0;
          total_detections = 0;
          run_start_ns = now;
          window_input = 0;
          window_infer = 0;
          window_output = 0;
          window_start_ns = now;
          latest_input_fps = d.zero_;
          latest_infer_fps = d.zero_;
          latest_output_fps = d.zero_;
        }
            ∷ []),
    length streams,
  )

  -- The check of the index, and the call on the stream's entry.
  unfoldable pub at_stream :
      ℤ → (PerStream d → PerStream d) → List (PerStream d) → List (PerStream d)
  at_stream (negsuc i) f streams = streams
  at_stream (pos i) f streams = elim (get_elem? streams i) [
    | none ↦ streams
    | some ps ↦ set streams i (f ps)
  ]

-- How much an object count adds to `frames_with_objects` and to `total_detections`.
abbrev pub detected : ℤ → ℕ × ℕ
detected (negsuc n) = (0, 0)
detected (pos n) = if ltb 0 n then (1, n) else (0, 0)

module _ {d : Doubles} (rate : ℕ → ℕ → d.Double) where
  unfoldable pub maybe_roll_window : ℕ → PerStream d → PerStream d
  maybe_roll_window now ps =
      let elapsed = sub64 now ps.window_start_ns in
      if leb window_duration_ns elapsed
      then record ps {
        latest_input_fps = rate ps.window_input elapsed;
        latest_infer_fps = rate ps.window_infer elapsed;
        latest_output_fps = rate ps.window_output elapsed;
        window_input = 0;
        window_infer = 0;
        window_output = 0;
        window_start_ns = now;
      }
      else ps

  unfoldable pub count_input : ℕ → PerStream d → PerStream d
  unfolding maybe_roll_window
  count_input now ps =
      maybe_roll_window now
        (record ps { input_frames = ps.input_frames + 1; window_input = ps.window_input + 1 })

  unfoldable pub count_infer : ℕ → PerStream d → PerStream d
  unfolding maybe_roll_window
  count_infer now ps =
      maybe_roll_window now
        (record ps { infer_frames = ps.infer_frames + 1; window_infer = ps.window_infer + 1 })

  unfoldable pub count_output : ℤ → ℕ → PerStream d → PerStream d
  unfolding maybe_roll_window
  count_output obj_count now ps =
      let (with_objects, detections) = detected obj_count in
      maybe_roll_window now (record ps {
        output_frames = ps.output_frames + 1;
        frames_with_objects = ps.frames_with_objects + with_objects;
        total_detections = ps.total_detections + detections;
        window_output = ps.window_output + 1;
      })

  unfoldable pub on_input_frame : ℤ → ℕ → List (PerStream d) → List (PerStream d)
  unfolding at_stream count_input
  on_input_frame stream_idx now streams = at_stream stream_idx (count_input now) streams

  unfoldable pub on_infer_frame : ℤ → ℕ → List (PerStream d) → List (PerStream d)
  unfolding at_stream count_infer
  on_infer_frame stream_idx now streams = at_stream stream_idx (count_infer now) streams

  unfoldable pub on_output_frame : ℤ → ℤ → ℕ → List (PerStream d) → List (PerStream d)
  unfolding at_stream count_output
  on_output_frame stream_idx obj_count now streams =
      at_stream stream_idx (count_output obj_count now) streams

unfoldable pub valid_index : {d : Doubles} → ℤ → List (PerStream d) → Bool
valid_index (negsuc i) streams = false
valid_index (pos i) streams = ltb i (length streams)

unfoldable pub stream_id_of : {d : Doubles} → ℤ → List (PerStream d) → String
stream_id_of (negsuc i) streams = ""
stream_id_of (pos i) streams = elim (get_elem? streams i) [ none ↦ "" | some ps ↦ ps.stream_id ]
