-- ===== src/Metrics/Rates.antt =====
-- The frames of a window, and the rates that are made of them when it ends.
use jetedge_agent.Prelude.{◌-◌, ℕ, suc, ◌+◌, ◌≤◌, ◌<◌, ◌≡◌, List, [], ◌∷◌}
use jetedge_agent.Prelude.Int.{ℤ}
use jetedge_agent.Prelude.Words.{u64_mod}
use jetedge_agent.Prelude.Doubles.{Doubles}
use jetedge_agent.Metrics.Frames.{
  detected, PerStream, window_duration_ns, count_input, count_infer, count_output,
}

-- A frame that a probe sees on a stream, with the clock; behind the tracker also its objects.
pub data Frame : Type 0 where
  input infer : ℕ → Frame
  output : ℤ → ℕ → Frame

abbrev pub time : Frame → ℕ
time (input now) = now
time (infer now) = now
time (output n now) = now

-- How many frames of each kind there are.
unfoldable pub inputs_in : List Frame → ℕ
inputs_in [] = 0
inputs_in (input now ∷ fs) = suc (inputs_in fs)
inputs_in (infer now ∷ fs) = inputs_in fs
inputs_in (output n now ∷ fs) = inputs_in fs

unfoldable pub infers_in : List Frame → ℕ
infers_in [] = 0
infers_in (input now ∷ fs) = infers_in fs
infers_in (infer now ∷ fs) = suc (infers_in fs)
infers_in (output n now ∷ fs) = infers_in fs

unfoldable pub outputs_in : List Frame → ℕ
outputs_in [] = 0
outputs_in (input now ∷ fs) = outputs_in fs
outputs_in (infer now ∷ fs) = outputs_in fs
outputs_in (output n now ∷ fs) = suc (outputs_in fs)

-- The clock is in the window that starts at `start`.
abbrev pub IsWithin : ℕ → Frame → Type 0
IsWithin start f = (start ≤ time f) × (time f < start + window_duration_ns) × (time f < u64_mod)

module _ {d : Doubles} (rate : ℕ → ℕ → d.Double) where
  unfoldable pub on_frame : Frame → PerStream d → PerStream d
  on_frame (input now) ps = count_input rate now ps
  on_frame (infer now) ps = count_infer rate now ps
  on_frame (output n now) ps = count_output rate n now ps

  unfoldable pub on_frames : List Frame → PerStream d → PerStream d
  on_frames [] ps = ps
  on_frames (f ∷ fs) ps = on_frames fs (on_frame f ps)

  -- The window is open still, with the frames counted.
  record IsOpen (fs : List Frame) (ps q : PerStream d) : Type 0 where
    start : q.window_start_ns ≡ ps.window_start_ns
    inputs : q.window_input ≡ ps.window_input + inputs_in fs
    infers : q.window_infer ≡ ps.window_infer + infers_in fs
    outputs : q.window_output ≡ ps.window_output + outputs_in fs
    input_fps : q.latest_input_fps ≡ ps.latest_input_fps
    infer_fps : q.latest_infer_fps ≡ ps.latest_infer_fps
    output_fps : q.latest_output_fps ≡ ps.latest_output_fps

  -- What a frame counts, before the window is tested.
  unfoldable pub counted : Frame → PerStream d → PerStream d
  counted (input now) ps = record ps {
    input_frames = ps.input_frames + 1;
    window_input = ps.window_input + 1;
  }
  counted (infer now) ps = record ps {
    infer_frames = ps.infer_frames + 1;
    window_infer = ps.window_infer + 1;
  }
  counted (output n now) ps = record ps {
    output_frames = ps.output_frames + 1;
    frames_with_objects = ps.frames_with_objects + (detected n).0;
    total_detections = ps.total_detections + (detected n).1;
    window_output = ps.window_output + 1;
  }

  -- A window that has ended with a frame: the rates are of all its frames, the last included, over the
  -- time since its start, and the next one starts empty.
  pub record IsEnded (fs : List Frame) (f : Frame) (ps q : PerStream d) : Type 0 where
    pub input_fps :
        q.latest_input_fps
        ≡ rate (ps.window_input + inputs_in fs + inputs_in (f ∷ [])) (time f - ps.window_start_ns)
    pub infer_fps :
        q.latest_infer_fps
        ≡ rate (ps.window_infer + infers_in fs + infers_in (f ∷ [])) (time f - ps.window_start_ns)
    pub output_fps :
        q.latest_output_fps
        ≡ rate
            (ps.window_output + outputs_in fs + outputs_in (f ∷ []))
            (time f - ps.window_start_ns)
    pub empty : (q.window_input ≡ 0) × (q.window_infer ≡ 0) × (q.window_output ≡ 0)
    pub start : q.window_start_ns ≡ time f
