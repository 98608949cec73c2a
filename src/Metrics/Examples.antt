-- ===== src/Metrics/Examples.antt =====
-- A ring whose entries run past the end of the array, and a window that ends with a frame.
use jetedge_agent.Prelude.Int.{pos}
use jetedge_agent.Prelude.Doubles.{whole}
use jetedge_agent.Metrics.Frames.{PerStream}
use jetedge_agent.Metrics.Rates.{Frame, input, output}
use jetedge_agent.Prelude.{ℕ, List, ◌+◌, ◌≤◌, ◌≡◌, refl, [], ◌∷◌, ◌++◌, some, arith}
use jetedge_agent.Metrics.Pending.{
  Pending, InFlight, pending_cap, put, on_latency_begin, on_latency_end, scan, shift, append,
  make_room, age_out,
}
use jetedge_agent.Metrics.Window.{window, view}
use jetedge_agent.Metrics.Fifo.{
  drop_stale, drop_if_full, ends, misses, on_latency_begin-view, on_latency_end-view,
}

abbrev started : ℕ → ℕ → Pending
started frame_num t = record { frame_num = frame_num; t_start_ns = t }

-- Frames 7, 8 and 9 at the slots 254, 255 and 0.
abbrev wrapped : InFlight
wrapped = record {
  pending = put 0 (started 9 3_000) (put 255 (started 8 2_000) (λ i. started 7 1_000));
  pending_head = 254;
  pending_size = 3;
  latency_desync = 0;
  latency_evicted = 0;
}

eighth_ended :
    (view (on_latency_end 8 9_000 wrapped).0 ≡ started 7 1_000 ∷ started 9 3_000 ∷ [])
    × ((on_latency_end 8 9_000 wrapped).1 ≡ some 7)
unfolding on_latency_end scan shift window
eighth_ended = (refl, refl)

on_latency_end-view_example :
    let (q', latency) = on_latency_end 8 9_000 wrapped in
    ((view q', latency) ≡ ends 8 9_000 (view wrapped))
    × (q'.pending_size ≤ pending_cap)
    × (q'.latency_desync ≡ wrapped.latency_desync + misses latency)
on_latency_end-view_example = on_latency_end-view 8 9_000 wrapped (omega arith)

stale_dropped :
    view (on_latency_begin 10 5_000_002_500 wrapped)
    ≡ started 9 3_000 ∷ started 10 5_000_002_500 ∷ []
unfolding on_latency_begin append make_room age_out window
stale_dropped = refl

on_latency_begin-view_example :
    let q' = on_latency_begin 10 5_000_002_500 wrapped in
    (view q'
      ≡ drop_if_full (drop_stale 5_000_002_500 (view wrapped))
        ++ (record { frame_num = 10; t_start_ns = 5_000_002_500 } ∷ []))
    × (q'.pending_size ≤ pending_cap)
    × (q'.latency_evicted + q'.pending_size ≡ wrapped.latency_evicted + wrapped.pending_size + 1)
on_latency_begin-view_example = on_latency_begin-view 10 5_000_002_500 wrapped (omega arith)

-- A window that starts at one second and has two frames already.
abbrev at_work : PerStream whole
at_work = record {
  stream_id = "front";
  input_frames = 40;
  infer_frames = 30;
  output_frames = 20;
  frames_with_objects = 3;
  total_detections = 5;
  run_start_ns = 0;
  window_input = 2;
  window_infer = 1;
  window_output = 0;
  window_start_ns = 1_000_000_000;
  latest_input_fps = 30;
  latest_infer_fps = 15;
  latest_output_fps = 15;
}

abbrev in_time : List Frame
in_time = input 1_500_000_000 ∷ output (pos 2) 2_000_000_000 ∷ []

abbrev frames_over : ℕ → ℕ → ℕ
frames_over n elapsed_ns = n
