-- ===== src/Config/Waits.antt =====
-- What the loaded RTSP section means for the reconnection.
use jetedge_agent.Prelude.{ℕ, ◌≤◌, ◌≡◌, false, List, arith}
use jetedge_agent.Prelude.Int.{pos, pos_part, ltb_ℤ}
use jetedge_agent.Prelude.Doubles.{Doubles}
use jetedge_agent.Pipeline.Reconnect.{Params, reconnecting, init, backoff_ms}
use jetedge_agent.Pipeline.Reconnect.Failures.{
  Call, run, run-SameParams, init-exact, init_budget, run-init-IsBudgeted,
}
use jetedge_agent.Pipeline.Reconnect.Backoff.{backoff_ms_bounds}
use jetedge_agent.Config.Types.{RtspConfig}
use jetedge_agent.Config.Ranges.{IsRtsp}

-- As the pipeline fills them in.
abbrev pub params_of : {d : Doubles} → RtspConfig d → Params
params_of c = record {
  backoff_base_ms = c.backoff_base_ms;
  backoff_max_ms = c.backoff_max_ms;
  max_consecutive_failures = c.max_retries;
}

rtsp_init :
    {d : Doubles} (c : RtspConfig d)
    → IsRtsp c
    → ((init (params_of c)).backoff_base_ms ≡ pos_part c.backoff_base_ms)
      × ((init (params_of c)).backoff_max_ms ≡ pos_part c.backoff_max_ms)
      × ((init (params_of c)).max_consecutive_failures ≤ 20)
      × (pos_part c.backoff_base_ms ≤ 60_000)
rtsp_init c r =
    let base : ltb_ℤ c.backoff_base_ms (pos 100) ≡ false = ground (arith, r.ranges.base) in
    let exact = init-exact (params_of c) base r.order in
    let retries : ltb_ℤ (pos 20) c.max_retries ≡ false = ground (arith, r.ranges.retries) in
    (
      exact.0,
      exact.1,
      init_budget (params_of c) 20 (omega arith) retries,
      ground (arith, r.ranges.base),
    )

-- With an RTSP section that keeps its ranges, and after any history of a stream, a stream that waits
-- to reconnect waits at least the configured base and at most the configured cap.
pub backoff_ms-IsRtsp :
    {d : Doubles} (c : RtspConfig d) (cs : List Call)
    → IsRtsp c
    → (run (init (params_of c)) cs).state ≡ reconnecting
    → (n : ℕ) × (backoff_ms (run (init (params_of c)) cs) ≡ pos n)
      × (pos_part c.backoff_base_ms ≤ n)
      × (n ≤ pos_part c.backoff_max_ms)
backoff_ms-IsRtsp c cs r e =
    let p = run (init (params_of c)) cs in
    let same = run-SameParams (init (params_of c)) cs in
    let params = rtsp_init c r in
    let bounds =
      backoff_ms_bounds p (run-init-IsBudgeted (params_of c) cs) e
        (omega (arith, same.0, params.0, params.3)) (omega (arith, same.2, params.2)) in
    (
      bounds.0,
      bounds.1,
      omega (arith, same.0, params.0, bounds.2),
      omega (arith, same.1, params.1, bounds.3),
    )
