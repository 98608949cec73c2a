-- ===== src/Config/Ranges.antt =====
-- The ranges that the RTSP section keeps to.
use jetedge_agent.Prelude.{ℕ, ◌≡◌, refl, true, false, arith}
use jetedge_agent.Prelude.Int.{ltb_ℤ}
use jetedge_agent.Prelude.Doubles.{Doubles}
use jetedge_agent.Config.Types.{RtspConfig}
use jetedge_agent.Config.Fields.{Yaml}
use jetedge_agent.Config.Sections.{in_range}
use jetedge_agent.Config.Rules.{load_rtsp, rtsp_rows, is_transport}
use jetedge_agent.Config.Triples.{Takes, steps-Chain}

module _ {d : Doubles} where
  pub record RtspRanges (c : RtspConfig d) : Type 0 where
    pub watch : in_range 1 60 c.watch_timeout_sec ≡ true
    pub first : in_range 1 120 c.first_frame_timeout_sec ≡ true
    pub retries : in_range 1 20 c.max_retries ≡ true
    pub base : in_range 100 60_000 c.backoff_base_ms ≡ true
    pub cap : in_range 100 600_000 c.backoff_max_ms ≡ true
    pub verify : in_range 1 60 c.verify_sec ≡ true
    pub latency : in_range 0 10_000 c.rtspsrc_latency_ms ≡ true
    pub transport : is_transport c.transport ≡ true

  -- The ranges, and the base no more than the cap.
  pub record IsRtsp (c : RtspConfig d) : Type 0 where
    pub ranges : RtspRanges c
    pub order : ltb_ℤ c.backoff_max_ms c.backoff_base_ms ≡ false

  -- Above 0 and no more than 60 frames per second, as the tests of the loader compare.
  pub record MinFps (literal : ℕ → d.Double) (c : RtspConfig d) : Type 0 where
    pub above : d.leb c.min_fps (literal 0) ≡ false
    pub below : d.ltb (literal 600) c.min_fps ≡ false

module _ {N : Type 0} (d : Doubles) (literal : ℕ → d.Double) (y : Yaml N d.Double) where
  pub load_rtsp-IsRtsp : Takes RtspRanges (load_rtsp d literal y) IsRtsp
  unfolding load_rtsp rtsp_rows
  load_rtsp-IsRtsp = steps-Chain y RtspRanges IsRtsp (rtsp_rows d literal y) (
    (λ a c t p. ground arith),
    (
      (λ a c t p. ground arith),
      (
        (λ a c t p. ground arith),
        (
          (λ a c t p. ground arith),
          (
            (λ a c t p. ground arith),
            (
              (λ a c t p. ground arith),
              (
                (λ a c t p. ground arith),
                (
                  IsRtsp,
                  (
                    (λ c t p. record { ranges = p; order = ground (arith, t) }),
                    (
                      (λ a c t q. ground arith),
                      (
                        (λ a c t q. ground arith),
                        ((λ a c t q. ground arith), ((λ a c t q. ground arith), refl)),
                      ),
                    ),
                  ),
                ),
              ),
            ),
          ),
        ),
      ),
    ),
  )

  pub load_rtsp-MinFps : Takes (MinFps literal) (load_rtsp d literal y) (MinFps literal)
  unfolding load_rtsp rtsp_rows
  load_rtsp-MinFps = steps-Chain y (MinFps literal) (MinFps literal) (rtsp_rows d literal y) (
    (λ a c t p. ground arith),
    (
      (λ a c t p. ground arith),
      (
        (λ a c t p. ground arith),
        (
          (λ a c t p. ground arith),
          (
            (λ a c t p. ground arith),
            (
              (λ a c t p. ground arith),
              (
                (λ a c t p. ground arith),
                (
                  MinFps literal,
                  (
                    (λ c t p. p),
                    (
                      (λ a c t p. ground arith),
                      (
                        (λ a c t p. ground arith),
                        ((λ a c t p. ground arith), ((λ a c t p. ground arith), refl)),
                      ),
                    ),
                  ),
                ),
              ),
            ),
          ),
        ),
      ),
    ),
  )
