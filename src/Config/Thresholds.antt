-- ===== src/Config/Thresholds.antt =====
-- The ranges that the events section and the scheduler section keep to.
use Prim.Native.String.{String}
use mathlib.Core.Path.{subst}
use jetedge_agent.Events.Types.{ZoneRule}
use jetedge_agent.Prelude.{
  ℕ, ◌≤◌, ◌≡◌, refl, true, false, not, ◌||◌, List, [], ◌∷◌, ◌++◌, arith, All, All-append, Option,
  Bool-cases, Option-cases, inl, inr,
}
use jetedge_agent.Prelude.Int.{pos, ltb_ℤ}
use jetedge_agent.Prelude.Doubles.{Doubles}
use jetedge_agent.Scheduler.Policy.{SchedulerConfig}
use jetedge_agent.Config.Types.{EventsConfig}
use jetedge_agent.Config.Fields.{Yaml}
use jetedge_agent.Config.Sections.{not_empty, in_range, from}
use jetedge_agent.Config.Rules.{
  add_classes, add_zones, load_zone, load_rect, four, text_or, load_hysteresis, events_rows,
  load_events, scheduler_rows, load_scheduler,
}
use jetedge_agent.Config.Triples.{Takes, steps-Chain, AllO, part-Takes}

-- Between 0 and 100, and from 30 to 125, as the tests of the loader compare.
abbrev pub InPercent : (d : Doubles) → (ℕ → d.Double) → d.Double → Type 0
InPercent d literal v = (d.leb v (literal 0) ≡ false) × (d.leb (literal 1000) v ≡ false)

abbrev pub InDegrees : (d : Doubles) → (ℕ → d.Double) → d.Double → Type 0
InDegrees d literal v = (d.ltb v (literal 300) ≡ false) × (d.ltb (literal 1250) v ≡ false)

module _ {d : Doubles} where
  pub record SchedulerRanges (literal : ℕ → d.Double) (c : SchedulerConfig d) : Type 0 where
    pub sample : (1 ≤ c.sample_interval_sec) × (c.sample_interval_sec ≤ 60)
    pub hold : c.min_hold_ms ≤ 600_000
    pub cooldown : c.cooldown_ms ≤ 600_000
    pub adjustments : c.max_adjustments_per_window ≤ 10
    pub cpu_enter : InPercent d literal c.pressure_cpu_enter
    pub cpu_exit : InPercent d literal c.pressure_cpu_exit
    pub thermal_enter : InDegrees d literal c.thermal_temp_enter
    pub thermal_exit : InDegrees d literal c.thermal_temp_exit
    pub critical_enter : InDegrees d literal c.critical_temp_enter
    pub critical_exit : InDegrees d literal c.critical_temp_exit
    pub window : (10_000 ≤ c.adjust_window_ms) × (c.adjust_window_ms ≤ 3_600_000)

  -- Each threshold to leave a state is below the one to enter it, and CRITICAL is above THERMAL.
  pub record IsScheduler (literal : ℕ → d.Double) (c : SchedulerConfig d) : Type 0 where
    pub ranges : SchedulerRanges literal c
    pub cpu : d.leb c.pressure_cpu_enter c.pressure_cpu_exit ≡ false
    pub thermal : d.leb c.thermal_temp_enter c.thermal_temp_exit ≡ false
    pub critical : d.leb c.critical_temp_enter c.critical_temp_exit ≡ false
    pub ladder : d.leb c.critical_temp_enter c.thermal_temp_enter ≡ false

  abbrev OneOrder : (ℕ → d.Double) → SchedulerConfig d → Type 0
  OneOrder literal c =
      SchedulerRanges literal c × (d.leb c.pressure_cpu_enter c.pressure_cpu_exit ≡ false)

  abbrev TwoOrders : (ℕ → d.Double) → SchedulerConfig d → Type 0
  TwoOrders literal c =
      OneOrder literal c × (d.leb c.thermal_temp_enter c.thermal_temp_exit ≡ false)

  abbrev ThreeOrders : (ℕ → d.Double) → SchedulerConfig d → Type 0
  ThreeOrders literal c =
      TwoOrders literal c × (d.leb c.critical_temp_enter c.critical_temp_exit ≡ false)

  -- A zone has a name, and a size above 0.
  pub record IsZone (z : ZoneRule d) : Type 0 where
    pub named : not_empty z.name ≡ true
    pub wide : d.leb z.width d.zero_ ≡ false
    pub high : d.leb z.height d.zero_ ≡ false

  pub record EventsRanges (c : EventsConfig d) : Type 0 where
    pub keyframes : from 0 c.max_keyframes ≡ true
    pub quality : in_range 1 100 c.jpeg_quality ≡ true
    pub threshold : from 1 c.count_threshold ≡ true
    pub hysteresis : from 0 c.count_hysteresis ≡ true
    pub classes : All (λ k. from 0 k ≡ true) c.classes
    pub zones : All IsZone c.zones

module _ {N : Type 0} (d : Doubles) (literal : ℕ → d.Double) (y : Yaml N d.Double) where
  pub load_scheduler-IsScheduler :
      Takes (SchedulerRanges literal) (load_scheduler d literal y) (IsScheduler literal)
  unfolding load_scheduler scheduler_rows
  load_scheduler-IsScheduler =
      steps-Chain y (SchedulerRanges literal) (IsScheduler literal) (scheduler_rows d literal y) (
        (λ a c t p. ground arith),
        (
          (λ a c t p. ground arith),
          (
            (λ a c t p. ground arith),
            (
              (λ a c t p. ground arith),
              (
                OneOrder literal,
                (
                  (λ c t p. (p, ground (arith, t))),
                  (
                    (λ a c t p. ground arith),
                    (
                      (λ a c t p. ground arith),
                      (
                        TwoOrders literal,
                        (
                          (λ c t p. (p, ground (arith, t))),
                          (
                            (λ a c t p. ground arith),
                            (
                              (λ a c t p. ground arith),
                              (
                                ThreeOrders literal,
                                (
                                  (λ c t p. (p, ground (arith, t))),
                                  (
                                    IsScheduler literal,
                                    (
                                      (λ c t p. ground (arith, t)),
                                      (
                                        (λ a c t p. ground arith),
                                        (
                                          (λ a c t p. ground arith),
                                          (
                                            (λ a c t p. ground arith),
                                            ((λ a c t p. ground arith), refl),
                                          ),
                                        ),
                                      ),
                                    ),
                                  ),
                                ),
                              ),
                            ),
                          ),
                        ),
                      ),
                    ),
                  ),
                ),
              ),
            ),
          ),
        ),
      )

  add_classes-EventsRanges :
      (ns : List N) (c : EventsConfig d)
      → EventsRanges c
      → AllO EventsRanges (add_classes d literal y ns c)
  unfolding add_classes
  add_classes-EventsRanges [] c p = p
  add_classes-EventsRanges (n ∷ ns) c p = elim (Option-cases (y.as_int n)) [
    | inl e ↦ rw (add_classes, e) tt
    | inr (v, e) ↦ elim (Bool-cases (from 0 v)) [
      | inr f ↦ rw (add_classes, e, f) tt
      | inl f ↦
          let more = All-append (λ k. from 0 k ≡ true) c.classes (v ∷ []) p.classes (f, tt) in
          rw (add_classes, e, f)
            (add_classes-EventsRanges ns (record c { classes = c.classes ++ (v ∷ []) })
              (record {
                keyframes = p.keyframes;
                quality = p.quality;
                threshold = p.threshold;
                hysteresis = p.hysteresis;
                classes = more;
                zones = p.zones;
              }))
    ]
  ]

  load_rect-IsZone :
      (name stream_id : String) (a b e f : N)
      → not_empty name ≡ true
      → AllO IsZone (load_rect d literal y name stream_id a b e f)
  unfolding load_rect
  load_rect-IsZone name stream_id a b e f h = elim (Option-cases (y.as_double a)) [
    | inl i ↦ rw (load_rect, i) tt
    | inr (left, i) ↦ elim (Option-cases (y.as_double b)) [
      | inl j ↦ rw (load_rect, i, j) tt
      | inr (top, j) ↦ elim (Option-cases (y.as_double e)) [
        | inl k ↦ rw (load_rect, i, j, k) tt
        | inr (width, k) ↦ elim (Option-cases (y.as_double f)) [
          | inl l ↦ rw (load_rect, i, j, k, l) tt
          | inr (height, l) ↦ elim (Bool-cases (d.leb width d.zero_ || d.leb height d.zero_)) [
            | inl m ↦ rw (load_rect, i, j, k, l, m) tt
            | inr m ↦
                rw (load_rect, i, j, k, l, m)
                  (record { named = h; wide = ground (arith, m); high = ground (arith, m) })
          ]
        ]
      ]
    ]
  ]

  four-IsZone :
      (ns : List N) (f : N → N → N → N → Option (ZoneRule d))
      → ((a b e g : N) → AllO IsZone (f a b e g))
      → AllO IsZone (four d literal y ns f)
  unfolding four
  four-IsZone [] f h = tt
  four-IsZone (a ∷ []) f h = tt
  four-IsZone (a ∷ b ∷ []) f h = tt
  four-IsZone (a ∷ b ∷ e ∷ []) f h = tt
  four-IsZone (a ∷ b ∷ e ∷ g ∷ []) f h = h a b e g
  four-IsZone (a ∷ b ∷ e ∷ g ∷ i ∷ ns) f h = tt

  load_zone-IsZone : (n : N) → AllO IsZone (load_zone d literal y n)
  unfolding load_zone
  load_zone-IsZone z = elim (Option-cases (y.member z "name")) [
    | inl i ↦ rw (load_zone, i) tt
    | inr (n, i) ↦ elim (Option-cases (y.as_text n)) [
      | inl j ↦ rw (load_zone, i, j) tt
      | inr (name, j) ↦ elim (Bool-cases (not_empty name)) [
        | inr k ↦ rw (load_zone, i, j, k) tt
        | inl k ↦ elim (Option-cases (text_or d literal y "stream_id" "" z)) [
          | inl l ↦ rw (load_zone, i, j, k, l) tt
          | inr (stream_id, l) ↦ elim (Option-cases (y.member z "rect")) [
            | inl m ↦ rw (load_zone, i, j, k, l, m) tt
            | inr (rect, m) ↦
                rw (load_zone, i, j, k, l, m)
                  (four-IsZone (y.items rect) (load_rect d literal y name stream_id)
                    (λ a b e f. load_rect-IsZone name stream_id a b e f k))
          ]
        ]
      ]
    ]
  ]

  add_zones-EventsRanges :
      (ns : List N) (c : EventsConfig d)
      → EventsRanges c
      → AllO EventsRanges (add_zones d literal y ns c)
  unfolding add_zones
  add_zones-EventsRanges [] c p = p
  add_zones-EventsRanges (n ∷ ns) c p = elim (Option-cases (load_zone d literal y n)) [
    | inl e ↦ rw (add_zones, e) tt
    | inr (z, e) ↦
        let zone = subst (AllO IsZone) e (load_zone-IsZone n) in
        rw (add_zones, e)
          (add_zones-EventsRanges ns (record c { zones = c.zones ++ (z ∷ []) })
            (record {
              keyframes = p.keyframes;
              quality = p.quality;
              threshold = p.threshold;
              hysteresis = p.hysteresis;
              classes = p.classes;
              zones = All-append IsZone c.zones (z ∷ []) p.zones (zone, tt);
            }))
  ]

  load_hysteresis-EventsRanges : Takes EventsRanges (load_hysteresis d literal y) EventsRanges
  unfolding load_hysteresis
  load_hysteresis-EventsRanges n c p = elim (Option-cases (y.as_int n)) [
    | inl e ↦ rw (load_hysteresis, e) tt
    | inr (v, e) ↦ elim (Bool-cases (ltb_ℤ v (pos 0) || not (ltb_ℤ v c.count_threshold))) [
      | inl f ↦ rw (load_hysteresis, e, f) tt
      | inr f ↦
          rw (load_hysteresis, e, f)
            (record {
              keyframes = p.keyframes;
              quality = p.quality;
              threshold = p.threshold;
              hysteresis = ground (arith, f);
              classes = p.classes;
              zones = p.zones;
            })
    ]
  ]

  pub load_events-EventsRanges : Takes EventsRanges (load_events d literal y) EventsRanges
  unfolding load_events events_rows
  load_events-EventsRanges = steps-Chain y EventsRanges EventsRanges (events_rows d literal y) (
    (λ a c t p. ground arith),
    (
      (λ a c t p. ground arith),
      (
        (λ a c t p. ground arith),
        (
          (λ a c t p. ground arith),
          (
            (λ a c t p. ground arith),
            (
              (λ a c t p. ground arith),
              (
                (λ a c t p. ground arith),
                (
                  part-Takes y EventsRanges _ _ load_hysteresis-EventsRanges,
                  (
                    part-Takes y EventsRanges _ _ (λ n. add_classes-EventsRanges (y.items n)),
                    (part-Takes y EventsRanges _ _ (λ n. add_zones-EventsRanges (y.items n)), refl),
                  ),
                ),
              ),
            ),
          ),
        ),
      ),
    ),
  )
