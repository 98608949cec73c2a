-- ===== src/Events/Emits.antt =====
-- What kinds of events each pass emits, and the counters against the events.
use jetedge_agent.Prelude.{
  ◌-◌, ◌||◌, leb, ℕ, ◌≡◌, refl, Bool, ◌&&◌, not, List, [], ◌∷◌, Option, none, some, Bool-cases, inl,
  inr,
}
use Prim.Native.String.{String}
use jetedge_agent.Prelude.Int.{ℤ}
use jetedge_agent.Prelude.Doubles.{Doubles}
use jetedge_agent.Events.Types.{
  EventType, appearance, disappearance, count_high, count_exit, zone_entry, ObservedObject,
  ZoneRule, EventsConfig, EventRecord,
}
use jetedge_agent.Events.State.{
  contains_text, latched, TrackState, Tracks, Sink, Frame, emit, track_event,
}
use jetedge_agent.Events.Passes.{
  in_zone, watches_class, stays, disappearance_event, zone_applies, disappear, flush_tracks,
  enter_zone, enter_zones, look_up, place, fire_zones, observe_one, observe, transit, transits,
  count_event, zone_event,
}

module _ {d : Doubles} (P : Sink d → Type 0) where
  -- What holds of a sink is kept by an event of a given kind.
  abbrev pub KeptBy : EventType → Type 0
  KeptBy type = (e : EventRecord d) (s : Sink d) → e.type ≡ type → P s → P (emit e s)

  pub disappear-keeps :
      (c : EventsConfig d) (seen : List ℕ) (f : Frame d) (m : Tracks d) (s : Sink d)
      → KeptBy disappearance
      → P s
      → P (disappear c seen f m s).1
  unfolding disappear track_event
  disappear-keeps c seen f [] s k h = h
  disappear-keeps c seen f ((id, t) ∷ m) s k h = elim (Bool-cases (stays c seen f.frame_num id t)) [
    | inl e ↦ rw e (disappear-keeps c seen f m s k h)
    | inr e ↦ rw e (
        disappear-keeps c seen f m (emit (disappearance_event f t.last_seen_ns id t) s) k
          (k (disappearance_event f t.last_seen_ns id t) s refl h))
  ]

  pub flush_tracks-keeps :
      (f : Frame d) (m : Tracks d) (s : Sink d)
      → KeptBy disappearance
      → P s
      → P (flush_tracks f m s).1
  unfolding flush_tracks track_event
  flush_tracks-keeps f [] s k h = h
  flush_tracks-keeps f ((id, t) ∷ m) s k h = elim (Bool-cases t.disappearance_fired) [
    | inl e ↦ simp e (flush_tracks-keeps f m s k h)
    | inr e ↦ simp e (
        flush_tracks-keeps f m (emit (disappearance_event f f.ts_ms id t) s) k
          (k (disappearance_event f f.ts_ms id t) s refl h))
  ]

  enter_zone-keeps :
      (ids : List String) (f : Frame d) (o : ObservedObject d) (z : ZoneRule d)
      (w : List String × Sink d)
      → KeptBy zone_entry
      → P w.1
      → P (enter_zone ids f o z w).1
  unfolding enter_zone zone_event
  enter_zone-keeps ids f o z (fired, s) k h =
      elim (Bool-cases (
        (not (zone_applies ids z f.stream_idx) || not (in_zone o.box z))
        || contains_text fired z.name)) [
          | inl e ↦ rw e h
          | inr e ↦ rw e (k (zone_event f o z.name) s refl h)
        ]

  pub enter_zones-keeps :
      (ids : List String) (f : Frame d) (o : ObservedObject d) (zs : List (ZoneRule d))
      (w : List String × Sink d)
      → KeptBy zone_entry
      → P w.1
      → P (enter_zones ids f o zs w).1
  unfolding enter_zones
  enter_zones-keeps ids f o [] w k h = h
  enter_zones-keeps ids f o (z ∷ zs) w k h =
      enter_zones-keeps ids f o zs (enter_zone ids f o z w) k (enter_zone-keeps ids f o z w k h)

  transit-keeps :
      (c : EventsConfig d) (f : Frame d) (j : ℤ) (n : ℕ) (l : List (ℤ × Bool)) (s : Sink d)
      → KeptBy count_high
      → KeptBy count_exit
      → P s
      → P (transit c f j n l s).1
  unfolding transit count_event
  transit-keeps c f j n l s k k' h =
      elim (Bool-cases (not (latched j l) && leb c.count_threshold n)) [
        | inl e ↦ rw e (k (count_event count_high f j n) s refl h)
        | inr e ↦
            elim (Bool-cases (latched j l && leb n (c.count_threshold - c.count_hysteresis))) [
              | inl e' ↦ rw (e, e') (k' (count_event count_exit f j n) s refl h)
              | inr e' ↦ rw (e, e') h
            ]
      ]

  pub transits-keeps :
      (c : EventsConfig d) (f : Frame d) (counts : List (ℤ × ℕ)) (l : List (ℤ × Bool)) (s : Sink d)
      → KeptBy count_high
      → KeptBy count_exit
      → P s
      → P (transits c f counts l s).1
  unfolding transits
  transits-keeps c f [] l s k k' h = h
  transits-keeps c f ((j, n) ∷ counts) l s k k' h =
      transits-keeps c f counts (transit c f j n l s).0 (transit c f j n l s).1 k k'
        (transit-keeps c f j n l s k k' h)

  pub place-keeps :
      (f : Frame d) (o : ObservedObject d) (m : Tracks d) (found : Option (TrackState d))
      (s : Sink d)
      → KeptBy appearance
      → P s
      → P (place f o (m, found) s).2
  unfolding place track_event
  place-keeps f o m none s k h = k _ s refl h
  place-keeps f o m (some t) s k h = h

  observe_one-keeps :
      (c : EventsConfig d) (ids : List String) (f : Frame d) (o : ObservedObject d)
      (w : Tracks d × Sink d)
      → KeptBy appearance
      → KeptBy zone_entry
      → P w.1
      → P (observe_one c ids f o w).1
  unfolding observe_one fire_zones
  observe_one-keeps c ids f o (m, s) k k' h = elim (Bool-cases (not (watches_class c o.class_id))) [
    | inl e ↦ rw e h
    | inr e ↦ rw e (
        enter_zones-keeps ids f o c.zones _ k'
          (place-keeps f o (look_up o.track_id m).0 (look_up o.track_id m).1 s k h))
  ]

  pub observe-keeps :
      (c : EventsConfig d) (ids : List String) (f : Frame d) (os : List (ObservedObject d))
      (w : Tracks d × Sink d)
      → KeptBy appearance
      → KeptBy zone_entry
      → P w.1
      → P (observe c ids f os w).1
  unfolding observe
  observe-keeps c ids f [] w k k' h = h
  observe-keeps c ids f (o ∷ os) w k k' h =
      observe-keeps c ids f os (observe_one c ids f o w) k k' (observe_one-keeps c ids f o w k k' h)
