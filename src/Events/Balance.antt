-- ===== src/Events/Balance.antt =====
-- What each pass emits for a track id, balanced against the change of the track map.
use Prim.Native.String.{String}
use jetedge_agent.Prelude.{
  ℕ, ◌+◌, ◌≤◌, ◌≡◌, refl, ◌==◌, ◌&&◌, not, true, false, List, [], ◌∷◌, ◌++◌, arith, Option, none,
  some, Bool-cases, Option-cases, inl, inr, ◌⊎◌,
}
use jetedge_agent.Prelude.Doubles.{Doubles}
use jetedge_agent.Events.Types.{
  EventType, appearance, disappearance, zone_entry, code, ObservedObject, EventsConfig, EventRecord,
}
use jetedge_agent.Events.State.{TrackState, Tracks, Sink, Frame, emit, find, track_event}
use jetedge_agent.Events.Passes.{
  disappear, flush_tracks, disappearance_event, stays, look_up, place, fire_zones, refresh,
  new_track, observe_one, observe, watches_class, enter_zones,
}
use jetedge_agent.Events.Tracks.{
  one_if, occurs, unfired, live, find-none, occurs-append, live-append, occurs-erase, live-erase,
  occurs-replace, live-replace, find-append, find-replace,
}
use jetedge_agent.Events.Emits.{KeptBy, enter_zones-keeps}

module _ {d : Doubles} where
  -- The events of a kind for a track id.
  abbrev pub of_track : EventType → ℕ → List (EventRecord d) → ℕ
  of_track type i [] = 0
  of_track type i (e ∷ es) =
      one_if (code e.type == code type && e.track_id == i) + of_track type i es

  of_track-append :
      (type : EventType) (i : ℕ) (es : List (EventRecord d)) (e : EventRecord d)
      → of_track type i (es ++ (e ∷ []))
        ≡ of_track type i es + one_if (code e.type == code type && e.track_id == i)
  of_track-append type i [] e = ground arith
  of_track-append type i (x ∷ es) e = ground (arith, of_track-append type i es e)

  pub of_track-join :
      (type : EventType) (i : ℕ) (es es' : List (EventRecord d))
      → of_track type i (es ++ es') ≡ of_track type i es + of_track type i es'
  of_track-join type i [] es' = omega arith
  of_track-join type i (x ∷ es) es' = omega (arith, of_track-join type i es es')

  pub disappear_balance :
      (i : ℕ) (c : EventsConfig d) (seen : List ℕ) (f : Frame d) (m : Tracks d) (s : Sink d)
      → (of_track appearance i (disappear c seen f m s).1.events ≡ of_track appearance i s.events)
        × (of_track disappearance i (disappear c seen f m s).1.events
              + live i (disappear c seen f m s).0
            ≡ of_track disappearance i s.events + live i m)
        × (occurs i (disappear c seen f m s).0 ≡ occurs i m)
  unfolding disappear stays emit track_event
  disappear_balance i c seen f [] s = (refl, refl, refl)
  disappear_balance i c seen f ((id, t) ∷ m) s =
      let e = disappearance_event f t.last_seen_ns id t in
      ground (
        arith,
        disappear_balance i c seen f m s,
        disappear_balance i c seen f m (emit e s),
        of_track-append appearance i s.events e,
        of_track-append disappearance i s.events e,
      )

  pub flush_balance :
      (i : ℕ) (f : Frame d) (m : Tracks d) (s : Sink d)
      → (of_track appearance i (flush_tracks f m s).1.events ≡ of_track appearance i s.events)
        × (of_track disappearance i (flush_tracks f m s).1.events
            ≡ of_track disappearance i s.events + live i m)
        × (live i (flush_tracks f m s).0 ≡ 0)
        × (occurs i (flush_tracks f m s).0 ≡ occurs i m)
  unfolding flush_tracks emit track_event
  flush_balance i f [] s = (refl, omega arith, refl, refl)
  flush_balance i f ((id, t) ∷ m) s =
      let e = disappearance_event f f.ts_ms id t in
      ground (
        arith,
        flush_balance i f m s,
        flush_balance i f m (emit e s),
        of_track-append appearance i s.events e,
        of_track-append disappearance i s.events e,
      )

  -- Zone and count events leave the appearances and disappearances alone.
  abbrev pub Same : ℕ → Sink d → Sink d → Type 0
  Same i s s' =
      (of_track appearance i s'.events ≡ of_track appearance i s.events)
      × (of_track disappearance i s'.events ≡ of_track disappearance i s.events)

  pub emit-Same :
      (i : ℕ) (type : EventType) (s₀ : Sink d)
      → ((code type == code appearance) ≡ false)
      → ((code type == code disappearance) ≡ false)
      → KeptBy (Same i s₀) type
  unfolding emit
  emit-Same i type s₀ h k e s p q =
      ground
        (arith, of_track-append appearance i s.events e, of_track-append disappearance i s.events e)

  -- The map that the look-up leaves: a fired track of that id is gone.
  look_up_balance :
      (i id : ℕ) (m : Tracks d)
      → occurs id m ≤ 1
      → let (m', found) = look_up id m in
        (live i m' ≡ live i m)
        × (occurs i m' ≤ occurs i m)
        × (((found ≡ none) × (occurs id m' ≡ 0))
            ⊎ ((t : TrackState d) × (found ≡ some t) × (find id m' ≡ some t) × (unfired t ≡ true)))
  unfolding look_up
  look_up_balance i id m h = elim (Option-cases (find id m)) [
    | inl e ↦ ground (arith, e, find-none id m e)
    | inr (t, e) ↦ elim (Bool-cases t.disappearance_fired) [
      | inl fired ↦ ground (
        arith,
        e,
        fired,
        live-erase i id t m e,
        occurs-erase i id t m e,
        occurs-erase id id t m e,
      )
      | inr alive ↦
          let g : look_up id m ≡ (m, some t) = ground (arith, e, alive) in
          rw g (refl, omega arith, inr (t, refl, e, ground (arith, alive)))
    ]
  ]

  place_balance :
      (i : ℕ) (f : Frame d) (o : ObservedObject d) (m : Tracks d) (found : Option (TrackState d))
      (s : Sink d)
      → occurs i m ≤ 1
      → (((found ≡ none) × (occurs o.track_id m ≡ 0))
          ⊎ ((t : TrackState d) × (found ≡ some t)
              × (find o.track_id m ≡ some t)
              × (unfired t ≡ true)))
      → let (m', t', s') = place f o (m, found) s in
        (of_track appearance i s'.events + live i m ≡ of_track appearance i s.events + live i m')
        × (of_track disappearance i s'.events ≡ of_track disappearance i s.events)
        × (occurs i m' ≤ 1)
        × (find o.track_id m' ≡ some t')
        × (unfired t' ≡ true)
  unfolding place emit track_event refresh new_track
  place_balance i f o m found s h (inl (e, z)) =
      let a = track_event appearance f o.track_id (new_track f o) in
      let same : o.track_id ≡ i → occurs i m ≡ 0 = λ q. rw (← q) z in
      rw e (
        ground (
          arith,
          of_track-append appearance i s.events a,
          live-append i o.track_id (new_track f o) m,
        ),
        ground (arith, of_track-append disappearance i s.events a),
        ground (arith, same, occurs-append i o.track_id (new_track f o) m),
        find-append o.track_id (new_track f o) m z,
        refl,
      )
  place_balance i f o m found s h (inr (t, e, g, u)) = rw e (
    ground (arith, live-replace i o.track_id (refresh f o t) t m g refl),
    refl,
    ground (arith, occurs-replace i o.track_id (refresh f o t) m),
    find-replace o.track_id (refresh f o t) t m g,
    u,
  )

  fire_zones_balance :
      (i : ℕ) (c : EventsConfig d) (ids : List String) (f : Frame d) (o : ObservedObject d)
      (m : Tracks d) (t : TrackState d) (s : Sink d)
      → find o.track_id m ≡ some t
      → let (m', s') = fire_zones c ids f o (m, t, s) in
        (live i m' ≡ live i m) × (occurs i m' ≡ occurs i m) × Same i s s'
  unfolding fire_zones
  fire_zones_balance i c ids f o m t s e =
      let fired = (enter_zones ids f o c.zones (t.zones_fired, s)).0 in
      let t' : TrackState d = record t { zones_fired = fired } in
      (
        live-replace i o.track_id t' t m e refl,
        occurs-replace i o.track_id t' m,
        enter_zones-keeps (Same i s) ids f o c.zones (t.zones_fired, s)
            (emit-Same i zone_entry s refl refl) (refl, refl),
      )

  -- What the events so far say of a track id, against the map: each live track was live before or
  -- has appeared, and has not disappeared since. No id is in the map twice.
  abbrev pub Balanced : ℕ → ℕ → Tracks d × Sink d → Type 0
  Balanced i before (m, s) =
      (of_track appearance i s.events + before ≡ of_track disappearance i s.events + live i m)
      × ((j : ℕ) → occurs j m ≤ 1)

  object_balance :
      (i : ℕ) (c : EventsConfig d) (ids : List String) (f : Frame d) (o : ObservedObject d)
      (m : Tracks d) (s : Sink d)
      → occurs o.track_id m ≤ 1
      → occurs i m ≤ 1
      → let (m', s') = fire_zones c ids f o (place f o (look_up o.track_id m) s) in
        (of_track appearance i s'.events + live i m ≡ of_track appearance i s.events + live i m')
        × (of_track disappearance i s'.events ≡ of_track disappearance i s.events)
        × (occurs i m' ≤ 1)
  object_balance i c ids f o m s h k =
      let seen = look_up o.track_id m in
      let looked = look_up_balance i o.track_id m h in
      let there = place f o seen s in
      let placed = place_balance i f o seen.0 seen.1 s (omega (arith, looked.1)) looked.2 in
      let fired = fire_zones_balance i c ids f o there.0 there.1 there.2 placed.3 in
      (
        omega (arith, looked.0, placed.0, fired),
        omega (arith, placed.1, fired),
        omega (arith, placed.2, fired),
      )

  observe_one-Balanced :
      (i before : ℕ) (c : EventsConfig d) (ids : List String) (f : Frame d) (o : ObservedObject d)
      (m : Tracks d) (s : Sink d)
      → Balanced i before (m, s)
      → Balanced i before (observe_one c ids f o (m, s))
  unfolding observe_one
  observe_one-Balanced i before c ids f o m s b =
      elim (Bool-cases (not (watches_class c o.class_id))) [
        | inl e ↦ rw e b
        | inr e ↦
            let one = object_balance i c ids f o m s (b.1 o.track_id) (b.1 i) in
            rw e (
              omega (arith, b.0, one.0, one.1),
              λ j. (object_balance j c ids f o m s (b.1 o.track_id) (b.1 j)).2,
            )
      ]

  pub observe-Balanced :
      (i before : ℕ) (c : EventsConfig d) (ids : List String) (f : Frame d)
      (os : List (ObservedObject d)) (w : Tracks d × Sink d)
      → Balanced i before w
      → Balanced i before (observe c ids f os w)
  unfolding observe
  observe-Balanced i before c ids f [] w b = b
  observe-Balanced i before c ids f (o ∷ os) w b =
      observe-Balanced i before c ids f os (observe_one c ids f o w)
        (observe_one-Balanced i before c ids f o w.0 w.1 b)
