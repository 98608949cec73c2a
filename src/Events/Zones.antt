-- ===== src/Events/Zones.antt =====
-- A zone fires once for a track.
use Prim.Native.String.{String}
use text.Mathlib.Text.{◌==◌ as str_eq}
use text.Mathlib.TextEquality.{eq_iff}
use jetedge_agent.Prelude.{
  ℕ, ◌+◌, ◌≤◌, ◌≡◌, refl, ◌==◌, ◌&&◌, ◌||◌, not, true, false, List, [], ◌∷◌, ◌++◌, arith,
  Bool-cases, inl, inr,
}
use jetedge_agent.Prelude.Doubles.{Doubles}
use jetedge_agent.Events.Types.{zone_entry, code, ObservedObject, ZoneRule, EventRecord}
use jetedge_agent.Events.State.{
  EventCounters, Tracks, StreamState, Sink, Frame, emit, contains_text,
}
use jetedge_agent.Events.Passes.{
  enter_zone, enter_zones, zone_event, zone_applies, in_zone, flush_tracks,
}
use jetedge_agent.Events.Engine.{flush_stream}
use jetedge_agent.Events.Tracks.{one_if}

abbrev pub times : String → List String → ℕ
times a [] = 0
times a (x ∷ xs) = one_if (str_eq x a) + times a xs

times-append :
    (a x : String) (xs : List String) → times a (xs ++ (x ∷ [])) ≡ times a xs + one_if (str_eq x a)
times-append a x [] = omega arith
times-append a x (y ∷ ys) = omega (arith, times-append a x ys)

-- A name that is not in the list does not occur in it, nor does an equal one.
times-absent :
    (a x : String) (xs : List String)
    → contains_text xs x ≡ false
    → str_eq x a ≡ true
    → times a xs ≡ 0
unfolding contains_text
times-absent a x [] h e = refl
times-absent a x (y ∷ ys) h e =
    ground (arith, eq_iff y x, eq_iff x a, eq_iff y a, times-absent a x ys)

module _ {d : Doubles} where
  -- The zone entries of a name.
  abbrev pub of_zone : String → List (EventRecord d) → ℕ
  of_zone a [] = 0
  of_zone a (e ∷ es) = one_if (code e.type == code zone_entry && str_eq e.zone a) + of_zone a es

  of_zone-append :
      (a : String) (es : List (EventRecord d)) (e : EventRecord d)
      → of_zone a (es ++ (e ∷ []))
        ≡ of_zone a es + one_if (code e.type == code zone_entry && str_eq e.zone a)
  of_zone-append a [] e = omega arith
  of_zone-append a (x ∷ es) e = omega (arith, of_zone-append a es e)

  -- What the loop has fired so far, against its events: `k` entries more than fired names.
  abbrev Once : String → ℕ → List String × Sink d → Type 0
  Once a k (fired, s) = (of_zone a s.events + k ≡ times a fired) × (times a fired ≤ 1)

  enter_zone-Once :
      (a : String) (k : ℕ) (ids : List String) (f : Frame d) (o : ObservedObject d) (z : ZoneRule d)
      (w : List String × Sink d)
      → Once a k w
      → Once a k (enter_zone ids f o z w)
  unfolding enter_zone emit zone_event
  enter_zone-Once a k ids f o z (fired, s) h =
      elim (Bool-cases (
        (not (zone_applies ids z f.stream_idx) || not (in_zone o.box z))
        || contains_text fired z.name)) [
          | inl e ↦ rw e h
          | inr e ↦ rw e (
              ground (
                arith,
                e,
                h,
                times-append a z.name fired,
                times-absent a z.name fired,
                of_zone-append a s.events (zone_event f o z.name),
              ))
        ]

  enter_zones-Once :
      (a : String) (k : ℕ) (ids : List String) (f : Frame d) (o : ObservedObject d)
      (zs : List (ZoneRule d)) (w : List String × Sink d)
      → Once a k w
      → Once a k (enter_zones ids f o zs w)
  unfolding enter_zones
  enter_zones-Once a k ids f o [] w h = h
  enter_zones-Once a k ids f o (z ∷ zs) w h =
      enter_zones-Once a k ids f o zs (enter_zone ids f o z w) (enter_zone-Once a k ids f o z w h)

  -- For a track that has fired a zone name at most once so far, an object's turn in the zone loop
  -- emits an entry of that name only if the track has not fired it yet, and marks it then: entries
  -- emitted and fires on record before add up to those on record after, at most one.
  pub enter_zones_once :
      (a : String) (ids : List String) (f : Frame d) (o : ObservedObject d) (zs : List (ZoneRule d))
      (fired : List String) (n : EventCounters)
      → times a fired ≤ 1
      → let (fired', s) = enter_zones ids f o zs (fired, record { events = []; counters = n }) in
        (of_zone a s.events + times a fired ≡ times a fired') × (times a fired' ≤ 1)
  enter_zones_once a ids f o zs fired n h =
      enter_zones-Once a (times a fired) ids f o zs (fired, record { events = []; counters = n })
        (omega arith, h)

  AllFired : Tracks d → Type 0
  AllFired [] = Unit
  AllFired ((id, t) ∷ m) = (t.disappearance_fired ≡ true) × AllFired m

  flush_tracks-AllFired :
      (f : Frame d) (m : Tracks d) (s : Sink d) → AllFired (flush_tracks f m s).0
  unfolding flush_tracks AllFired
  flush_tracks-AllFired f [] s = tt
  flush_tracks-AllFired f ((id, t) ∷ m) s = elim (Bool-cases t.disappearance_fired) [
    | inl e ↦ simp e (refl, flush_tracks-AllFired f m s)
    | inr e ↦ simp e (refl, flush_tracks-AllFired f m _)
  ]

  flush_tracks_again :
      (f : Frame d) (m : Tracks d) (s : Sink d) → AllFired m → flush_tracks f m s ≡ (m, s)
  unfolding flush_tracks AllFired
  flush_tracks_again f [] s h = refl
  flush_tracks_again f ((id, t) ∷ m) s h = ground (arith, flush_tracks_again f m s h.1)

  -- A flush is final: a second one, at any time, emits nothing and changes nothing.
  pub flush_stream_twice :
      (f g : Frame d) (ss : StreamState d) (n : EventCounters)
      → let out = flush_stream f ss n in
        flush_stream g out.stream out.sink.counters ≡ record {
          stream = out.stream;
          sink = record { events = []; counters = out.sink.counters };
        }
  unfolding flush_stream
  flush_stream_twice f g ss n =
      let s : Sink d = record { events = []; counters = n } in
      let w = flush_tracks f ss.tracks s in
      let again =
        flush_tracks_again g w.0 (record { events = []; counters = w.1.counters })
          (flush_tracks-AllFired f ss.tracks s) in
      rw again
