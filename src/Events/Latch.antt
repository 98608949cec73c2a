-- ===== src/Events/Latch.antt =====
-- The count latch of a class.
use Prim.Native.String.{String}
use jetedge_agent.Prelude.{
  ◌∙◌, ℕ, ◌+◌, ◌≡◌, refl, ◌==◌, ◌&&◌, Bool, true, false, List, [], ◌∷◌, ◌++◌, arith, All,
  Bool-cases, inl, inr, if◌then◌else◌,
}
use jetedge_agent.Prelude.Int.{ℤ, eqb_ℤ}
use jetedge_agent.Prelude.Doubles.{Doubles}
use jetedge_agent.Events.Types.{
  EventType, appearance, disappearance, count_high, count_exit, zone_entry, code, ObservedObject,
  EventsConfig, EventRecord,
}
use jetedge_agent.Events.State.{EventCounters, StreamState, Sink, Frame, emit, latched, set_latch}
use jetedge_agent.Events.Passes.{
  disappear, observe, tally_one, tally, transit, transits, watches_class, count_event,
}
use jetedge_agent.Events.Engine.{track_ids, process_frame, flush_stream}
use jetedge_agent.Events.Tracks.{one_if}
use jetedge_agent.Events.Emits.{KeptBy, disappear-keeps, flush_tracks-keeps, observe-keeps}
use jetedge_agent.Events.Lifecycle.{Call, frames, flushes, step, run}

latched-set_latch :
    (k j : ℤ) (b : Bool) (m : List (ℤ × Bool))
    → latched k (set_latch j b m) ≡ (if eqb_ℤ j k then b else latched k m)
unfolding latched set_latch
latched-set_latch k j b [] = refl
latched-set_latch k j b ((i, b') ∷ m) = ground (arith, latched-set_latch k j b m)

latched-eqb : (k j : ℤ) (m : List (ℤ × Bool)) → eqb_ℤ j k ≡ true → latched j m ≡ latched k m
unfolding latched
latched-eqb k j [] h = refl
latched-eqb k j ((i, b) ∷ m) h = ground (arith, latched-eqb k j m h)

-- No entry is for the class.
abbrev Without : ℤ → List (ℤ × ℕ) → Type 0
Without k = All (λ x. eqb_ℤ x.0 k ≡ false)

tally_one-Without :
    (k j : ℤ) (m : List (ℤ × ℕ)) → eqb_ℤ j k ≡ false → Without k m → Without k (tally_one j m)
unfolding tally_one
tally_one-Without k j [] h w = (h, tt)
tally_one-Without k j ((i, n) ∷ m) h w = ground (arith, tally_one-Without k j m h w.1)

module _ {d : Doubles} where
  tally-Without :
      (k : ℤ) (c : EventsConfig d) (os : List (ObservedObject d)) (m : List (ℤ × ℕ))
      → All (λ o. eqb_ℤ o.class_id k ≡ false) os
      → Without k m
      → Without k (tally c os m)
  unfolding tally
  tally-Without k c [] m h w = w
  tally-Without k c (o ∷ os) m h w = elim (Bool-cases (watches_class c o.class_id)) [
    | inl e ↦ rw e (tally-Without k c os _ h.1 (tally_one-Without k o.class_id m h.0 w))
    | inr e ↦ rw e (tally-Without k c os m h.1 w)
  ]

  -- The events of a kind for a class.
  abbrev pub of_class : EventType → ℤ → List (EventRecord d) → ℕ
  of_class type k [] = 0
  of_class type k (e ∷ es) =
      one_if (code e.type == code type && eqb_ℤ e.class_id k) + of_class type k es

  of_class-append :
      (type : EventType) (k : ℤ) (es : List (EventRecord d)) (e : EventRecord d)
      → of_class type k (es ++ (e ∷ []))
        ≡ of_class type k es + one_if (code e.type == code type && eqb_ℤ e.class_id k)
  of_class-append type k [] e = ground arith
  of_class-append type k (x ∷ es) e = ground (arith, of_class-append type k es e)

  of_class-join :
      (type : EventType) (k : ℤ) (es es' : List (EventRecord d))
      → of_class type k (es ++ es') ≡ of_class type k es + of_class type k es'
  of_class-join type k [] es' = omega arith
  of_class-join type k (x ∷ es) es' = omega (arith, of_class-join type k es es')

  -- Between the two, highs less exits have changed as the latch has.
  abbrev Latching : ℤ → List (ℤ × Bool) × Sink d → List (ℤ × Bool) × Sink d → Type 0
  Latching k (l, s) (l', s') =
      of_class count_high k s'.events + of_class count_exit k s.events + one_if (latched k l)
      ≡ of_class count_high k s.events + of_class count_exit k s'.events + one_if (latched k l')

  transit-Latching :
      (k : ℤ) (c : EventsConfig d) (f : Frame d) (j : ℤ) (n : ℕ) (l : List (ℤ × Bool)) (s : Sink d)
      → Latching k (l, s) (transit c f j n l s)
  unfolding transit count_event emit
  transit-Latching k c f j n l s =
      let high = count_event count_high f j n in
      let exit = count_event count_exit f j n in
      ground (
        arith,
        of_class-append count_high k s.events high,
        of_class-append count_exit k s.events high,
        of_class-append count_high k s.events exit,
        of_class-append count_exit k s.events exit,
        latched-set_latch k j true l,
        latched-set_latch k j false l,
        latched-eqb k j l,
      )

  transit-other :
      (k : ℤ) (c : EventsConfig d) (f : Frame d) (j : ℤ) (n : ℕ) (l : List (ℤ × Bool)) (s : Sink d)
      → eqb_ℤ j k ≡ false
      → (latched k (transit c f j n l s).0 ≡ latched k l)
        × (of_class count_high k (transit c f j n l s).1.events ≡ of_class count_high k s.events)
        × (of_class count_exit k (transit c f j n l s).1.events ≡ of_class count_exit k s.events)
  unfolding transit count_event emit
  transit-other k c f j n l s h =
      let high = count_event count_high f j n in
      let exit = count_event count_exit f j n in
      ground (
        arith,
        of_class-append count_high k s.events high,
        of_class-append count_exit k s.events high,
        of_class-append count_high k s.events exit,
        of_class-append count_exit k s.events exit,
        latched-set_latch k j true l,
        latched-set_latch k j false l,
      )

  transits-Latching :
      (k : ℤ) (c : EventsConfig d) (f : Frame d) (counts : List (ℤ × ℕ)) (l : List (ℤ × Bool))
      (s : Sink d)
      → Latching k (l, s) (transits c f counts l s)
  unfolding transits
  transits-Latching k c f [] l s = omega arith
  transits-Latching k c f ((j, n) ∷ counts) l s =
      let w = transit c f j n l s in
      omega (arith, transit-Latching k c f j n l s, transits-Latching k c f counts w.0 w.1)

  transits-Without :
      (k : ℤ) (c : EventsConfig d) (f : Frame d) (counts : List (ℤ × ℕ)) (l : List (ℤ × Bool))
      (s : Sink d)
      → Without k counts
      → (latched k (transits c f counts l s).0 ≡ latched k l)
        × (of_class count_high k (transits c f counts l s).1.events
            ≡ of_class count_high k s.events)
        × (of_class count_exit k (transits c f counts l s).1.events
            ≡ of_class count_exit k s.events)
  unfolding transits
  transits-Without k c f [] l s h = (refl, refl, refl)
  transits-Without k c f ((j, n) ∷ counts) l s h =
      let w = transit c f j n l s in
      let one = transit-other k c f j n l s h.0 in
      let rest = transits-Without k c f counts w.0 w.1 h.1 in
      (rest.0 ∙ one.0, rest.1 ∙ one.1, rest.2 ∙ one.2)

  -- The other passes emit no count events.
  abbrev Uncounted : ℤ → Sink d → Type 0
  Uncounted k s = (of_class count_high k s.events ≡ 0) × (of_class count_exit k s.events ≡ 0)

  emit-Uncounted :
      (k : ℤ) (type : EventType)
      → (code type == code count_high) ≡ false
      → (code type == code count_exit) ≡ false
      → KeptBy (Uncounted k) type
  unfolding emit
  emit-Uncounted k type h h' e s p q =
      ground
        (arith, of_class-append count_high k s.events e, of_class-append count_exit k s.events e)

  first_passes-Uncounted :
      (k : ℤ) (c : EventsConfig d) (ids : List String) (f : Frame d)
      (objects : List (ObservedObject d)) (ss : StreamState d) (n : EventCounters)
      → Uncounted k
          (observe c ids f objects
            (disappear c (track_ids objects) f ss.tracks (record { events = []; counters = n }))).1
  first_passes-Uncounted k c ids f objects ss n =
      observe-keeps (Uncounted k) c ids f objects _ (emit-Uncounted k appearance refl refl)
        (emit-Uncounted k zone_entry refl refl)
        (disappear-keeps (Uncounted k) c (track_ids objects) f ss.tracks _
          (emit-Uncounted k disappearance refl refl) (refl, refl))

  -- A frame with no object of a class leaves the class's latch as it is and emits no count event for
  -- it: when all objects of a class leave at once `count_exit` does not fire, and `count_high` stays
  -- disarmed for the next crowd.
  pub process_frame_absent :
      (k : ℤ) (c : EventsConfig d) (ids : List String) (f : Frame d)
      (objects : List (ObservedObject d)) (ss : StreamState d) (n : EventCounters)
      → All (λ o. eqb_ℤ o.class_id k ≡ false) objects
      → let out = process_frame c ids f objects ss n in
        (latched k out.stream.count_high_fired ≡ latched k ss.count_high_fired)
        × (of_class count_high k out.sink.events ≡ 0)
        × (of_class count_exit k out.sink.events ≡ 0)
  unfolding process_frame
  process_frame_absent k c ids f objects ss n h =
      let w =
        observe c ids f objects
          (disappear c (track_ids objects) f ss.tracks (record { events = []; counters = n })) in
      let none_yet = first_passes-Uncounted k c ids f objects ss n in
      let kept =
        transits-Without k c f (tally c objects []) ss.count_high_fired w.1
          (tally-Without k c objects [] h tt) in
      (kept.0, kept.1 ∙ none_yet.0, kept.2 ∙ none_yet.1)

  step_latch :
      (k : ℤ) (c : EventsConfig d) (ids : List String) (x : Call d) (ss : StreamState d)
      (n : EventCounters)
      → let out = step c ids x ss n in
        of_class count_high k out.sink.events + one_if (latched k ss.count_high_fired)
        ≡ of_class count_exit k out.sink.events + one_if (latched k out.stream.count_high_fired)
  unfolding step process_frame flush_stream
  step_latch k c ids (frames f objects) ss n = omega (
    arith,
    first_passes-Uncounted k c ids f objects ss n,
    transits-Latching k c f (tally c objects []) ss.count_high_fired
        (observe c ids f objects
          (disappear c (track_ids objects) f ss.tracks (record { events = []; counters = n }))).1,
  )
  step_latch k c ids (flushes f) ss n = omega (
    arith,
    flush_tracks-keeps (Uncounted k) f ss.tracks (record { events = []; counters = n })
        (emit-Uncounted k disappearance refl refl) (refl, refl),
  )

  run-latched :
      (k : ℤ) (c : EventsConfig d) (ids : List String) (xs : List (Call d)) (ss : StreamState d)
      (n : EventCounters)
      → let (last, es) = run c ids xs ss n in
        of_class count_high k es + one_if (latched k ss.count_high_fired)
        ≡ of_class count_exit k es + one_if (latched k last.count_high_fired)
  unfolding run
  run-latched k c ids [] ss n = refl
  run-latched k c ids (x ∷ xs) ss n =
      let out = step c ids x ss n in
      let es = (run c ids xs out.stream out.sink.counters).1 in
      omega (
        arith,
        step_latch k c ids x ss n,
        run-latched k c ids xs out.stream out.sink.counters,
        of_class-join count_high k out.sink.events es,
        of_class-join count_exit k out.sink.events es,
      )

  -- Over all frames and flushes of a stream from its start, `count_high` has fired for a class as
  -- often as `count_exit`, or once more: once more exactly while the class is latched. So the two
  -- alternate.
  pub run_latch :
      (k : ℤ) (c : EventsConfig d) (ids : List String) (xs : List (Call d)) (n : EventCounters)
      → let (last, es) = run c ids xs (record { tracks = []; count_high_fired = [] }) n in
        of_class count_high k es
        ≡ of_class count_exit k es + one_if (latched k last.count_high_fired)
  unfolding latched
  run_latch k c ids xs n =
      omega (arith, run-latched k c ids xs (record { tracks = []; count_high_fired = [] }) n)
