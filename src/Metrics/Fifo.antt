-- ===== src/Metrics/Fifo.antt =====
-- The frames in flight as a first-in-first-out list, of which the ring is an implementation.
use jetedge_agent.Prelude.{
  ℕ, zero, suc, ◌+◌, ◌-◌, ◌/◌, ◌%◌, ◌^◌, ◌==◌, ◌≤◌, ◌<◌, ◌≡◌, refl, true, ltb, leb, if◌then◌else◌,
  List, [], ◌∷◌, ◌++◌, Option, none, some, ◌⊎◌, inl, inr, Bool-cases, arith, length, ◌∙◌, sym, ap,
}
use jetedge_agent.Metrics.Pending.{
  Pending, InFlight, pending_cap, pending_max_age_ns, evict, age_out, make_room, append,
  on_latency_begin, scan, on_latency_end, shift, put,
}
use jetedge_agent.Metrics.Window.{
  window, view, length-window, window_next, window-append, window-put, remove_at, window-shift,
}

-- The entries that are not too old, from the first such one on; a start in the future counts as young.
abbrev pub drop_stale : ℕ → List Pending → List Pending
drop_stale now [] = []
drop_stale now (p ∷ ps) =
    if ltb now p.t_start_ns
    then p ∷ ps
    else if leb (now - p.t_start_ns) pending_max_age_ns
    then p ∷ ps
    else drop_stale now ps

abbrev pub drop_if_full : List Pending → List Pending
drop_if_full ps = if length ps == pending_cap then remove_at 0 ps else ps

-- The first entry of the frame, and the list without it.
abbrev pub take_first : ℕ → List Pending → Option (Pending × List Pending)
take_first frame_num [] = none
take_first frame_num (p ∷ ps) =
    if p.frame_num == frame_num
    then some (p, ps)
    else elim (take_first frame_num ps) [ none ↦ none | some (q, rest) ↦ some (q, p ∷ rest) ]

abbrev pub latency_of : ℕ → Pending → Option ℕ
latency_of now p =
    if ltb now p.t_start_ns then none else some (((now - p.t_start_ns) / 1000) % 2 ^ 32)

abbrev pub ends : ℕ → ℕ → List Pending → List Pending × Option ℕ
ends frame_num now ps = elim (take_first frame_num ps) [
  | none ↦ (ps, none)
  | some (p, rest) ↦ (rest, latency_of now p)
]

view-nil : (q : InFlight) → q.pending_size ≡ 0 → view q ≡ []
unfolding window
view-nil q e = rw e refl

view-cons :
    (q : InFlight) (n : ℕ)
    → q.pending_size ≡ suc n
    → view q ≡ q.pending (q.pending_head % pending_cap) ∷ view (evict q)
unfolding window
view-cons q n e =
    let size : q.pending_size - 1 ≡ n = omega arith in
    let slot : (q.pending_head + 0) % pending_cap ≡ q.pending_head % pending_cap = omega arith in
    rw (size, e, slot, window_next q.pending q.pending_head 0 n) refl

-- What the `while` loop drops, and that it counts each.
age_out_lem :
    (now n : ℕ) (q : InFlight)
    → q.pending_size ≡ n
    → let q' = age_out now n q in
      (view q' ≡ drop_stale now (view q))
      × (q'.pending_size ≤ n)
      × (q'.latency_evicted + q'.pending_size ≡ q.latency_evicted + n)
unfolding age_out
age_out_lem now zero q e = let empty = view-nil q e in (rw empty refl, omega arith, omega arith)
age_out_lem now (suc n) q e =
    let rest = age_out_lem now n (evict q) (omega arith) in
    let start = (q.pending (q.pending_head % pending_cap)).t_start_ns in
    elim (Bool-cases (ltb now start)) [
      | inl h ↦ simp (view-cons q n e, h) (refl, omega arith, omega arith)
      | inr h ↦ elim (Bool-cases (leb (now - start) pending_max_age_ns)) [
        | inl k ↦ simp (view-cons q n e, h, k) (refl, omega arith, omega arith)
        | inr k ↦
            simp (view-cons q n e, h, k) (rest.0, omega (arith, rest.1), omega (arith, rest.2))
      ]
    ]

make_room_lem :
    (q : InFlight)
    → q.pending_size ≤ pending_cap
    → let q' = make_room q in
      (view q' ≡ drop_if_full (view q))
      × (q'.pending_size < pending_cap)
      × (q'.latency_evicted + q'.pending_size ≡ q.latency_evicted + q.pending_size)
unfolding make_room
make_room_lem q l =
    let size = length-window q.pending q.pending_head 0 q.pending_size in
    elim (Bool-cases (q.pending_size == pending_cap)) [
      | inl h ↦
          let full : q.pending_size ≡ suc 255 = ground (arith, h) in
          let shown = view-cons q 255 full in
          (simp (size, h) (rw shown refl), ground (arith, h), ground (arith, h))
      | inr h ↦ (simp (size, h) refl, ground (arith, h), ground (arith, h))
    ]

append_lem :
    (frame_num now : ℕ) (q : InFlight)
    → q.pending_size < pending_cap
    → view (append frame_num now q)
      ≡ view q ++ (record { frame_num = frame_num; t_start_ns = now } ∷ [])
unfolding append
append_lem frame_num now q l =
    let p : Pending = record { frame_num = frame_num; t_start_ns = now } in
    let h = q.pending_head in
    let n = q.pending_size in
    let s = (h + n) % pending_cap in
    let kept = window-put q.pending p s h 0 n n refl (inl (omega arith, omega arith)) in
    let hit : ((h + (0 + n)) % pending_cap == s) ≡ true = ground arith in
    let grown : q.pending_size + 1 ≡ suc q.pending_size = omega arith in
    rw grown (window-append (put s p q.pending) h 0 n ∙ rw (hit, kept) refl)

-- The scan finds the first entry of the frame.
scan_lem :
    (frame_num : ℕ) (f : ℕ → Pending) (h i n : ℕ)
    → (scan frame_num f h i n ≡ none) × (take_first frame_num (window f h i n) ≡ none)
      ⊎ ((k : ℕ) × (scan frame_num f h i n ≡ some (i + k))
          × (k < n)
          × (take_first frame_num (window f h i n)
              ≡ some (f ((h + (i + k)) % pending_cap), remove_at k (window f h i n))))
unfolding scan window
scan_lem frame_num f h i zero = inl (refl, refl)
scan_lem frame_num f h i (suc n) =
    elim (Bool-cases ((f ((h + i) % pending_cap)).frame_num == frame_num)) [
      | inl e ↦
          let here : i + 0 ≡ i = omega arith in
          inr (0, rw (e, here) refl, omega arith, rw (e, here) refl)
      | inr e ↦ elim (scan_lem frame_num f h (i + 1) n) [
        | inl (g, t) ↦ inl (rw (e, g) refl, rw (e, t) refl)
        | inr (k, g, l, t) ↦
            let later : i + suc k ≡ i + 1 + k = omega arith in
            inr (suc k, rw (e, g, later) refl, omega arith, rw (e, t, later) refl)
      ]
    ]

-- On a ring of at most `kPendingCap` entries `on_latency_begin` drops the entries at the front that
-- are too old, then the oldest one if the ring is still full, and puts the frame at the end; it never
-- holds more than `kPendingCap`, and counts every entry that it drops as evicted.
pub on_latency_begin-view :
    (frame_num now : ℕ) (q : InFlight)
    → q.pending_size ≤ pending_cap
    → let q' = on_latency_begin frame_num now q in
      (view q'
        ≡ drop_if_full (drop_stale now (view q))
          ++ (record { frame_num = frame_num; t_start_ns = now } ∷ []))
      × (q'.pending_size ≤ pending_cap)
      × (q'.latency_evicted + q'.pending_size ≡ q.latency_evicted + q.pending_size + 1)
unfolding on_latency_begin append
on_latency_begin-view frame_num now q l =
    let young = age_out now q.pending_size q in
    let aged = age_out_lem now q.pending_size q refl in
    let room = make_room_lem young (omega (arith, aged.1)) in
    (
      append_lem frame_num now (make_room young) room.1 ∙ rw (room.0, aged.0) refl,
      omega (arith, room.1),
      omega (arith, room.2, aged.2),
    )

abbrev pub misses : Option ℕ → ℕ
misses none = 1
misses (some n) = 0

view-taken :
    (q : InFlight) (k : ℕ)
    → q.pending_size ≤ pending_cap
    → k < q.pending_size
    → window
        (shift q.pending_head k q.pending)
        ((q.pending_head + 1) % pending_cap)
        0
        (q.pending_size - 1)
      ≡ remove_at k (view q)
view-taken q k l b =
    let m = q.pending_size - 1 in
    let size : q.pending_size ≡ suc (q.pending_size - 1) = omega arith in
    let moved = window-shift q.pending q.pending_head m k (omega arith) (omega arith) in
    window_next (shift q.pending_head k q.pending) q.pending_head 0 m ∙ moved ∙ rw (sym size) refl

-- On a ring of at most `kPendingCap` entries `on_latency_end` takes the first entry of the frame out,
-- keeps the order of the others, and hands out the latency in microseconds modulo 2^32; without such
-- an entry it keeps all, and without one or with a start in the future it hands out nothing and counts
-- one desynchronisation.
pub on_latency_end-view :
    (frame_num now : ℕ) (q : InFlight)
    → q.pending_size ≤ pending_cap
    → let (q', latency) = on_latency_end frame_num now q in
      ((view q', latency) ≡ ends frame_num now (view q))
      × (q'.pending_size ≤ pending_cap)
      × (q'.latency_desync ≡ q.latency_desync + misses latency)
unfolding on_latency_end
on_latency_end-view frame_num now q l =
    elim (scan_lem frame_num q.pending q.pending_head 0 q.pending_size) [
      | inl (g, t) ↦ simp (on_latency_end, g) (rw (t, ends) refl, l, refl)
      | inr (k, g, b, t) ↦
          let h = q.pending_head in
          let slot : (h + (0 + k)) % pending_cap ≡ (h + k) % pending_cap = omega arith in
          let found : scan frame_num q.pending h 0 q.pending_size ≡ some k =
            g ∙ ap some (omega arith) in
          let taken = view-taken q k l b in
          elim (Bool-cases (ltb now (q.pending ((h + k) % pending_cap)).t_start_ns)) [
            | inl e ↦
                simp (on_latency_end, found, e, taken)
                  (rw (t, ends, slot, e) refl, omega arith, refl)
            | inr e ↦
                simp (on_latency_end, found, e, taken)
                  (rw (t, ends, slot, e) refl, omega arith, omega arith)
          ]
    ]
