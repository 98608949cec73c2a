-- ===== src/Metrics/Pending.antt =====
-- include/jetedge/metrics/metrics_registry.h and src/metrics/metrics_registry.cpp: the frames of one
-- stream that are in flight, for `on_latency_begin` and `on_latency_end`. The fixed array `pending`
-- is a function of the slot, read at slots below `kPendingCap` only. Times are nanoseconds of the
-- monotonic clock. What `on_latency_end` does with a latency is its result.
use jetedge_agent.Prelude.{
  ℕ, zero, suc, ◌+◌, ◌-◌, ◌/◌, ◌%◌, ◌^◌, ◌==◌, ltb, leb, if◌then◌else◌, Option, none, some,
}

-- kPendingCap, kPendingMaxAgeNs
abbrev pub pending_cap : ℕ
pending_cap = 256

abbrev pub pending_max_age_ns : ℕ
pending_max_age_ns = 5_000_000_000

pub record Pending : Type 0 where
  pub frame_num : ℕ
  pub t_start_ns : ℕ

pub record InFlight : Type 0 where
  pub pending : ℕ → Pending
  pub pending_head : ℕ
  pub pending_size : ℕ
  pub latency_desync : ℕ
  pub latency_evicted : ℕ

abbrev pub put : ℕ → Pending → (ℕ → Pending) → ℕ → Pending
put slot x f = λ i. if i == slot then x else f i

-- Drop the front entry and count it as evicted.
abbrev pub evict : InFlight → InFlight
evict q = record q {
  pending_head = (q.pending_head + 1) % pending_cap;
  pending_size = q.pending_size - 1;
  latency_evicted = q.latency_evicted + 1;
}

-- The `while` loop, which runs at most once for each entry: `n` is the number of entries.
unfoldable pub age_out : ℕ → ℕ → InFlight → InFlight
age_out now zero q = q
age_out now (suc n) q =
    let start = (q.pending (q.pending_head % pending_cap)).t_start_ns in
    let rest = age_out now n (evict q) in
    if ltb now start then q else if leb (now - start) pending_max_age_ns then q else rest

unfoldable pub make_room : InFlight → InFlight
make_room q = if q.pending_size == pending_cap then evict q else q

unfoldable pub append : ℕ → ℕ → InFlight → InFlight
append frame_num now q = record q {
  pending =
      put ((q.pending_head + q.pending_size) % pending_cap)
        (record { frame_num = frame_num; t_start_ns = now }) q.pending;
  pending_size = q.pending_size + 1;
}

unfoldable pub on_latency_begin : ℕ → ℕ → InFlight → InFlight
unfolding append make_room age_out
on_latency_begin frame_num now q = append frame_num now (make_room (age_out now q.pending_size q))

-- The scan of `on_latency_end` from index `i` on, over `n` entries.
unfoldable pub scan : ℕ → (ℕ → Pending) → ℕ → ℕ → ℕ → Option ℕ
scan frame_num f head i zero = none
scan frame_num f head i (suc n) =
    let later = scan frame_num f head (i + 1) n in
    if (f ((head + i) % pending_cap)).frame_num == frame_num then some i else later

-- The loop that moves the entries before the found one up by a slot, from the found one down.
unfoldable pub shift : ℕ → ℕ → (ℕ → Pending) → ℕ → Pending
shift head zero f = f
shift head (suc i) f =
    shift head i (put ((head + suc i) % pending_cap) (f ((head + i) % pending_cap)) f)

-- The latency in microseconds, in 32 bits; `none` when there is no sample.
unfoldable pub on_latency_end : ℕ → ℕ → InFlight → InFlight × Option ℕ
on_latency_end frame_num now q = elim (scan frame_num q.pending q.pending_head 0 q.pending_size) [
  | none ↦ (record q { latency_desync = q.latency_desync + 1 }, none)
  | some found ↦
      let start = (q.pending ((q.pending_head + found) % pending_cap)).t_start_ns in
      let taken : InFlight = record q {
        pending = shift q.pending_head found q.pending;
        pending_head = (q.pending_head + 1) % pending_cap;
        pending_size = q.pending_size - 1;
      } in
      if ltb now start
      then (record taken { latency_desync = q.latency_desync + 1 }, none)
      else (taken, some (((now - start) / 1000) % 2 ^ 32))
]
