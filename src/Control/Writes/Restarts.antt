-- ===== src/Control/Writes/Restarts.antt =====
-- Restarts of one stream are kept apart.
use Prim.Native.String.{String}
use mathlib.Core.Path.{subst}
use jetedge_agent.Prelude.{
  ℕ, zero, suc, ◌-◌, ◌≤◌, ◌<◌, ◌≡◌, refl, ◌∙◌, ap, true, false, not, ◌&&◌, ltb, ◌==◌, List, [], ◌∷◌,
  ◌++◌, Option, none, some, get_elem?, get_or, set, length, length-append, length-replicate,
  replicate, arith, Bool-cases, Option-cases, inl, inr,
}
use jetedge_agent.Prelude.Int.{pos}
use jetedge_agent.Prelude.Words.{sub64, sub64_exact, u64_mod}
use jetedge_agent.Control.Requests.{find_stream_index}
use jetedge_agent.Control.Routes.{WriteOp}
use jetedge_agent.Control.Writes.{
  before_write, ControlBackend, SnapshotStore, Body, Change, World, Call, ControlConfig, Answer,
  err, WriteResult, restart_change, throttle, grow_restarts, check_params, load_increase,
}
use jetedge_agent.Control.Writes.Flow.{
  guarded, throttled, write_op, commit, concluded, verified, roll_back_write, audit, changed,
  capture_and_save_snapshot, restore, write_record,
}
use jetedge_agent.Control.Writes.Recorded.{saved_as}

get_or-set : (xs ys : List ℕ) (i v d : ℕ) → i < length xs → get_or (set xs i v ++ ys) i d ≡ v
get_or-set [] ys i v d h = ground arith
get_or-set (x ∷ xs) ys zero v d h = refl
get_or-set (x ∷ xs) ys (suc i) v d h = get_or-set xs ys i v d (omega arith)

grow_restarts-length : (idx : ℕ) (times : List ℕ) → idx < length (grow_restarts idx times)
unfolding grow_restarts
grow_restarts-length idx times = omega (
  arith,
  length-append times (replicate (suc idx - length times) 0),
  length-replicate {A = ℕ} (suc idx - length times) 0,
)

-- The time of the restart stands at the stream's index.
abbrev HasTime : ℕ → ℕ → Option (List ℕ) → Type 0
HasTime now idx none = Unit
HasTime now idx (some times) = (ys : List ℕ) → get_or (times ++ ys) idx 0 ≡ now

throttle-HasTime :
    (cfg : ControlConfig) (now idx : ℕ) (times : List ℕ)
    → HasTime now idx (throttle cfg now idx times)
unfolding throttle
throttle-HasTime cfg now idx times =
    let grown = grow_restarts idx times in
    let last = get_or grown idx 0 in
    elim (Bool-cases (not (last == 0) && ltb (sub64 now last) cfg.restart_min_interval_ms)) [
      | inl e ↦ rw (throttle, e) tt
      | inr e ↦
          rw (throttle, e) (λ ys. get_or-set grown ys idx now 0 (grow_restarts-length idx times))
    ]

pub throttle_twice :
    (cfg : ControlConfig) (now later idx : ℕ) (times kept : List ℕ)
    → throttle cfg now idx times ≡ some kept
    → 1 ≤ now
    → now ≤ later
    → later < u64_mod
    → later - now < cfg.restart_min_interval_ms
    → throttle cfg later idx kept ≡ none
unfolding throttle grow_restarts
throttle_twice cfg now later idx times kept h a b c d =
    let padding : List ℕ = replicate (suc idx - length kept) 0 in
    let last : get_or (grow_restarts idx kept) idx 0 ≡ now =
      (subst (HasTime now idx) h (throttle-HasTime cfg now idx times)) padding in
    let set_before : (now == 0) ≡ false = ground arith in
    let early : ltb (sub64 later now) cfg.restart_min_interval_ms ≡ true =
      ground (arith, sub64_exact later now b c) in
    rw (throttle, last, set_before, early) refl

module _ {B S : Type 0} (backend : ControlBackend B) (store : SnapshotStore S) where
  roll_back_write-restarts :
      (call : Call) (stream_id : String) (idx : ℕ) (id : String) (w : World B S)
      → (roll_back_write backend store call stream_id idx id w).last_restart_ms ≡ w.last_restart_ms
  unfolding roll_back_write restore audit
  roll_back_write-restarts call stream_id idx id w =
      elim (Option-cases (store.load id w.snapshots)) [
        | inl e ↦ rw (roll_back_write, restore, e) refl
        | inr (pre, e) ↦ rw (roll_back_write, restore, e) refl
      ]

  concluded-restarts :
      (call : Call) (change : Change) (stream_id : String) (idx : ℕ) (id : String)
      (result : WriteResult) (w : World B S)
      → (concluded backend store call change stream_id idx id result w).1.last_restart_ms
        ≡ w.last_restart_ms
  unfolding concluded
  concluded-restarts call change stream_id idx id result w =
      let back = roll_back_write-restarts call stream_id idx id w in
      elim (Bool-cases result.success) [
        | inr f ↦ rw (concluded, f) back
        | inl f ↦ elim (Bool-cases (verified backend store change stream_id w.backend)) [
          | inr v ↦ rw (concluded, f, v) back
          | inl v ↦ rw (concluded, f, v) refl
        ]
      ]

  commit-restarts :
      (call : Call) (op : WriteOp) (change : Change) (stream_id : String) (idx : ℕ) (id : String)
      (w : World B S)
      → (commit backend store call op change stream_id idx id w).1.last_restart_ms
        ≡ w.last_restart_ms
  unfolding commit audit
  commit-restarts call op change stream_id idx id w =
      let (result, b) = changed backend store change idx w.backend in
      let r = write_record backend store call op change stream_id idx id result w.backend b in
      concluded-restarts call change stream_id idx id result
        (audit backend store r (record w { backend = b }))

  guarded-restarts :
      (call : Call) (op : WriteOp) (change : Change) (stream_id : String) (idx : ℕ) (w : World B S)
      → (guarded backend store call op change stream_id idx w).1.last_restart_ms ≡ w.last_restart_ms
  unfolding guarded capture_and_save_snapshot
  guarded-restarts call op change stream_id idx w =
      elim (Option-cases (get_elem? (backend.stream_status w.backend) idx)) [
        | inl g ↦ rw (guarded, g) refl
        | inr (before, g) ↦
            let blocked =
              load_increase change before && not (backend.safety_state_allows w.backend) in
            elim (Bool-cases blocked) [
              | inl e ↦ rw (guarded, g, e) refl
              | inr e ↦ elim (saved_as backend store call (before_write op stream_id) w) [
                | inl s ↦ rw (guarded, g, e, s) refl
                | inr (s, saved) ↦
                    let w' =
                      (capture_and_save_snapshot backend store call (before_write op stream_id)
                        w).1 in
                    rw (guarded, g, e, s)
                      (commit-restarts call op change stream_id idx call.next_snapshot_id w')
              ]
            ]
      ]

  write_op-restart :
      (cfg : ControlConfig) (call : Call) (stream_id : String) (body : Body) (w : World B S)
      (idx : ℕ) (kept : List ℕ)
      → find_stream_index (backend.stream_ids w.backend) stream_id ≡ pos idx
      → throttle cfg call.mono_ms idx w.last_restart_ms ≡ some kept
      → write_op backend store cfg call WriteOp.restart_stream stream_id body w
        ≡ guarded backend store call WriteOp.restart_stream restart_change stream_id idx
            (record w { last_restart_ms = kept })
  unfolding write_op throttled check_params
  write_op-restart cfg call stream_id body w idx kept f t = rw (write_op, f, throttled, t) refl

  write_op_early :
      (cfg : ControlConfig) (call : Call) (stream_id : String) (body : Body) (w : World B S)
      (idx : ℕ)
      → find_stream_index (backend.stream_ids w.backend) stream_id ≡ pos idx
      → throttle cfg call.mono_ms idx w.last_restart_ms ≡ none
      → write_op backend store cfg call WriteOp.restart_stream stream_id body w
        ≡ (err 409 "RESTART_THROTTLED", w)
  unfolding write_op throttled check_params
  write_op_early cfg call stream_id body w idx f t = rw (write_op, f, throttled, t) refl

  -- After a restart of a stream that the throttle let through at a time that is not 0, a second one of
  -- the stream, at the same index and within the minimal interval, is refused with 409 and changes
  -- nothing, whatever came of the first.
  pub write_op-throttled :
      (cfg : ControlConfig) (first second : Call) (stream_id : String) (body body' : Body)
      (w : World B S) (idx : ℕ) (kept : List ℕ)
      → find_stream_index (backend.stream_ids w.backend) stream_id ≡ pos idx
      → throttle cfg first.mono_ms idx w.last_restart_ms ≡ some kept
      → 1 ≤ first.mono_ms
      → first.mono_ms ≤ second.mono_ms
      → second.mono_ms < u64_mod
      → second.mono_ms - first.mono_ms < cfg.restart_min_interval_ms
      → let w' = (write_op backend store cfg first WriteOp.restart_stream stream_id body w).1 in
        find_stream_index (backend.stream_ids w'.backend) stream_id ≡ pos idx
        → write_op backend store cfg second WriteOp.restart_stream stream_id body' w'
          ≡ (err 409 "RESTART_THROTTLED", w')
  write_op-throttled cfg first second stream_id body body' w idx kept f t a b c d g =
      let w₁ = record w { last_restart_ms = kept } in
      let w' = (write_op backend store cfg first WriteOp.restart_stream stream_id body w).1 in
      let times : w'.last_restart_ms ≡ kept =
        ap (λ (r : Answer × World B S). r.1.last_restart_ms)
          (write_op-restart cfg first stream_id body w idx kept f t)
        ∙ guarded-restarts first WriteOp.restart_stream restart_change stream_id idx w₁ in
      let early =
        throttle_twice cfg first.mono_ms second.mono_ms idx w.last_restart_ms kept t a b c d in
      write_op_early cfg second stream_id body' w' idx g
        (ap (throttle cfg second.mono_ms idx) times ∙ early)
