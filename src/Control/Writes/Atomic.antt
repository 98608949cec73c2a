-- ===== src/Control/Writes/Atomic.antt =====
-- What a write operation leaves of the configuration, and what a rollback gives the backend.
use Prim.Native.String.{String}
use mathlib.Core.Path.{subst}
use jetedge_agent.Prelude.{
  ℕ, ◌≡◌, refl, ◌∙◌, sym, true, not, ◌&&◌, none, some, get_elem?, Bool-cases, Option-cases, inl,
  inr, ◌⊎◌,
}
use jetedge_agent.Prelude.Int.{pos}
use jetedge_agent.Control.Requests.{find_stream_index}
use jetedge_agent.Control.Routes.{WriteOp}
use jetedge_agent.Control.Writes.{
  before_write, ConfigSnapshot, WriteResult, ControlBackend, SnapshotStore, Body, Change, World,
  Call, ControlConfig, Answer, err, ok, checked, check_params, load_increase,
}
use jetedge_agent.Control.Writes.Flow.{
  captured, guarded, throttled, write_op, commit, concluded, verified, roll_back_write, audit,
  changed, capture_and_save_snapshot, restore, write_record,
}
use jetedge_agent.Control.Writes.Recorded.{SameButRestarts, throttled-SameButRestarts}

module _ {B S : Type 0} (backend : ControlBackend B) (store : SnapshotStore S) where
  -- The backend has been given the snapshot that the store has under the id; or the store has none, and
  -- the backend is left.
  abbrev pub TakenBack : String → S → B → B → Type 0
  TakenBack id s b b' =
      ((pre : ConfigSnapshot) × (store.load id s ≡ some pre)
        × (b' ≡ (backend.apply_snapshot pre b).1))
      ⊎ ((store.load id s ≡ none) × (b' ≡ b))

  abbrev Finished : String → World B S → Answer × World B S → Type 0
  Finished id w (ok status saved, w') = w'.backend ≡ w.backend
  Finished id w (err status code, w') = TakenBack id w.snapshots w.backend w'.backend

  -- What is promised of a call on the stream at an index: of a reply without an error, that the
  -- snapshot was saved and the change made; of an error, that the backend is as it was, or that the
  -- snapshot was saved, the change made and then taken back.
  unfoldable pub Settled :
      Call → WriteOp → Change → String → ℕ → B → S → Answer × World B S → Type 0
  Settled call op change stream_id idx b s (answer, w') =
      let saved = store.save (captured backend store call (before_write op stream_id) b) s in
      let b' = (changed backend store change idx b).1 in
      elim answer [
        | ok status id ↦ (saved.0 ≡ true) × (w'.backend ≡ b')
        | err status code ↦
            (w'.backend ≡ b)
            ⊎ ((saved.0 ≡ true) × TakenBack call.next_snapshot_id saved.1 b' w'.backend)
      ]

  roll_back_write-TakenBack :
      (call : Call) (stream_id : String) (idx : ℕ) (id : String) (w : World B S)
      → TakenBack id w.snapshots w.backend
          (roll_back_write backend store call stream_id idx id w).backend
  unfolding roll_back_write restore audit
  roll_back_write-TakenBack call stream_id idx id w =
      elim (Option-cases (store.load id w.snapshots)) [
        | inl e ↦ rw (roll_back_write, restore, e) (inr (refl, refl))
        | inr (pre, e) ↦ rw (roll_back_write, restore, e) (inl (pre, refl, refl))
      ]

  concluded-Finished :
      (call : Call) (change : Change) (stream_id : String) (idx : ℕ) (id : String)
      (result : WriteResult) (w : World B S)
      → Finished id w (concluded backend store call change stream_id idx id result w)
  unfolding concluded
  concluded-Finished call change stream_id idx id result w =
      let back = roll_back_write-TakenBack call stream_id idx id w in
      elim (Bool-cases result.success) [
        | inr f ↦ rw (concluded, f) back
        | inl f ↦ elim (Bool-cases (verified backend store change stream_id w.backend)) [
          | inr v ↦ rw (concluded, f, v) back
          | inl v ↦ rw (concluded, f, v) refl
        ]
      ]

  Finished-Settled :
      (call : Call) (op : WriteOp) (change : Change) (stream_id : String) (idx : ℕ) (b : B) (s : S)
      (w : World B S) (r : Answer × World B S)
      → let saved = store.save (captured backend store call (before_write op stream_id) b) s in
        saved.0 ≡ true
        → w.backend ≡ (changed backend store change idx b).1
        → w.snapshots ≡ saved.1
        → Finished call.next_snapshot_id w r
        → Settled call op change stream_id idx b s r
  unfolding Settled
  Finished-Settled call op change stream_id idx b s w (ok status id, w') e f g h = (e, h ∙ f)
  Finished-Settled call op change stream_id idx b s w (err status code, w') e f g h =
      inr (e, rw (sym f, sym g) h)

  guarded-Settled :
      (call : Call) (op : WriteOp) (change : Change) (stream_id : String) (idx : ℕ) (w : World B S)
      → Settled call op change stream_id idx w.backend w.snapshots
          (guarded backend store call op change stream_id idx w)
  unfolding guarded Settled commit capture_and_save_snapshot audit
  guarded-Settled call op change stream_id idx w =
      let snap = captured backend store call (before_write op stream_id) w.backend in
      let (result, b) = changed backend store change idx w.backend in
      let id = call.next_snapshot_id in
      let r = write_record backend store call op change stream_id idx id result w.backend b in
      let s = (store.save snap w.snapshots).1 in
      let w₂ = audit backend store r (record w { snapshots = s; backend = b }) in
      elim (Option-cases (get_elem? (backend.stream_status w.backend) idx)) [
        | inl g ↦ rw (guarded, g) (inl refl)
        | inr (before, g) ↦
            let blocked =
              load_increase change before && not (backend.safety_state_allows w.backend) in
            elim (Bool-cases blocked) [
              | inl e ↦ rw (guarded, g, e) (inl refl)
              | inr e ↦ elim (Bool-cases (store.save snap w.snapshots).0) [
                | inr f ↦ rw (guarded, g, e, capture_and_save_snapshot, f) (inl refl)
                | inl f ↦
                    let done = concluded backend store call change stream_id idx id result w₂ in
                    let settled : Settled call op change stream_id idx w.backend w.snapshots done =
                      Finished-Settled call op change stream_id idx w.backend w.snapshots w₂ done f
                        refl refl (concluded-Finished call change stream_id idx id result w₂) in
                    rw (guarded, g, e, capture_and_save_snapshot, f) settled
              ]
            ]
      ]

  -- A write operation with good parameters on a stream that is found. If it answers without an error,
  -- the snapshot of the backend before the call was saved and the change was made on it. If it answers
  -- an error, at any of its steps, then the backend is as it was before the call; or the snapshot was
  -- saved and the change made, and after that the backend was given the snapshot that the store has
  -- under its id, unless the store has none.
  pub write_op-Settled :
      (cfg : ControlConfig) (call : Call) (op : WriteOp) (stream_id : String) (body : Body)
      (change : Change) (idx : ℕ) (w : World B S)
      → check_params cfg op body ≡ checked change
      → find_stream_index (backend.stream_ids w.backend) stream_id ≡ pos idx
      → Settled call op change stream_id idx w.backend w.snapshots
          (write_op backend store cfg call op stream_id body w)
  unfolding write_op Settled SameButRestarts
  write_op-Settled cfg call op stream_id body change idx w c f =
      elim (Option-cases (throttled backend store cfg call change idx w)) [
        | inl t ↦ rw (write_op, c, f, t) (inl refl)
        | inr (w', t) ↦
            let same =
              subst (SameButRestarts backend store w) t
                (throttled-SameButRestarts backend store cfg call change idx w) in
            let done = guarded-Settled call op change stream_id idx w' in
            rw (write_op, c, f, t) (rw (sym same.0, sym same.1) done)
      ]
