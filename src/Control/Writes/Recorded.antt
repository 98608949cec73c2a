-- ===== src/Control/Writes/Recorded.antt =====
-- What a write operation leaves behind.
use Prim.Native.String.{String}
use jetedge_agent.Prelude.{
  ℕ, ◌≡◌, refl, ◌∙◌, ap, sym, List, true, not, ◌&&◌, [], ◌∷◌, ◌++◌, Option, none, some, get_elem?,
  Bool-cases, Option-cases, inl, inr, ◌⊎◌,
}
use mathlib.Core.Path.{subst}
use mathlib.Core.List.{append_assoc}
use jetedge_agent.Prelude.Int.{ℤ-cases}
use jetedge_agent.Control.Requests.{find_stream_index}
use jetedge_agent.Control.Routes.{WriteOp}
use jetedge_agent.Control.Writes.{
  ControlBackend, SnapshotStore, Body, Change, World, Call, WriteResult, ControlConfig, Answer, err,
  ok, checked, check_params, throttle, load_increase, restart_change, interval_change,
  priority_change, AuditRecord, applied, auto_rollback, Operation, before_write, Reason,
}
use jetedge_agent.Control.Writes.Shown.{ShowsThat, Agrees, verified-ShowsThat}
use jetedge_agent.Control.Writes.Flow.{
  captured, guarded, throttled, write_op, commit, concluded, verified, roll_back_write, audit,
  changed, capture_and_save_snapshot, restore, write_record, rollback_record,
}

unfoldable pub IsError : Answer → Type 0
IsError (err status code) = Unit
IsError (ok status id) = ⊥

module _ {B S : Type 0} (backend : ControlBackend B) (store : SnapshotStore S) where
  -- Every record gets into the log.
  abbrev pub AcceptsAll : World B S → Type 0
  AcceptsAll w = (l : List AuditRecord) (r : AuditRecord) → w.audit_accepts l r ≡ true

  -- The change stands and is seen, or it was taken back, which one more record says.
  abbrev Concluded : String → Change → String → World B S → Answer × World B S → Type 0
  Concluded id change stream_id w (answer, w') =
      (w'.snapshots ≡ w.snapshots)
      × ((ShowsThat backend store (Agrees change) stream_id w'.backend
            × (w'.audit_log ≡ w.audit_log))
          ⊎ ((b : AuditRecord) × (b.operation ≡ auto_rollback)
              × (b.snapshot_id ≡ id)
              × IsError answer
              × (w'.audit_log ≡ w.audit_log ++ (b ∷ []))))

  audit-AcceptsAll :
      (r : AuditRecord) (w : World B S)
      → AcceptsAll w
      → (audit backend store r w).audit_log ≡ w.audit_log ++ (r ∷ [])
  unfolding audit
  audit-AcceptsAll r w h = rw (h w.audit_log r) refl

  restore_log :
      (id : String) (w : World B S)
      → ((restore backend store id w).1.audit_accepts ≡ w.audit_accepts)
        × ((restore backend store id w).1.audit_log ≡ w.audit_log)
        × ((restore backend store id w).1.snapshots ≡ w.snapshots)
  unfolding restore
  restore_log id w = elim (Option-cases (store.load id w.snapshots)) [
    | inl e ↦ rw (restore, e) (refl, refl, refl)
    | inr (pre, e) ↦ rw (restore, e) (refl, refl, refl)
  ]

  -- The rollback adds a record of its own, whatever it can restore.
  roll_back_write-record :
      (call : Call) (stream_id : String) (idx : ℕ) (id : String) (w : World B S)
      → AcceptsAll w
      → (b : AuditRecord) × (b.operation ≡ auto_rollback)
        × (b.snapshot_id ≡ id)
        × ((roll_back_write backend store call stream_id idx id w).audit_log
            ≡ w.audit_log ++ (b ∷ []))
        × ((roll_back_write backend store call stream_id idx id w).snapshots ≡ w.snapshots)
  unfolding audit roll_back_write rollback_record
  roll_back_write-record call stream_id idx id w h =
      let same = restore_log id w in
      let w' = (restore backend store id w).1 in
      let b =
        rollback_record backend store call stream_id idx id (restore backend store id w).0 w.backend
          w'.backend in
      (
        b,
        refl,
        refl,
        audit-AcceptsAll b w' (λ l r. ap (λ accepts. accepts l r) same.0 ∙ h l r)
            ∙ ap (λ l. l ++ (b ∷ [])) same.1,
        same.2,
      )

  concluded-Concluded :
      (call : Call) (change : Change) (stream_id : String) (idx : ℕ) (id : String)
      (result : WriteResult) (w : World B S)
      → AcceptsAll w
      → Concluded id change stream_id w
          (concluded backend store call change stream_id idx id result w)
  unfolding concluded IsError
  concluded-Concluded call change stream_id idx id result w h =
      let (b, o, i, a, s) = roll_back_write-record call stream_id idx id w h in
      elim (Bool-cases result.success) [
        | inr e ↦ rw (concluded, e) (s, inr (b, o, i, tt, a))
        | inl e ↦ elim (Bool-cases (verified backend store change stream_id w.backend)) [
          | inl v ↦
              let shown = verified-ShowsThat backend store change stream_id w.backend v in
              rw (concluded, e, v) (refl, inl (shown, refl))
          | inr v ↦ rw (concluded, e, v) (s, inr (b, o, i, tt, a))
        ]
      ]

  -- What is left of a change: a record, and the change is seen; or a record, a record of the rollback,
  -- and an error.
  abbrev Logged : Operation → String → Change → String → World B S → Answer × World B S → Type 0
  Logged operation id change stream_id w (answer, w') =
      (r : AuditRecord) × (r.operation ≡ operation)
      × (r.snapshot_id ≡ id)
      × ((ShowsThat backend store (Agrees change) stream_id w'.backend
            × (w'.audit_log ≡ w.audit_log ++ (r ∷ [])))
          ⊎ ((b : AuditRecord) × (b.operation ≡ auto_rollback)
              × (b.snapshot_id ≡ id)
              × IsError answer
              × (w'.audit_log ≡ w.audit_log ++ (r ∷ b ∷ []))))

  -- The store has saved the snapshot of the backend before the call.
  abbrev Saved : Call → Reason → World B S → World B S → Type 0
  Saved call reason w w' =
      let saved = store.save (captured backend store call reason w.backend) w.snapshots in
      (saved.0 ≡ true) × (w'.snapshots ≡ saved.1)

  -- What a call leaves: nothing but an error; or a saved snapshot and the records.
  unfoldable pub Accounted :
      WriteOp → Call → Change → String → World B S → Answer × World B S → Type 0
  Accounted op call change stream_id w (answer, w') =
      (IsError answer × (w'.backend ≡ w.backend) × (w'.audit_log ≡ w.audit_log))
      ⊎ (Saved call (before_write op stream_id) w w'
          × Logged (applied op) call.next_snapshot_id change stream_id w (answer, w'))

  commit-Logged :
      (call : Call) (op : WriteOp) (change : Change) (stream_id : String) (idx : ℕ) (id : String)
      (w : World B S)
      → AcceptsAll w
      → let done = commit backend store call op change stream_id idx id w in
        (done.1.snapshots ≡ w.snapshots) × Logged (applied op) id change stream_id w done
  unfolding commit write_record audit
  commit-Logged call op change stream_id idx id w h =
      let (result, b) = changed backend store change idx w.backend in
      let r = write_record backend store call op change stream_id idx id result w.backend b in
      let w₁ = record w { backend = b } in
      let w₂ = audit backend store r w₁ in
      let grown : w₂.audit_log ≡ w.audit_log ++ (r ∷ []) = audit-AcceptsAll r w₁ h in
      let end = concluded-Concluded call change stream_id idx id result w₂ h in
      (
        end.0,
        elim end.1 [
          | inl (v, l) ↦ (r, refl, refl, inl (v, l ∙ grown))
          | inr (back, o, i, f, l) ↦ (
            r,
            refl,
            refl,
            inr (
              back,
              o,
              i,
              f,
              l
                  ∙ ap (λ log. log ++ (back ∷ [])) grown
                  ∙ append_assoc w.audit_log (r ∷ []) (back ∷ []),
            ),
          )
        ],
      )

  pub saved_as :
      (call : Call) (reason : Reason) (w : World B S)
      → ((capture_and_save_snapshot backend store call reason w).0 ≡ none)
        ⊎ (((capture_and_save_snapshot backend store call reason w).0 ≡ some call.next_snapshot_id)
            × ((store.save (captured backend store call reason w.backend) w.snapshots).0 ≡ true))
  unfolding capture_and_save_snapshot
  saved_as call reason w =
      let snap = captured backend store call reason w.backend in
      elim (Bool-cases (store.save snap w.snapshots).0) [
        | inl e ↦ rw e (inr (refl, refl))
        | inr e ↦ rw e (inl refl)
      ]

  guarded-Accounted :
      (call : Call) (op : WriteOp) (change : Change) (stream_id : String) (idx : ℕ) (w : World B S)
      → AcceptsAll w
      → Accounted op call change stream_id w (guarded backend store call op change stream_id idx w)
  unfolding guarded Accounted IsError capture_and_save_snapshot
  guarded-Accounted call op change stream_id idx w h =
      elim (Option-cases (get_elem? (backend.stream_status w.backend) idx)) [
        | inl g ↦ rw (guarded, g) (inl (tt, refl, refl))
        | inr (before, g) ↦
            let blocked =
              load_increase change before && not (backend.safety_state_allows w.backend) in
            elim (Bool-cases blocked) [
              | inl e ↦ rw (guarded, g, e) (inl (tt, refl, refl))
              | inr e ↦ elim (saved_as call (before_write op stream_id) w) [
                | inl s ↦ rw (guarded, g, e, s) (inl (tt, refl, refl))
                | inr (s, saved) ↦
                    let w' =
                      (capture_and_save_snapshot backend store call (before_write op stream_id)
                        w).1 in
                    let done =
                      commit-Logged call op change stream_id idx call.next_snapshot_id w' h in
                    rw (guarded, g, e, s) (inr ((saved, done.0), done.1))
              ]
            ]
      ]

  -- The throttle changes the restart times only.
  unfoldable pub SameButRestarts : World B S → Option (World B S) → Type 0
  SameButRestarts w none = Unit
  SameButRestarts w (some w') =
      (w'.backend ≡ w.backend)
      × (w'.snapshots ≡ w.snapshots)
      × (w'.audit_log ≡ w.audit_log)
      × (w'.audit_accepts ≡ w.audit_accepts)

  pub throttled-SameButRestarts :
      (cfg : ControlConfig) (call : Call) (change : Change) (idx : ℕ) (w : World B S)
      → SameButRestarts w (throttled backend store cfg call change idx w)
  unfolding throttled SameButRestarts
  throttled-SameButRestarts cfg call (interval_change i) idx w = (refl, refl, refl, refl)
  throttled-SameButRestarts cfg call (priority_change s) idx w = (refl, refl, refl, refl)
  throttled-SameButRestarts cfg call restart_change idx w =
      elim (Option-cases (throttle cfg call.mono_ms idx w.last_restart_ms)) [
        | inl e ↦ rw (throttled, e) tt
        | inr (times, e) ↦ rw (throttled, e) (refl, refl, refl, refl)
      ]

  -- What a throttled call leaves, seen from the world before the throttle.
  same-Accounted :
      (op : WriteOp) (call : Call) (change : Change) (stream_id : String) (w w' : World B S)
      (r : Answer × World B S)
      → SameButRestarts w (some w')
      → Accounted op call change stream_id w' r
      → Accounted op call change stream_id w r
  unfolding Accounted SameButRestarts
  same-Accounted op call change stream_id w w' (answer, v) (b, s, l, a) (inl (x, y, z)) =
      inl (x, y ∙ b, z ∙ l)
  same-Accounted op call change stream_id w w' (answer, v) (b, s, l, a) (inr ((x, y), z)) =
      inr (rw (sym b, sym s) (x, y), rw (sym l) z)

  -- While the audit log takes every record, a write operation with good parameters ends in one of three
  -- ways. It answers an error and leaves the backend and the log alone. Or the store has saved the
  -- snapshot of the backend before the call, one record with that snapshot's id is added to the log, and
  -- the backend's status of the stream shows the change. Or the snapshot is saved, that record and one
  -- of an automatic rollback to the snapshot are added, and the answer is an error.
  pub write_op-Accounted :
      (cfg : ControlConfig) (call : Call) (op : WriteOp) (stream_id : String) (body : Body)
      (change : Change) (w : World B S)
      → check_params cfg op body ≡ checked change
      → AcceptsAll w
      → Accounted op call change stream_id w (write_op backend store cfg call op stream_id body w)
  unfolding write_op Accounted IsError SameButRestarts
  write_op-Accounted cfg call op stream_id body change w c h =
      elim (ℤ-cases (find_stream_index (backend.stream_ids w.backend) stream_id)) [
        | inr (n, f) ↦ rw (write_op, c, f) (inl (tt, refl, refl))
        | inl (idx, f) ↦ elim (Option-cases (throttled backend store cfg call change idx w)) [
          | inl t ↦ rw (write_op, c, f, t) (inl (tt, refl, refl))
          | inr (w', t) ↦
              let same =
                subst (SameButRestarts w) t (throttled-SameButRestarts cfg call change idx w) in
              let accepts : AcceptsAll w' = λ l r. ap (λ a. a l r) same.3 ∙ h l r in
              rw (write_op, c, f, t)
                (same-Accounted op call change stream_id w w'
                  (guarded backend store call op change stream_id idx w') same
                  (guarded-Accounted call op change stream_id idx w' accepts))
        ]
      ]
