-- ===== src/Control/Writes/Rollback.antt =====
-- A rollback that is asked for.
use Prim.Native.String.{String}
use jetedge_agent.Prelude.{◌≡◌, All, some, Bool-cases, Option-cases, inl, inr}
use jetedge_agent.Control.Writes.{
  ConfigSnapshot, ControlBackend, SnapshotStore, Body, World, Call, Answer, err, ok,
  before_rollback,
}
use jetedge_agent.Control.Writes.Flow.{
  handle_rollback, roll_back_to, all_restored, capture_and_save_snapshot, audit,
}
use jetedge_agent.Control.Writes.Recorded.{saved_as}
use jetedge_agent.Control.Writes.Shown.{ShowsThat, HasEntry, all_restored-All}

module _ {B S : Type 0} (backend : ControlBackend B) (store : SnapshotStore S) where
  -- What a reply without an error says.
  unfoldable pub IsRestored : World B S → Answer × World B S → Type 0
  IsRestored w (err status code, w') = Unit
  IsRestored w (ok status id, w') =
      (target : ConfigSnapshot) × (store.load id w.snapshots ≡ some target)
      × All
          (λ entry.
            ShowsThat backend store (HasEntry backend store entry) entry.stream_id w'.backend)
          target.streams

  roll_back_to-IsRestored :
      (call : Call) (id : String) (target : ConfigSnapshot) (w : World B S)
      → store.load id w.snapshots ≡ some target
      → IsRestored w (roll_back_to backend store call id target w)
  unfolding roll_back_to IsRestored audit
  roll_back_to-IsRestored call id target w l =
      let w₁ = (capture_and_save_snapshot backend store call (before_rollback id) w).1 in
      let (result, b) = backend.apply_snapshot target w₁.backend in
      elim (saved_as backend store call (before_rollback id) w) [
        | inl s ↦ rw (roll_back_to, s) tt
        | inr (s, saved) ↦ elim (Bool-cases result.success) [
          | inr f ↦ rw (roll_back_to, s, f) tt
          | inl f ↦ elim (Bool-cases (all_restored backend store target.streams b)) [
            | inr v ↦ rw (roll_back_to, s, f, v) tt
            | inl v ↦
                rw (roll_back_to, s, f, v)
                  (target, l, all_restored-All backend store target.streams b v)
          ]
        ]
      ]

  -- A rollback that answers without an error names a snapshot that the store had, and for every entry
  -- of that snapshot the backend's status of the stream shows the priority and the interval of the entry.
  pub handle_rollback-IsRestored :
      (call : Call) (body : Body) (w : World B S)
      → IsRestored w (handle_rollback backend store call body w)
  unfolding handle_rollback IsRestored
  handle_rollback-IsRestored call body w = elim (Option-cases (body.text_of "snapshot_id")) [
    | inl e ↦ rw (handle_rollback, e) tt
    | inr (id, e) ↦ elim (Option-cases (store.load id w.snapshots)) [
      | inl l ↦ rw (handle_rollback, e, l) tt
      | inr (target, l) ↦ rw (handle_rollback, e, l) (roll_back_to-IsRestored call id target w l)
    ]
  ]
