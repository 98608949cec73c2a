-- ===== src/Control/Writes/Flow.antt =====
-- `write_op`, `handle_snapshot` and `handle_rollback` of src/control/control_server.cpp, as functions
-- from the world before to the reply and the world after.
use Prim.Native.String.{String}
use text.Mathlib.Text.{◌==◌ as str_eq}
use jetedge_agent.Prelude.{
  ℕ, Bool, true, false, ◌&&◌, not, if◌then◌else◌, List, [], ◌∷◌, ◌++◌, Option, none, some,
  get_elem?,
}
use jetedge_agent.Prelude.Int.{pos, negsuc, eqb_ℤ}
use jetedge_agent.Control.Requests.{find_stream_index}
use jetedge_agent.Control.Routes.{WriteOp}
use jetedge_agent.Control.Writes.{
  StreamStatus, StreamSnapshotEntry, Reason, before_write, before_rollback, asked, ConfigSnapshot,
  WriteResult, ControlBackend, SnapshotStore, Body, stream_state_json, Change, interval_change,
  priority_change, restart_change, Args, no_args, change_args, reason_args, snapshot_args,
  Operation, applied, auto_rollback, config_snapshot, rolled_back, rollback_verify_failed,
  AuditRecord, World, Call, ControlConfig, Answer, err, ok, bad, checked, check_params, throttle,
  load_increase, shows, status_at, priority_from_str, priority_str,
}

-- The last status of the stream, as `json_stream_status` keeps it.
unfoldable pub json_stream_status :
    String → Option StreamStatus → List StreamStatus → Option StreamStatus
json_stream_status id single [] = single
json_stream_status id single (st ∷ statuses) =
    json_stream_status id (if str_eq st.stream_id id then some st else single) statuses

module _ {B S : Type 0} (backend : ControlBackend B) (store : SnapshotStore S) where
  -- The snapshot of a backend that is taken before a change.
  unfoldable pub captured : Call → Reason → B → ConfigSnapshot
  captured call reason b = record (backend.current_config_snapshot b) {
    snapshot_id = call.next_snapshot_id;
    created_at_ms = call.wall_ms;
    reason = some reason;
  }

  -- The id of the snapshot that is saved, if it is.
  unfoldable pub capture_and_save_snapshot : Call → Reason → World B S → Option String × World B S
  unfolding captured
  capture_and_save_snapshot call reason w =
      let (saved, s) = store.save (captured call reason w.backend) w.snapshots in
      (if saved then some call.next_snapshot_id else none, record w { snapshots = s })

  -- A record that cannot be written is lost.
  unfoldable pub audit : AuditRecord → World B S → World B S
  audit r w = record w {
    audit_log = if w.audit_accepts w.audit_log r then w.audit_log ++ (r ∷ []) else w.audit_log;
  }

  -- Step 5, on the backend.
  unfoldable pub changed : Change → ℕ → B → WriteResult × B
  changed (interval_change interval) idx b = backend.set_infer_interval idx interval b
  changed (priority_change s) idx b = backend.set_priority idx (priority_from_str s) b
  changed restart_change idx b = backend.restart_stream idx b

  -- The snapshot that step 4 has saved is loaded and applied.
  unfoldable pub restore : String → World B S → WriteResult × World B S
  restore id w = elim (store.load id w.snapshots) [
    | none ↦ (record { success = false; error_code = "SNAPSHOT_IO" }, w)
    | some pre ↦
        let (result, b) = backend.apply_snapshot pre w.backend in (result, record w { backend = b })
  ]

  unfoldable pub rollback_record : Call → String → ℕ → String → WriteResult → B → B → AuditRecord
  unfolding stream_state_json
  rollback_record call stream_id idx snapshot_id result b b' = record {
    ts_ms = call.wall_ms;
    request_id = call.request_id;
    operation = auto_rollback;
    stream_id = stream_id;
    args = no_args;
    before = some (stream_state_json (backend.stream_status b) idx);
    after = some (stream_state_json (backend.stream_status b') idx);
    success = result.success;
    error_code = result.error_code;
    snapshot_id = snapshot_id;
  }

  -- The automatic rollback, with its record.
  unfoldable pub roll_back_write : Call → String → ℕ → String → World B S → World B S
  unfolding restore audit rollback_record
  roll_back_write call stream_id idx snapshot_id w =
      let (result, w') = restore snapshot_id w in
      audit (rollback_record call stream_id idx snapshot_id result w.backend w'.backend) w'

  -- Step 8.
  unfoldable pub verified : Change → String → B → Bool
  unfolding shows status_at
  verified change stream_id b =
      elim (status_at (backend.stream_status b)
        (find_stream_index (backend.stream_ids b) stream_id)) [
          | none ↦ false
          | some st ↦ shows change st
        ]

  unfoldable pub write_record :
      Call → WriteOp → Change → String → ℕ → String → WriteResult → B → B → AuditRecord
  unfolding stream_state_json
  write_record call op change stream_id idx snapshot_id result b b' = record {
    ts_ms = call.wall_ms;
    request_id = call.request_id;
    operation = applied op;
    stream_id = stream_id;
    args = change_args change;
    before = some (stream_state_json (backend.stream_status b) idx);
    after = some (stream_state_json (backend.stream_status b') idx);
    success = result.success;
    error_code = result.error_code;
    snapshot_id = snapshot_id;
  }

  -- Steps 7 and 8, on the world after the change is made and recorded.
  unfoldable pub concluded :
      Call → Change → String → ℕ → String → WriteResult → World B S → Answer × World B S
  unfolding roll_back_write verified json_stream_status
  concluded call change stream_id idx snapshot_id result w =
      if not result.success
      then (err 409 result.error_code, roll_back_write call stream_id idx snapshot_id w)
      else if not (verified change stream_id w.backend)
      then (err 500 "VERIFY_FAILED", roll_back_write call stream_id idx snapshot_id w)
      else (ok (json_stream_status stream_id none (backend.stream_status w.backend)) snapshot_id, w)

  -- Steps 5 to 8, once the snapshot is saved.
  unfoldable pub commit :
      Call → WriteOp → Change → String → ℕ → String → World B S → Answer × World B S
  unfolding changed write_record audit concluded
  commit call op change stream_id idx snapshot_id w =
      let (result, b) = changed change idx w.backend in
      let r = write_record call op change stream_id idx snapshot_id result w.backend b in
      concluded call change stream_id idx snapshot_id result (audit r (record w { backend = b }))

  -- Steps 3 and 4, then the rest.
  unfoldable pub guarded : Call → WriteOp → Change → String → ℕ → World B S → Answer × World B S
  unfolding load_increase capture_and_save_snapshot commit
  guarded call op change stream_id idx w = elim (get_elem? (backend.stream_status w.backend) idx) [
    | none ↦ (err 500 "INTERNAL", w)
    | some before ↦
        if load_increase change before && not (backend.safety_state_allows w.backend)
        then (err 409 "SAFETY_CRITICAL", w)
        else let (saved, w') = capture_and_save_snapshot call (before_write op stream_id) w in
          elim saved [
            | none ↦ (err 500 "SNAPSHOT_IO", w')
            | some snapshot_id ↦ commit call op change stream_id idx snapshot_id w'
          ]
  ]

  -- The throttle stands before the status is read, for restarts only.
  unfoldable pub throttled : ControlConfig → Call → Change → ℕ → World B S → Option (World B S)
  unfolding throttle
  throttled cfg call restart_change idx w = elim (throttle cfg call.mono_ms idx w.last_restart_ms) [
    | none ↦ none
    | some times ↦ some (record w { last_restart_ms = times })
  ]
  throttled cfg call (interval_change interval) idx w = some w
  throttled cfg call (priority_change s) idx w = some w

  unfoldable pub write_op :
      ControlConfig → Call → WriteOp → String → Body → World B S → Answer × World B S
  unfolding check_params throttled guarded
  write_op cfg call op stream_id body w = elim (check_params cfg op body) [
    | bad answer ↦ (answer, w)
    | checked change ↦ elim (find_stream_index (backend.stream_ids w.backend) stream_id) [
      | negsuc n ↦ (err 404 "PARAM_STREAM", w)
      | pos idx ↦ elim (throttled cfg call change idx w) [
        | none ↦ (err 409 "RESTART_THROTTLED", w)
        | some w' ↦ guarded call op change stream_id idx w'
      ]
    ]
  ]

  -- A record of an operation that is not on one stream.
  unfoldable pub plain_record : Call → Operation → Args → WriteResult → String → AuditRecord
  plain_record call operation args result snapshot_id = record {
    ts_ms = call.wall_ms;
    request_id = call.request_id;
    operation = operation;
    stream_id = "";
    args = args;
    before = none;
    after = none;
    success = result.success;
    error_code = result.error_code;
    snapshot_id = snapshot_id;
  }

  abbrev pub succeeded : WriteResult
  succeeded = record { success = true; error_code = "" }

  unfoldable pub save_asked : Call → String → World B S → Answer × World B S
  unfolding capture_and_save_snapshot audit plain_record
  save_asked call reason w =
      let (saved, w') = capture_and_save_snapshot call (asked reason) w in
      elim saved [
        | none ↦ (err 500 "SNAPSHOT_IO", w')
        | some id ↦ (
          ok none id,
          audit (plain_record call config_snapshot (reason_args reason) succeeded id) w',
        )
      ]

  unfoldable pub handle_snapshot : Call → Body → World B S → Answer × World B S
  unfolding save_asked
  handle_snapshot call body w =
      if body.has "reason"
      then (elim (body.text_of "reason") [
        | none ↦ (err 400 "PARAM_JSON", w)
        | some reason ↦ save_asked call reason w
      ])
      else save_asked call "explicit snapshot" w

  -- Whether a stream's status is that of its entry in the snapshot.
  unfoldable pub restored : StreamSnapshotEntry → B → Bool
  unfolding status_at priority_str
  restored entry b =
      elim (status_at (backend.stream_status b)
        (find_stream_index (backend.stream_ids b) entry.stream_id)) [
          | none ↦ false
          | some st ↦
              str_eq st.priority (priority_str entry.priority)
              && eqb_ℤ st.infer_interval entry.infer_interval
        ]

  -- The loop over the entries.
  unfoldable pub all_restored : List StreamSnapshotEntry → B → Bool
  unfolding restored
  all_restored [] b = true
  all_restored (entry ∷ entries) b =
      let rest = all_restored entries b in if not (restored entry b) then false else rest

  unfoldable pub roll_back_to : Call → String → ConfigSnapshot → World B S → Answer × World B S
  unfolding capture_and_save_snapshot audit plain_record all_restored
  roll_back_to call id target w =
      let (saved, w₁) = capture_and_save_snapshot call (before_rollback id) w in
      elim saved [
        | none ↦ (err 500 "SNAPSHOT_IO", w₁)
        | some pre_id ↦
            let (result, b) = backend.apply_snapshot target w₁.backend in
            let w₂ =
              audit (plain_record call rolled_back (snapshot_args id) result pre_id)
                (record w₁ { backend = b }) in
            if not result.success
            then (err 409 result.error_code, w₂)
            else if not (all_restored target.streams w₂.backend)
            then (
              err 500 "VERIFY_FAILED",
              audit
                  (plain_record call rollback_verify_failed no_args
                    (record { success = false; error_code = "VERIFY_FAILED" }) pre_id)
                  w₂,
            )
            else (ok none id, w₂)
      ]

  unfoldable pub handle_rollback : Call → Body → World B S → Answer × World B S
  unfolding roll_back_to
  handle_rollback call body w = elim (body.text_of "snapshot_id") [
    | none ↦ (err 400 "PARAM_JSON", w)
    | some id ↦ elim (store.load id w.snapshots) [
      | none ↦ (err 404 "PARAM_SNAPSHOT", w)
      | some target ↦ roll_back_to call id target w
    ]
  ]
