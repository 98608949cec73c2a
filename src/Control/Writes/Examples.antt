-- ===== src/Control/Writes/Examples.antt =====
-- Write operations on a camera with one stream and a store in memory.
use Prim.Native.String.{String}
use text.Mathlib.Text.{◌==◌ as str_eq}
use jetedge_agent.Prelude.{
  ℕ, ◌≡◌, refl, Bool, true, false, not, if◌then◌else◌, List, [], ◌∷◌, Option, none, some, arith,
}
use jetedge_agent.Prelude.Int.{ℤ, pos, eqb_ℤ}
use jetedge_agent.Control.Requests.{find_stream_index, index_from, valid_infer_interval}
use jetedge_agent.Control.Routes.{WriteOp}
use jetedge_agent.Control.Writes.{
  StreamPriority, StreamStatus, StreamSnapshotEntry, ConfigSnapshot, ControlBackend, SnapshotStore,
  Body, World, Call, ControlConfig, err, interval_change, priority_str, check_params, throttle,
  grow_restarts, load_increase,
}
use jetedge_agent.Control.Writes.Flow.{write_op, handle_rollback}
use jetedge_agent.Control.Writes.Rollback.{IsRestored, handle_rollback-IsRestored}
use jetedge_agent.Control.Writes.Guards.{write_op-load_increase}
use jetedge_agent.Control.Writes.Recorded.{Accounted, write_op-Accounted}
use jetedge_agent.Control.Writes.Atomic.{Settled, write_op-Settled}
use jetedge_agent.Control.Writes.Restarts.{write_op-throttled}

record Camera : Type 0 where
  critical : Bool
  interval : ℤ
  priority : StreamPriority
  state : String

abbrev camera_status : Camera → StreamStatus
camera_status b = record {
  stream_id = "cam1";
  type = "rtsp";
  state = b.state;
  priority = priority_str b.priority;
  infer_interval = b.interval;
  frames = 0;
  reconnect_count = 0;
  consecutive_failures = 0;
  last_reason = "";
}

abbrev set_all : List StreamSnapshotEntry → Camera → Camera
set_all [] b = b
set_all (e ∷ es) b = record b { interval = e.infer_interval; priority = e.priority }

-- An interval of 7 is set and then reported as failed.
abbrev camera : ControlBackend Camera
camera = record {
  stream_ids = λ b. "cam1" ∷ [];
  stream_status = λ b. camera_status b ∷ [];
  safety_state_allows = λ b. not b.critical;
  set_infer_interval = λ idx i b. (
    record { success = not (eqb_ℤ i (pos 7)); error_code = "BACKEND" },
    record b { interval = i },
  );
  set_priority = λ idx p b. (record { success = true; error_code = "" }, record b { priority = p });
  restart_stream =
      λ idx b. (record { success = true; error_code = "" }, record b { state = "RECONNECTING" });
  current_config_snapshot = λ b. record {
    snapshot_id = "";
    created_at_ms = 0;
    reason = none;
    streams =
        record { stream_id = "cam1"; priority = b.priority; infer_interval = b.interval } ∷ [];
    scheduler_enabled = false;
  };
  apply_snapshot = λ snap b. (record { success = true; error_code = "" }, set_all snap.streams b);
}

abbrev Files : Type 0
Files = List ConfigSnapshot

abbrev load_file : String → Files → Option ConfigSnapshot
load_file id [] = none
load_file id (f ∷ fs) = if str_eq f.snapshot_id id then some f else load_file id fs

abbrev files : SnapshotStore Files
files = record { save = λ snap s. (true, snap ∷ s); load = load_file }

abbrev world : World Camera Files
world = record {
  backend = record {
    critical = true;
    interval = pos 3;
    priority = StreamPriority.normal;
    state = "RUNNING";
  };
  snapshots = [];
  audit_accepts = λ l r. true;
  audit_log = [];
  last_restart_ms = [];
}

abbrev cfg : ControlConfig
cfg = record { max_infer_interval = pos 10; restart_min_interval_ms = 5000 }

abbrev call_at : ℕ → Call
call_at now = record {
  request_id = "r1";
  wall_ms = 0;
  mono_ms = now;
  next_snapshot_id = "snap_0_0";
}

abbrev interval_body : ℤ → Body
interval_body i = record { has = λ k. true; int_of = λ k. some i; text_of = λ k. none }

write_op-load_increase_example :
    write_op camera files cfg
      (call_at 9)
      WriteOp.set_infer_interval
      "cam1"
      (interval_body (pos 1))
      world
    ≡ (err 409 "SAFETY_CRITICAL", world)
unfolding check_params valid_infer_interval find_stream_index index_from load_increase
write_op-load_increase_example =
    write_op-load_increase camera files cfg (call_at 9) WriteOp.set_infer_interval "cam1"
      (interval_body (pos 1)) world (interval_change (pos 1)) 0 (camera_status world.backend) refl
      refl refl (1, refl) refl

write_op-Accounted_example :
    Accounted camera files WriteOp.set_infer_interval
      (call_at 9)
      (interval_change (pos 7))
      "cam1"
      world
      (write_op camera files cfg
        (call_at 9)
        WriteOp.set_infer_interval
        "cam1"
        (interval_body (pos 7))
        world)
unfolding check_params valid_infer_interval
write_op-Accounted_example =
    write_op-Accounted camera files cfg (call_at 9) WriteOp.set_infer_interval "cam1"
      (interval_body (pos 7)) (interval_change (pos 7)) world refl (λ l r. refl)

write_op-Settled_example :
    Settled camera files
      (call_at 9)
      WriteOp.set_infer_interval
      (interval_change (pos 7))
      "cam1"
      0
      world.backend
      []
      (write_op camera files cfg
        (call_at 9)
        WriteOp.set_infer_interval
        "cam1"
        (interval_body (pos 7))
        world)
unfolding check_params valid_infer_interval find_stream_index index_from
write_op-Settled_example =
    write_op-Settled camera files cfg (call_at 9) WriteOp.set_infer_interval "cam1"
      (interval_body (pos 7)) (interval_change (pos 7)) 0 world refl refl

abbrev restarted : World Camera Files
restarted =
    (write_op camera files cfg (call_at 9) WriteOp.restart_stream "cam1" (interval_body (pos 0))
      world).1

write_op-throttled_example :
    write_op camera files cfg
      (call_at 5008)
      WriteOp.restart_stream
      "cam1"
      (interval_body (pos 0))
      restarted
    ≡ (err 409 "RESTART_THROTTLED", restarted)
unfolding find_stream_index index_from throttle grow_restarts
write_op-throttled_example =
    write_op-throttled camera files cfg (call_at 9) (call_at 5008) "cam1" (interval_body (pos 0))
      (interval_body (pos 0)) world 0 (9 ∷ []) refl refl (omega arith) (omega arith) (omega arith)
      (omega arith) refl

abbrev saved_camera : ConfigSnapshot
saved_camera = record {
  snapshot_id = "snap_1_0";
  created_at_ms = 1;
  reason = none;
  streams =
      record { stream_id = "cam1"; priority = StreamPriority.low; infer_interval = pos 5 } ∷ [];
  scheduler_enabled = false;
}

abbrev rollback_body : Body
rollback_body = record { has = λ k. true; int_of = λ k. none; text_of = λ k. some "snap_1_0" }

handle_rollback-IsRestored_example :
    IsRestored camera files
      (record world { snapshots = saved_camera ∷ [] })
      (handle_rollback camera files
        (call_at 9)
        rollback_body
        (record world { snapshots = saved_camera ∷ [] }))
handle_rollback-IsRestored_example =
    handle_rollback-IsRestored camera files (call_at 9) rollback_body
      (record world { snapshots = saved_camera ∷ [] })
