-- ===== src/Control/Writes.antt =====
-- The write operations of src/control/control_server.cpp over the structs and the interface of
-- src/control/control_backend.h. The backend and the snapshot store are parameters: types of states
-- with the operations of the interfaces. JSON values are what they are made from: a request's body is
-- the members that are read of it, the audit's texts are the values that they encode. A reply has its
-- status and its error code, not the message for the reader.
pub mod Flow
mod Shown
mod Guards
mod Recorded
mod Atomic
mod Restarts
mod Rollback
mod Examples
use Prim.Native.String.{String}
use text.Mathlib.Text.{◌==◌ as str_eq}
use jetedge_agent.Prelude.{
  ℕ, suc, ◌-◌, Bool, true, false, ◌&&◌, not, ltb, leb, ◌==◌, if◌then◌else◌, List, [], ◌∷◌, ◌++◌,
  Option, none, some, length, replicate, get_or, set, get_elem?,
}
use jetedge_agent.Prelude.Int.{ℤ, pos, negsuc, ltb_ℤ, eqb_ℤ}
use jetedge_agent.Prelude.Words.{sub64}
use jetedge_agent.Control.Requests.{valid_infer_interval, valid_priority, find_stream_index}
use jetedge_agent.Control.Routes.{
  WriteOp, set_infer_interval, set_priority, restart_stream, rollback,
}

pub data StreamPriority : Type 0 where
  high normal low : StreamPriority

unfoldable pub priority_str : StreamPriority → String
priority_str high = "high"
priority_str normal = "normal"
priority_str low = "low"

unfoldable pub priority_from_str : String → StreamPriority
priority_from_str s = if str_eq s "high" then high else if str_eq s "low" then low else normal

-- The value of the enumerator.
abbrev pub rank : StreamPriority → ℕ
rank high = 0
rank normal = 1
rank low = 2

unfoldable pub priority_ranks_up : StreamPriority → StreamPriority → Bool
priority_ranks_up old new = ltb (rank new) (rank old)

pub record StreamStatus : Type 0 where
  pub stream_id : String
  pub type : String
  pub state : String
  pub priority : String
  pub infer_interval : ℤ
  pub frames : ℕ
  pub reconnect_count : ℕ
  pub consecutive_failures : ℕ
  pub last_reason : String

pub record StreamSnapshotEntry : Type 0 where
  pub stream_id : String
  pub priority : StreamPriority
  pub infer_interval : ℤ

-- Why a snapshot is taken; the text is made of this.
pub data Reason : Type 0 where
  before_write : WriteOp → String → Reason
  before_rollback : String → Reason
  asked : String → Reason

pub record ConfigSnapshot : Type 0 where
  pub snapshot_id : String
  pub created_at_ms : ℕ
  pub reason : Option Reason
  pub streams : List StreamSnapshotEntry
  pub scheduler_enabled : Bool

pub record WriteResult : Type 0 where
  pub success : Bool
  pub error_code : String

-- The part of `ControlBackend` that write operations use.
pub record ControlBackend (B : Type 0) : Type 0 where
  pub stream_ids : B → List String
  pub stream_status : B → List StreamStatus
  pub safety_state_allows : B → Bool
  pub set_infer_interval : ℕ → ℤ → B → WriteResult × B
  pub set_priority : ℕ → StreamPriority → B → WriteResult × B
  pub restart_stream : ℕ → B → WriteResult × B
  pub current_config_snapshot : B → ConfigSnapshot
  pub apply_snapshot : ConfigSnapshot → B → WriteResult × B

-- `save` and `load` of the snapshot store.
pub record SnapshotStore (S : Type 0) : Type 0 where
  pub save : ConfigSnapshot → S → Bool × S
  pub load : String → S → Option ConfigSnapshot

-- The members of a request's body: whether one is there, its value as an int or as a text.
pub record Body : Type 0 where
  pub has : String → Bool
  pub int_of : String → Option ℤ
  pub text_of : String → Option String

-- What `stream_state_json` shows of a stream.
pub record StreamState : Type 0 where
  pub stream_id : String
  pub priority : String
  pub infer_interval : ℤ
  pub state : String

unfoldable pub stream_state_json : List StreamStatus → ℕ → StreamState
stream_state_json statuses idx = elim (get_elem? statuses idx) [
  | some st ↦ record {
    stream_id = st.stream_id;
    priority = st.priority;
    infer_interval = st.infer_interval;
    state = st.state;
  }
  | none ↦ record { stream_id = ""; priority = ""; infer_interval = negsuc 0; state = "" }
]

-- A write operation with its checked arguments.
pub data Change : Type 0 where
  interval_change : ℤ → Change
  priority_change : String → Change
  restart_change : Change

pub data Args : Type 0 where
  no_args : Args
  change_args : Change → Args
  reason_args snapshot_args : String → Args

pub data Operation : Type 0 where
  applied : WriteOp → Operation
  auto_rollback config_snapshot rolled_back rollback_verify_failed : Operation

pub record AuditRecord : Type 0 where
  pub ts_ms : ℕ
  pub request_id : String
  pub operation : Operation
  pub stream_id : String
  pub args : Args
  pub before : Option StreamState
  pub after : Option StreamState
  pub success : Bool
  pub error_code : String
  pub snapshot_id : String

-- `audit_accepts` is what `AuditLog::append` comes to on a file of the lines so far: whether the file is
-- open and takes the whole line of the record.
pub record World (B S : Type 0) : Type 0 where
  pub backend : B
  pub snapshots : S
  pub audit_accepts : List AuditRecord → AuditRecord → Bool
  pub audit_log : List AuditRecord
  pub last_restart_ms : List ℕ

-- What a call reads of the world around it: its id, the clocks, and the id that
-- `next_snapshot_id` makes.
pub record Call : Type 0 where
  pub request_id : String
  pub wall_ms : ℕ
  pub mono_ms : ℕ
  pub next_snapshot_id : String

pub record ControlConfig : Type 0 where
  pub max_infer_interval : ℤ
  pub restart_min_interval_ms : ℕ

-- `make_err` and `make_ok`.
pub data Answer : Type 0 where
  err : ℕ → String → Answer
  ok : Option StreamStatus → String → Answer

pub data Checked : Type 0 where
  bad : Answer → Checked
  checked : Change → Checked

-- Step 1 of `write_op`.
unfoldable pub check_params : ControlConfig → WriteOp → Body → Checked
check_params cfg WriteOp.set_infer_interval body = elim (body.int_of "interval") [
  | none ↦ bad (err 400 "PARAM_INTERVAL")
  | some interval ↦
      if not (valid_infer_interval interval cfg.max_infer_interval)
      then bad (err 400 "PARAM_INTERVAL")
      else checked (interval_change interval)
]
check_params cfg WriteOp.set_priority body = elim (body.text_of "priority") [
  | none ↦ bad (err 400 "PARAM_PRIORITY")
  | some s ↦
      if not (valid_priority s) then bad (err 400 "PARAM_PRIORITY") else checked (priority_change s)
]
check_params cfg WriteOp.restart_stream body = checked restart_change
check_params cfg WriteOp.rollback body = bad (err 400 "PARAM_PATH")

-- `resize(idx + 1, 0)`, if the list is shorter.
unfoldable pub grow_restarts : ℕ → List ℕ → List ℕ
grow_restarts idx times = times ++ replicate (suc idx - length times) 0

-- The throttle of restarts: none if the restart comes too early.
unfoldable pub throttle : ControlConfig → ℕ → ℕ → List ℕ → Option (List ℕ)
unfolding grow_restarts
throttle cfg now idx times =
    let grown = grow_restarts idx times in
    let last = get_or grown idx 0 in
    if not (last == 0) && ltb (sub64 now last) cfg.restart_min_interval_ms
    then none
    else some (set grown idx now)

-- Step 3.
unfoldable pub load_increase : Change → StreamStatus → Bool
unfolding priority_ranks_up priority_from_str
load_increase (interval_change interval) before = ltb_ℤ interval before.infer_interval
load_increase (priority_change s) before =
    priority_ranks_up (priority_from_str before.priority) (priority_from_str s)
load_increase restart_change before = false

-- Whether a status shows the change.
unfoldable pub shows : Change → StreamStatus → Bool
shows (interval_change interval) st = eqb_ℤ st.infer_interval interval
shows (priority_change s) st = str_eq st.priority s
shows restart_change st =
    if str_eq st.state "RECONNECTING" then true else str_eq st.state "CONNECTING"

-- The entry of the statuses at an index that `find_stream_index` returned.
unfoldable pub status_at : List StreamStatus → ℤ → Option StreamStatus
status_at statuses (pos idx) = get_elem? statuses idx
status_at statuses (negsuc n) = none
