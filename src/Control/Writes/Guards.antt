-- ===== src/Control/Writes/Guards.antt =====
-- What a write operation does not let happen.
use Prim.Native.String.{String}
use jetedge_agent.Prelude.{
  ℕ, suc, ◌+◌, ◌⊎◌, inl, inr, ◌≡◌, refl, true, false, some, get_elem?, arith,
}
use jetedge_agent.Prelude.Int.{pos, negsuc, ltb_ℤ}
use jetedge_agent.Control.Requests.{find_stream_index}
use jetedge_agent.Control.Routes.{WriteOp}
use jetedge_agent.Control.Writes.{
  StreamStatus, ControlBackend, SnapshotStore, Body, Change, World, Call, ControlConfig, err,
  checked, check_params, load_increase, priority_ranks_up, priority_from_str, restart_change,
  interval_change, priority_change,
}
use jetedge_agent.Control.Writes.Flow.{guarded, throttled, write_op}

-- The change asks for a smaller interval than the stream has, or for a higher priority.
abbrev pub RaisesLoad : Change → StreamStatus → Type 0
RaisesLoad (interval_change (pos n)) before = (k : ℕ) × (before.infer_interval ≡ pos (n + suc k))
RaisesLoad (interval_change (negsuc n)) before = ⊥
RaisesLoad (priority_change s) before =
    ((before.priority ≡ "low") × ((s ≡ "normal") ⊎ (s ≡ "high")))
    ⊎ ((before.priority ≡ "normal") × (s ≡ "high"))
RaisesLoad restart_change before = ⊥

less_pos : (n k : ℕ) → ltb_ℤ (pos n) (pos (n + suc k)) ≡ true
less_pos n k = ground arith

RaisesLoad-load_increase :
    (change : Change) (before : StreamStatus)
    → RaisesLoad change before
    → load_increase change before ≡ true
unfolding load_increase priority_ranks_up priority_from_str
RaisesLoad-load_increase (interval_change (pos n)) before (k, e) = rw e (less_pos n k)
RaisesLoad-load_increase (interval_change (negsuc n)) before h = elim h [ ]
RaisesLoad-load_increase (priority_change s) before (inl (e, inl f)) = rw (e, f) refl
RaisesLoad-load_increase (priority_change s) before (inl (e, inr f)) = rw (e, f) refl
RaisesLoad-load_increase (priority_change s) before (inr (e, f)) = rw (e, f) refl
RaisesLoad-load_increase restart_change before h = elim h [ ]

module _ {B S : Type 0} (backend : ControlBackend B) (store : SnapshotStore S) where
  throttled-load_increase :
      (cfg : ControlConfig) (call : Call) (change : Change) (idx : ℕ) (w : World B S)
      (before : StreamStatus)
      → load_increase change before ≡ true
      → throttled backend store cfg call change idx w ≡ some w
  unfolding throttled load_increase
  throttled-load_increase cfg call (interval_change i) idx w before h = refl
  throttled-load_increase cfg call (priority_change s) idx w before h = refl
  throttled-load_increase cfg call restart_change idx w before h = ground (arith, h)

  -- While the scheduler's state does not allow more load, a change that raises the load of its stream,
  -- with a smaller interval or a higher priority than the stream has, is refused with 409 and leaves
  -- the backend, the snapshots, the audit log and the restart times as they are.
  pub write_op-load_increase :
      (cfg : ControlConfig) (call : Call) (op : WriteOp) (stream_id : String) (body : Body)
      (w : World B S) (change : Change) (idx : ℕ) (before : StreamStatus)
      → check_params cfg op body ≡ checked change
      → find_stream_index (backend.stream_ids w.backend) stream_id ≡ pos idx
      → get_elem? (backend.stream_status w.backend) idx ≡ some before
      → RaisesLoad change before
      → backend.safety_state_allows w.backend ≡ false
      → write_op backend store cfg call op stream_id body w ≡ (err 409 "SAFETY_CRITICAL", w)
  unfolding write_op guarded
  write_op-load_increase cfg call op id body w change idx before c f g l s =
      let more = RaisesLoad-load_increase change before l in
      let through = throttled-load_increase cfg call change idx w before more in
      rw (write_op, c, f, through, guarded, g, more, s) refl
