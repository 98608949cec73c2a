-- ===== src/Control/Errors.antt =====
-- include/jetedge/control/error_store.h and src/control/error_store.cpp: the bounded store of recent
-- errors, oldest first. The mutex makes each call atomic.
use Prim.Native.String.{String}
use jetedge_agent.Prelude.{
  ℕ, ◌==◌, ◌&&◌, not, ltb, leb, if◌then◌else◌, List, [], ◌∷◌, ◌++◌, length, drop, reverse,
}

pub record ErrorRecord : Type 0 where
  pub ts_ms : ℕ
  pub level : String
  pub stream_id : String
  pub state : String
  pub operation : String
  pub error_code : String
  pub message : String

pub record ErrorStore : Type 0 where
  pub capacity : ℕ
  pub records : List ErrorRecord

unfoldable pub empty_store : ℕ → ErrorStore
empty_store capacity = record { capacity = if ltb 0 capacity then capacity else 1; records = [] }

-- `add`: push back, and erase the first if there are too many.
unfoldable pub record_error : ErrorRecord → ErrorStore → ErrorStore
record_error r s =
    let pushed = s.records ++ (r ∷ []) in
    record s { records = if ltb s.capacity (length pushed) then drop 1 pushed else pushed }

unfoldable pub clear : ErrorStore → ErrorStore
clear s = record s { records = [] }

-- The loop of `recent`, over the records from the newest on.
unfoldable pub collect : ℕ → List ErrorRecord → List ErrorRecord → List ErrorRecord
collect limit out [] = out
collect limit out (r ∷ rs) =
    let rest = collect limit (out ++ (r ∷ [])) rs in
    if not (limit == 0) && leb limit (length out) then out else rest

unfoldable pub recent : ℕ → ErrorStore → List ErrorRecord
unfolding collect
recent limit s = collect limit [] (reverse s.records)
