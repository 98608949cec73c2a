-- ===== src/Llm/Router/State.antt =====
-- include/jetedge/llm/llm_router.h and the life cycle of src/llm/llm_router.cpp. The lines are
-- those that this process adds to the analysis file, which it appends to; `file_good` is the state of
-- the stream, which writes nothing more after a write has failed. A worker's request is in `in_flight`
-- while its HTTP call is out, with the clock before the call; in `judged` when the breaker has its
-- outcome; in `unwritten` when the counters have it. The workers may be any number. `init`'s pointers exist exactly when the router is enabled, and
-- every use of them is behind that test. Logging is left out.
use Prim.Native.String.{String}
use jetedge_agent.Prelude.{ℕ, Bool, true, false, ◌||◌, not, if◌then◌else◌, List, []}
use jetedge_agent.Prelude.Int.{pos, ltb_ℤ, pos_part}
use jetedge_agent.Llm.Breaker.{init as closed_breaker, Breaker}
use jetedge_agent.Llm.Queue.{Queue, empty_queue, shutdown}
use jetedge_agent.Llm.Router.Types.{LlmRequest, LlmResponse, CloudAnalysisRecord, LlmConfig}

pub record RouterStats : Type 0 where
  pub enqueued : ℕ
  pub shed : ℕ
  pub sent : ℕ
  pub succeeded : ℕ
  pub failed : ℕ
  pub skipped_circuit_open : ℕ

pub record LlmRouter : Type 0 where
  pub config : LlmConfig
  pub stream_ids : List String
  pub class_names : List String
  pub queue : Queue LlmRequest
  pub cb_qwen : Breaker
  pub cb_deepseek : Breaker
  pub is_open : Bool
  pub file_good : Bool
  pub lines : List CloudAnalysisRecord
  pub running : Bool
  pub request_seq : ℕ
  pub stats : RouterStats
  pub in_flight : List (LlmRequest × ℕ)
  pub judged : List (LlmRequest × LlmResponse)
  pub unwritten : List (LlmRequest × LlmResponse)

-- `opened` is whether a path was given and the file opened.
unfoldable pub init : LlmConfig → List String → List String → Bool → LlmRouter
init config ids names opened = record {
  config = config;
  stream_ids = ids;
  class_names = names;
  queue = empty_queue (if ltb_ℤ (pos 0) config.max_size then pos_part config.max_size else 32);
  cb_qwen = closed_breaker;
  cb_deepseek = closed_breaker;
  is_open = opened;
  file_good = true;
  lines = [];
  running = false;
  request_seq = 0;
  stats = record {
    enqueued = 0;
    shed = 0;
    sent = 0;
    succeeded = 0;
    failed = 0;
    skipped_circuit_open = 0;
  };
  in_flight = [];
  judged = [];
  unwritten = [];
}

unfoldable pub start : LlmRouter → LlmRouter
start r = if not r.config.enable || r.running then r else record r { running = true }

-- `stop` up to the joins, after which the workers take no new request.
unfoldable pub stop : LlmRouter → LlmRouter
stop r = if not r.running then r else record r { running = false; queue = shutdown r.queue }

-- `stop` after the joins.
unfoldable pub close_file : LlmRouter → LlmRouter
close_file r = record r { is_open = false }
