-- ===== src/Config/Examples.antt =====
-- Configurations that are loaded from small YAML trees.
use Prim.Native.String.{String}
use text.Mathlib.Text.{◌==◌ as str_eq}
use jetedge_agent.Prelude.{
  ℕ, ◌≤◌, ◌≡◌, refl, Bool, true, false, if◌then◌else◌, List, [], ◌∷◌, Option, none, some, arith,
}
use jetedge_agent.Prelude.Int.{ℤ, pos, pos_part}
use jetedge_agent.Prelude.Doubles.{whole}
use jetedge_agent.Pipeline.Reconnect.{init, backoff_ms}
use jetedge_agent.Pipeline.Reconnect.Failures.{connects, fails, run}
use jetedge_agent.Config.Types.{default_config, default_rtsp, default_events}
use jetedge_agent.Config.Fields.{Yaml, step, steps, part}
use jetedge_agent.Config.Rules.{load_events, events_rows}
use jetedge_agent.Config.Loaded.{IsStart}
use jetedge_agent.Config.Waits.{params_of, backoff_ms-IsRtsp}

-- Trees of maps, lists, numbers and texts.
data Tree : Type 0 where
  number : ℤ → Tree
  word : String → Tree
  flag : Bool → Tree
  seq : Tree → Tree → Tree
  end : Tree
  entry : String → Tree → Tree → Tree

member_of : Tree → String → Option Tree
member_of (entry k v rest) key = if str_eq k key then some v else member_of rest key
member_of _ key = none

items_of : Tree → List Tree
items_of (seq t rest) = t ∷ items_of rest
items_of _ = []

abbrev tree : Yaml Tree ℕ
tree = record {
  member = member_of;
  as_int = λ t. elim t [ number z ↦ some z | _ ↦ none ];
  as_bool = λ t. elim t [ flag b ↦ some b | _ ↦ none ];
  as_text = λ t. elim t [ word s ↦ some s | _ ↦ none ];
  as_double = λ t. elim t [ number z ↦ some (pos_part z) | _ ↦ none ];
  items = items_of;
  is_map = λ t. elim t [ entry k v rest ↦ true | _ ↦ false ];
  is_sequence = λ t. elim t [ seq a rest ↦ true | _ ↦ false ];
}

abbrev tenths : ℕ → ℕ
tenths n = n

abbrev one_camera : Tree
one_camera = entry "rtsp" (entry "enable" (flag true) (entry "max_retries" (number (pos 3)) end)) (
    entry "streams"
      (seq
        (entry "id" (word "cam1")
          (entry "uri" (word "rtsp://cam1") (entry "type" (word "rtsp") end)))
        end)
      end)

default_config-IsStart : IsStart tenths (default_config whole tenths)
default_config-IsStart = record {
  sections = record {
    events = ground arith;
    llm = ground arith;
    rtsp = ground arith;
    min_fps = ground arith;
    scheduler = ground arith;
    control = ground arith;
  };
  none_yet = refl;
}

backoff_ms-IsRtsp_example :
    (n : ℕ) × (backoff_ms
        (run (init (params_of (default_rtsp whole tenths))) (connects ∷ fails none ∷ []))
      ≡ pos n)
    × (1000 ≤ n)
    × (n ≤ 15_000)
unfolding run init
backoff_ms-IsRtsp_example =
    backoff_ms-IsRtsp (default_rtsp whole tenths) (connects ∷ fails none ∷ [])
      default_config-IsStart.sections.rtsp refl

-- A threshold that is given without the hysteresis is not tested against it.
threshold_alone :
    load_events whole tenths tree
      (entry "count_threshold" (number (pos 1)) end)
      (default_events whole tenths)
    ≡ some (record (default_events whole tenths) { count_threshold = pos 1 })
unfolding load_events events_rows steps step part member_of
threshold_alone = refl
