-- ===== src/Config/Load.antt =====
-- The streams of `load_streams_config` of src/common/config_loader.cpp, and the function itself. A file
-- that yaml-cpp cannot load is `none`.
use Prim.Native.String.{String}
use text.Mathlib.Text.{◌==◌ as str_eq}
use jetedge_agent.Prelude.{
  ℕ, Bool, true, false, ◌&&◌, ◌||◌, not, if◌then◌else◌, List, [], ◌∷◌, ◌++◌, Option, none, some,
}
use jetedge_agent.Prelude.Doubles.{Doubles}
use jetedge_agent.Control.Writes.{normal, priority_from_str}
use jetedge_agent.Config.Types.{StreamConfig, StreamsConfig}
use jetedge_agent.Config.Fields.{Yaml, Step, field, call, steps, part, within}
use jetedge_agent.Config.Rules.{load_events, load_rtsp, load_scheduler, text_or}
use jetedge_agent.Config.Sections.{
  any, load_mux, load_inference, load_tracker, load_output, load_llm, load_control,
}

abbrev pub is_type : String → Bool
is_type t = str_eq t "file" || str_eq t "rtsp"

-- Whether sources of the type may be used.
abbrev pub type_allowed : Bool → String → Bool
type_allowed rtsp type = is_type type && not (str_eq type "rtsp" && not rtsp)

module _ {N : Type 0} (d : Doubles) (literal : ℕ → d.Double) (y : Yaml N d.Double) where
  -- The members of a stream that may be missing.
  unfoldable pub stream_rows : List (Step N (StreamConfig d))
  unfolding priority_from_str
  stream_rows =
      field "priority" y.as_text any (λ v c. record c { priority = priority_from_str v })
      ∷ field "expected_fps" y.as_double any (λ v c. record c { expected_fps = v })
      ∷ []

  unfoldable pub stream_options : N → StreamConfig d → Option (StreamConfig d)
  stream_options = steps y stream_rows

  unfoldable pub checked_stream : Bool → String → String → String → N → Option (StreamConfig d)
  unfolding stream_options
  checked_stream rtsp id uri type s =
      if not (type_allowed rtsp type)
      then none
      else stream_options s (record {
        id = id;
        type = type;
        uri = uri;
        priority = normal;
        expected_fps = literal 300;
      })

  -- The texts of the two members that a stream must have.
  unfoldable pub id_and_uri : N → Option (String × String)
  id_and_uri s = elim (y.member s "id") [
    | none ↦ none
    | some i ↦ elim (y.member s "uri") [
      | none ↦ none
      | some u ↦ elim (y.as_text i) [
        | none ↦ none
        | some id ↦ elim (y.as_text u) [ none ↦ none | some uri ↦ some (id, uri) ]
      ]
    ]
  ]

  unfoldable pub load_stream : Bool → N → Option (StreamConfig d)
  unfolding id_and_uri text_or checked_stream
  load_stream rtsp s = elim (id_and_uri s) [
    | none ↦ none
    | some (id, uri) ↦ elim (text_or d literal y "type" "file" s) [
      | none ↦ none
      | some type ↦ checked_stream rtsp id uri type s
    ]
  ]

  unfoldable pub add_streams : List N → StreamsConfig d → Option (StreamsConfig d)
  unfolding load_stream
  add_streams [] c = some c
  add_streams (n ∷ ns) c = elim (load_stream c.rtsp.enable n) [
    | none ↦ none
    | some s ↦ add_streams ns (record c { streams = c.streams ++ (s ∷ []) })
  ]

  abbrev pub has_streams : StreamsConfig d → Bool
  has_streams c = elim c.streams [ [] ↦ false | s ∷ ss ↦ true ]

  -- The streams section, which must be there.
  unfoldable pub load_streams : N → StreamsConfig d → Option (StreamsConfig d)
  unfolding add_streams
  load_streams root c = elim (y.member root "streams") [
    | none ↦ none
    | some n ↦ if not (y.is_sequence n) then none else add_streams (y.items n) c
  ]

  -- The locations that the control API shows.
  unfoldable pub hand_over : StreamsConfig d → StreamsConfig d
  hand_over c = record c {
    control = record c.control {
      events_jsonl_path = c.events.jsonl_path;
      keyframes_dir = c.events.keyframe_dir;
    };
  }

  unfoldable pub root_rows : List (Step N (StreamsConfig d))
  root_rows =
      call (
        part y "mux"
          (within y (λ (c : StreamsConfig d). c.mux) (λ v c. record c { mux = v }) (load_mux y)))
      ∷ call (
          part y "inference" (
            within y (λ (c : StreamsConfig d). c.inference) (λ v c. record c { inference = v })
              (load_inference y)))
      ∷ call (
          part y "tracker" (
            within y (λ (c : StreamsConfig d). c.tracker) (λ v c. record c { tracker = v })
              (load_tracker y)))
      ∷ call (
          part y "output" (
            within y (λ (c : StreamsConfig d). c.output) (λ v c. record c { output = v })
              (load_output y)))
      ∷ call (
          part y "events" (
            within y (λ (c : StreamsConfig d). c.events) (λ v c. record c { events = v })
              (load_events d literal y)))
      ∷ call (
          part y "llm"
            (within y (λ (c : StreamsConfig d). c.llm) (λ v c. record c { llm = v }) (load_llm y)))
      ∷ call (
          part y "rtsp" (
            within y (λ (c : StreamsConfig d). c.rtsp) (λ v c. record c { rtsp = v })
              (load_rtsp d literal y)))
      ∷ call (
          part y "scheduler" (
            within y (λ (c : StreamsConfig d). c.scheduler) (λ v c. record c { scheduler = v })
              (load_scheduler d literal y)))
      ∷ call (
          part y "control" (
            within y (λ (c : StreamsConfig d). c.control) (λ v c. record c { control = v })
              (load_control y)))
      ∷ []

  unfoldable pub load_sections : N → StreamsConfig d → Option (StreamsConfig d)
  load_sections = steps y root_rows

  -- What comes after the streams.
  unfoldable pub finish : StreamsConfig d → Option (StreamsConfig d)
  unfolding hand_over
  finish c = if not (has_streams c) then none else some (hand_over c)

  unfoldable pub load_streams_config : Option N → StreamsConfig d → Option (StreamsConfig d)
  unfolding load_sections load_streams finish
  load_streams_config none c = none
  load_streams_config (some root) c =
      if not (y.is_map root) then none else elim (load_sections root c) [
        | none ↦ none
        | some with_sections ↦ elim (load_streams root with_sections) [
          | none ↦ none
          | some with_streams ↦ finish with_streams
        ]
      ]
