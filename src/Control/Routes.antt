-- ===== src/Control/Routes.antt =====
-- src/control/control_server.cpp: where `route` sends a request, by its method and the parts of its
-- path, and `serve_keyframe`. JSON is a parameter: a type of values, the parser, and the test for an
-- object. A file is its size and its bytes, if it can be opened.
use Prim.Native.String.{String}
use text.Mathlib.Text.{◌==◌ as str_eq}
use jetedge_agent.Prelude.{
  ℕ, Bool, true, false, ◌&&◌, not, if◌then◌else◌, List, [], ◌∷◌, Option, none, some,
}
use jetedge_agent.Prelude.Int.{ℤ, pos, ltb_ℤ}
use jetedge_agent.Control.Requests.{valid_keyframe_name}

pub data WriteOp : Type 0 where
  set_infer_interval set_priority restart_stream rollback : WriteOp

-- The calls that `route` makes, and the errors that it answers itself.
pub data Action (J : Type 0) : Type 0 where
  dashboard health metrics_summary all_streams : Action J
  one_stream : String → Action J
  scheduler_config scheduler_state recent_errors : Action J
  recent_events : String → Action J
  keyframes : Action J
  keyframe : String → Action J
  write_op : WriteOp → String → J → Action J
  take_snapshot roll_back benchmark : J → Action J
  error : ℕ → String → Action J

-- `parts == std::vector<std::string>{...}`
abbrev pub is_path : List String → List String → Bool
is_path [] [] = true
is_path [] (y ∷ ys) = false
is_path (x ∷ xs) [] = false
is_path (x ∷ xs) (y ∷ ys) = str_eq x y && is_path xs ys

-- The second part of a path of two parts that starts with `name`.
abbrev pub below_path : String → List String → Option String
below_path name (x ∷ y ∷ []) = if str_eq x name then some y else none
below_path name _ = none

module _ {J : Type 0} where
  unfoldable pub get_fixed : String → List String → Option (Action J)
  get_fixed query parts =
      if is_path parts ("dashboard" ∷ [])
      then some dashboard
      else if is_path parts ("health" ∷ [])
      then some health
      else if is_path parts ("metrics" ∷ "summary" ∷ [])
      then some metrics_summary
      else if is_path parts ("streams" ∷ [])
      then some all_streams
      else none

  unfoldable pub get_rest : String → List String → Action J
  get_rest query parts =
      if is_path parts ("scheduler" ∷ "config" ∷ [])
      then scheduler_config
      else if is_path parts ("scheduler" ∷ "state" ∷ [])
      then scheduler_state
      else if is_path parts ("errors" ∷ "recent" ∷ [])
      then recent_errors
      else if is_path parts ("events" ∷ "recent" ∷ [])
      then recent_events query
      else if is_path parts ("keyframes" ∷ [])
      then keyframes
      else (elim (below_path "keyframes" parts) [
        | some name ↦ keyframe name
        | none ↦ error 404 "PARAM_PATH"
      ])

  -- The `GET` branch.
  unfoldable pub get : String → List String → Action J
  unfolding get_fixed get_rest
  get query parts = elim (get_fixed query parts) [
    | some a ↦ a
    | none ↦ elim (below_path "streams" parts) [
      | some id ↦ one_stream id
      | none ↦ get_rest query parts
    ]
  ]

  -- `POST /streams/<id>/<action>`
  unfoldable pub post_stream : J → String → String → Action J
  post_stream body id action =
      if str_eq action "infer-interval"
      then write_op set_infer_interval id body
      else if str_eq action "priority"
      then write_op set_priority id body
      else if str_eq action "restart"
      then write_op restart_stream id body
      else error 404 "PARAM_PATH"

  unfoldable pub post_config : J → List String → Action J
  post_config body parts =
      if is_path parts ("config" ∷ "snapshot" ∷ [])
      then take_snapshot body
      else if is_path parts ("config" ∷ "rollback" ∷ [])
      then roll_back body
      else if is_path parts ("benchmark" ∷ [])
      then benchmark body
      else error 404 "PARAM_PATH"

  unfoldable pub post_parts : J → List String → Action J
  unfolding post_stream post_config
  post_parts body (x ∷ id ∷ action ∷ []) =
      if str_eq x "streams"
      then post_stream body id action
      else post_config body (x ∷ id ∷ action ∷ [])
  post_parts body parts = post_config body parts

  -- The `POST` branch; `none` of `parse` is a text that is no JSON object.
  unfoldable pub post : J → (String → Option J) → String → List String → Action J
  unfolding post_parts
  post empty_object parse body parts =
      if str_eq body ""
      then post_parts empty_object parts
      else (elim (parse body) [ none ↦ error 400 "PARAM_JSON" | some j ↦ post_parts j parts ])

  unfoldable pub route : J → (String → Option J) → String → List String → String → String → Action J
  unfolding get post
  route empty_object parse method parts query body =
      if str_eq method "GET"
      then get query parts
      else if str_eq method "POST"
      then post empty_object parse body parts
      else error 405 "HTTP_METHOD"

-- kKeyframeMaxBytes
abbrev pub keyframe_max_bytes : ℤ
keyframe_max_bytes = pos 5_242_880

-- The answer: a body, or a status and an error code.
pub data Served : Type 0 where
  image : List ℕ → Served
  refused : ℕ → String → Served

-- `open` opens a file of the keyframe directory by its name: the size and, if the read succeeds, the
-- bytes. `enabled` is whether a keyframe directory is configured.
unfoldable pub serve_keyframe : Bool → (List ℕ → Option (ℤ × Option (List ℕ))) → List ℕ → Served
serve_keyframe enabled open_file name =
    if not (valid_keyframe_name name)
    then refused 400 "PARAM_KEYFRAME"
    else if not enabled
    then refused 404 "KEYFRAME_FILE"
    else (elim (open_file name) [
      | none ↦ refused 404 "KEYFRAME_FILE"
      | some (size, bytes) ↦
          if ltb_ℤ size (pos 0)
          then refused 413 "KEYFRAME_FILE"
          else if ltb_ℤ keyframe_max_bytes size
          then refused 413 "KEYFRAME_FILE"
          else (elim bytes [ none ↦ refused 500 "INTERNAL" | some body ↦ image body ])
    ])
