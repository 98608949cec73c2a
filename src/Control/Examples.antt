-- ===== src/Control/Examples.antt =====
-- Small stores and requests.
use jetedge_agent.Prelude.{
  some, ℕ, ◌+◌, ◌==◌, ◌≤◌, ◌≡◌, refl, if◌then◌else◌, max, List, [], ◌∷◌, ◌++◌, true, All, length,
  reverse, take,
}
use jetedge_agent.Prelude.Bytes.{codes, starts_with}
use jetedge_agent.Control.Errors.{ErrorRecord, empty_store, recent}
use jetedge_agent.Control.Recent.{record_all, last_of, recent-record_all}
use jetedge_agent.Control.Requests.{
  after_limit, leading_digits, clamped, parse_limit, all_name_bytes, jpg, valid_keyframe_name,
}
use jetedge_agent.Control.Feeds.{collect_lines, tail_lines}
use jetedge_agent.Control.Feeds.Newest.{IsNewest, tail_lines-IsNewest}
use jetedge_agent.Control.Limits.{
  IsNameByte, IsPlain, asked, parse_limit-asked, valid_keyframe_name_lem,
}

abbrev failure : ℕ → ErrorRecord
failure t = record {
  ts_ms = t;
  level = "ERROR";
  stream_id = "cam1";
  state = "RECONNECTING";
  operation = "connect";
  error_code = "RTSP_FAILED";
  message = "refused";
}

recent-record_all_example :
    recent 1 (record_all (failure 1 ∷ failure 2 ∷ failure 3 ∷ []) (empty_store 2)) ≡ (
      let kept = reverse (last_of (max 1 2) (failure 1 ∷ failure 2 ∷ failure 3 ∷ [])) in
      if 1 == 0 then kept else take 1 kept)
recent-record_all_example = recent-record_all 1 2 (failure 1 ∷ failure 2 ∷ failure 3 ∷ [])

-- "limit=999"
abbrev query : List ℕ
query = 108 ∷ 105 ∷ 109 ∷ 105 ∷ 116 ∷ 61 ∷ 57 ∷ 57 ∷ 57 ∷ []

query-limit : parse_limit query 50 ≡ 200
unfolding parse_limit after_limit leading_digits clamped starts_with
query-limit = refl

parse_limit-asked_example : parse_limit query 50 ≡ asked (after_limit query) 50
parse_limit-asked_example = parse_limit-asked query 50

-- "cam1.jpg"
abbrev frame_name : List ℕ
frame_name = 99 ∷ 97 ∷ 109 ∷ 49 ∷ jpg

frame_name-valid : valid_keyframe_name frame_name ≡ true
unfolding valid_keyframe_name all_name_bytes
frame_name-valid = refl

valid_keyframe_name_lem_example :
    (stem : List ℕ) × (frame_name ≡ stem ++ (46 ∷ 106 ∷ 112 ∷ 103 ∷ []))
    × All (λ c. IsNameByte c × IsPlain c) stem
    × (8 ≤ length frame_name)
    × (length frame_name ≤ 255)
valid_keyframe_name_lem_example = valid_keyframe_name_lem frame_name frame_name-valid

abbrev events_file : List ℕ
events_file = codes "one\ntwo\nthree\nfo"

tail_lines_window : tail_lines (some events_file) 13 ≡ codes "three" ∷ codes "two" ∷ []
unfolding tail_lines collect_lines
tail_lines_window = refl

tail_lines-IsNewest_example :
    IsNewest events_file (tail_lines (some events_file) 11)
    × (tail_lines (some events_file) (length events_file + 0)
        ≡ reverse (collect_lines [] events_file))
tail_lines-IsNewest_example = tail_lines-IsNewest events_file 11 0
