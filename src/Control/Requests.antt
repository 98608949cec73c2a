-- ===== src/Control/Requests.antt =====
-- src/control/param_validation.cpp, and from src/control/control_server.cpp what reads texts of a
-- request: `parse_limit` and `valid_keyframe_name`. A `std::string` is the list of its bytes there.
use Prim.Native.String.{String}
use text.Mathlib.Text.{◌==◌ as str_eq}
use jetedge_agent.Prelude.{
  ℕ, suc, ◌+◌, ◌-◌, ◌*◌, ◌==◌, Bool, true, false, ◌&&◌, ◌||◌, not, ltb, leb, if◌then◌else◌, List,
  [], ◌∷◌, Option, none, some, length, take, drop, max,
}
use jetedge_agent.Prelude.Bytes.{is_digit, same_bytes, starts_with}
use jetedge_agent.Prelude.Int.{ℤ, pos, negsuc, leb_ℤ}

unfoldable pub valid_infer_interval : ℤ → ℤ → Bool
valid_infer_interval interval max_interval = leb_ℤ (pos 0) interval && leb_ℤ interval max_interval

unfoldable pub valid_priority : String → Bool
valid_priority s = (str_eq s "high" || str_eq s "normal") || str_eq s "low"

-- The loop of `find_stream_index` from index `i` on.
unfoldable pub index_from : ℕ → List String → String → ℤ
index_from i [] id = negsuc 0
index_from i (x ∷ xs) id = if str_eq x id then pos i else index_from (suc i) xs id

unfoldable pub find_stream_index : List String → String → ℤ
unfolding index_from
find_stream_index ids id = index_from 0 ids id

-- kEventsLimitMax
abbrev pub events_limit_max : ℕ
events_limit_max = 200

-- "limit="
abbrev limit_key : List ℕ
limit_key = 108 ∷ 105 ∷ 109 ∷ 105 ∷ 116 ∷ 61 ∷ []

-- `query.find("limit=")`, and what follows the key.
unfoldable pub after_limit : List ℕ → Option (List ℕ)
unfolding starts_with
after_limit [] = none
after_limit (c ∷ s) = if starts_with limit_key (c ∷ s) then some (drop 5 s) else after_limit s

unfoldable pub leading_digits : List ℕ → List ℕ
leading_digits [] = []
leading_digits (c ∷ s) = if is_digit c then c ∷ leading_digits s else []

-- The loop over the digits, clamped in each round.
unfoldable pub clamped : ℕ → List ℕ → ℕ
clamped v [] = v
clamped v (c ∷ s) =
    let w = v * 10 + (c - 48) in clamped (if ltb events_limit_max w then events_limit_max else w) s

unfoldable pub parse_limit : List ℕ → ℕ → ℕ
unfolding after_limit leading_digits clamped
parse_limit query default = elim (after_limit query) [
  | none ↦ default
  | some rest ↦ elim (leading_digits rest) [
    | [] ↦ default
    | c ∷ digits ↦ max 1 (clamped 0 (c ∷ digits))
  ]
]

-- isalnum, '_' or '-'
abbrev pub is_name_byte : ℕ → Bool
is_name_byte c =
    ((is_digit c || (leb 65 c && leb c 90)) || (leb 97 c && leb c 122)) || (c == 95 || c == 45)

unfoldable pub all_name_bytes : List ℕ → Bool
all_name_bytes [] = true
all_name_bytes (c ∷ s) = is_name_byte c && all_name_bytes s

-- ".jpg"
abbrev pub jpg : List ℕ
jpg = 46 ∷ 106 ∷ 112 ∷ 103 ∷ []

unfoldable pub valid_keyframe_name : List ℕ → Bool
unfolding all_name_bytes
valid_keyframe_name name =
    if ltb (length name) 8 || ltb 255 (length name)
    then false
    else if not (same_bytes (drop (length name - 4) name) jpg)
    then false
    else all_name_bytes (take (length name - 4) name)
