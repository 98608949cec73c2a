-- ===== src/Secrets.antt =====
-- src/common/secrets.cpp: the keys of the services, from the environment or a file of KEY=value lines.
-- The environment is an association list of texts, the file its bytes, if it can be opened. The texts
-- have no NUL byte, at which `c_str` would end them.
mod Precedence
mod Examples
use jetedge_agent.Prelude.{
  ℕ, Bool, true, false, ◌||◌, ◌==◌, if◌then◌else◌, List, [], ◌∷◌, Option, none, some,
}
use jetedge_agent.Prelude.Bytes.{codes, same_bytes, cut}
use jetedge_agent.Prelude.Int.{ℤ, pos, negsuc}

abbrev pub Env : Type 0
Env = List (List ℕ × List ℕ)

unfoldable pub getenv : List ℕ → Env → Option (List ℕ)
getenv key [] = none
getenv key ((k, v) ∷ env) = if same_bytes k key then some v else getenv key env

unfoldable pub is_space : ℕ → Bool
is_space c = c == 32 || (c == 9 || c == 13)

unfoldable pub trim_left : List ℕ → List ℕ
unfolding is_space
trim_left [] = []
trim_left (c ∷ s) = if is_space c then trim_left s else c ∷ s

abbrev pub before_kept : ℕ → List ℕ → List ℕ
before_kept c [] = if is_space c then [] else c ∷ []
before_kept c (x ∷ s) = c ∷ x ∷ s

unfoldable pub trim_right : List ℕ → List ℕ
unfolding is_space
trim_right [] = []
trim_right (c ∷ s) = before_kept c (trim_right s)

unfoldable pub trim : List ℕ → List ℕ
unfolding trim_left trim_right
trim s = trim_right (trim_left s)

abbrev pub is_comment : List ℕ → Bool
is_comment [] = true
is_comment (c ∷ s) = c == 35

-- A key and a value that are not empty.
abbrev pub pair_of : List ℕ → List ℕ → Option (List ℕ × List ℕ)
pair_of [] value = none
pair_of (c ∷ key) [] = none
pair_of (c ∷ key) (d ∷ value) = some (c ∷ key, d ∷ value)

-- The variable that a line asks for. A line that starts with '=' has an empty key.
unfoldable pub entry : List ℕ → Option (List ℕ × List ℕ)
unfolding trim cut
entry line =
    let trimmed = trim line in
    if is_comment trimmed
    then none
    else elim (cut (61 ∷ []) trimmed) [ none ↦ none | some p ↦ pair_of (trim p.0) (trim p.1) ]

-- `setenv` of a variable that is not set adds it.
unfoldable pub set_absent : List ℕ → List ℕ → Env → Env
unfolding getenv
set_absent key value env = elim (getenv key env) [ none ↦ (key, value) ∷ env | some v ↦ env ]

unfoldable pub parse_line : List ℕ → Env → Env
unfolding entry set_absent
parse_line line env = elim (entry line) [ none ↦ env | some p ↦ set_absent p.0 p.1 env ]

abbrev pub before_line : ℕ → List (List ℕ) → List (List ℕ)
before_line c [] = (c ∷ []) ∷ []
before_line c (l ∷ ls) = (c ∷ l) ∷ ls

-- The lines that `std::getline` reads: the last one may lack its line feed.
unfoldable pub lines_of : List ℕ → List (List ℕ)
lines_of [] = []
lines_of (c ∷ s) = let rest = lines_of s in if c == 10 then [] ∷ rest else before_line c rest

unfoldable pub parse_lines : List (List ℕ) → Env → Env
unfolding parse_line
parse_lines [] env = env
parse_lines (line ∷ lines) env = parse_lines lines (parse_line line env)

-- The environment, and the globals `g_load_flag` and `g_load_result`.
pub record Process : Type 0 where
  pub env : Env
  pub load_flag : Bool
  pub load_result : ℤ

unfoldable pub do_load : Option (List ℕ) → Process → Process
unfolding parse_lines lines_of
do_load none p = record p { load_flag = true; load_result = negsuc 0 }
do_load (some content) p = record p {
  env = parse_lines (lines_of content) p.env;
  load_flag = true;
  load_result = pos 1;
}

-- `call_once`
unfoldable pub load_secrets_file : Option (List ℕ) → Process → ℤ × Process
unfolding do_load
load_secrets_file file p = let q = if p.load_flag then p else do_load file p in (q.load_result, q)

abbrev pub or_empty : Option (List ℕ) → List ℕ
or_empty none = []
or_empty (some v) = v

-- The two accessors, which differ in the variable's name.
unfoldable pub api_key : List ℕ → Option (List ℕ) → Process → List ℕ × Process
unfolding load_secrets_file getenv
api_key name file p = let q = (load_secrets_file file p).1 in (or_empty (getenv name q.env), q)

unfoldable pub qwen_api_key : Option (List ℕ) → Process → List ℕ × Process
unfolding api_key
qwen_api_key file p = api_key (codes "QWEN_API_KEY") file p

unfoldable pub deepseek_api_key : Option (List ℕ) → Process → List ℕ × Process
unfolding api_key
deepseek_api_key file p = api_key (codes "DEEPSEEK_API_KEY") file p
