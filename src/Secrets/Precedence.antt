-- ===== src/Secrets/Precedence.antt =====
-- Where a key comes from: the environment before the file, an earlier line before a later one.
use mathlib.Core.Path.{subst}
use jetedge_agent.Prelude.{
  ℕ, ◌≡◌, refl, sym, ◌∙◌, ap, true, false, List, [], ◌∷◌, Option, none, some, Bool-cases,
  Option-cases, inl, inr,
}
use jetedge_agent.Prelude.Bytes.{same_bytes}
use jetedge_agent.Prelude.Cuts.{same_bytes-eq}
use jetedge_agent.Secrets.{
  pos, Env, getenv, entry, set_absent, parse_line, parse_lines, lines_of, Process, do_load,
  or_empty, load_secrets_file, api_key,
}

-- A value, or else another.
abbrev pub or_else : Option (List ℕ) → Option (List ℕ) → Option (List ℕ)
or_else none o = o
or_else (some v) o = some v

abbrev pub with_entry : Option (List ℕ × List ℕ) → Env → Env
with_entry none rest = rest
with_entry (some p) rest = p ∷ rest

-- The variables that the lines ask for, in their order.
unfoldable pub entries : List (List ℕ) → Env
unfolding entry
entries [] = []
entries (line ∷ lines) = with_entry (entry line) (entries lines)

entry_first :
    (key k v : List ℕ) (env rest : Env)
    → getenv k env ≡ none
    → or_else (getenv key ((k, v) ∷ env)) (getenv key rest)
      ≡ or_else (getenv key env) (getenv key ((k, v) ∷ rest))
unfolding getenv
entry_first key k v env rest h = elim (Bool-cases (same_bytes k key)) [
  | inl e ↦
      let absent = subst (λ x. getenv x env ≡ none) (same_bytes-eq k key e) h in rw (e, absent) refl
  | inr e ↦ rw e refl
]

entry_later :
    (key k v w : List ℕ) (env rest : Env)
    → getenv k env ≡ some w
    → or_else (getenv key env) (getenv key rest)
      ≡ or_else (getenv key env) (getenv key ((k, v) ∷ rest))
unfolding getenv
entry_later key k v w env rest h = elim (Bool-cases (same_bytes k key)) [
  | inl e ↦
      let present = subst (λ x. getenv x env ≡ some w) (same_bytes-eq k key e) h in rw present refl
  | inr e ↦ rw e refl
]

getenv-set_absent :
    (key k v : List ℕ) (env rest : Env)
    → or_else (getenv key (set_absent k v env)) (getenv key rest)
      ≡ or_else (getenv key env) (getenv key ((k, v) ∷ rest))
unfolding set_absent getenv
getenv-set_absent key k v env rest = elim (Option-cases (getenv k env)) [
  | inl n ↦ rw (set_absent, n) (entry_first key k v env rest n)
  | inr w ↦ rw (set_absent, w.1) (entry_later key k v w.0 env rest w.1)
]

getenv-parse_line :
    (key line : List ℕ) (env rest : Env)
    → or_else (getenv key (parse_line line env)) (getenv key rest)
      ≡ or_else (getenv key env) (getenv key (with_entry (entry line) rest))
unfolding parse_line
getenv-parse_line key line env rest = elim (Option-cases (entry line)) [
  | inl n ↦ rw (parse_line, n) refl
  | inr p ↦ rw (parse_line, p.1) (getenv-set_absent key p.0.0 p.0.1 env rest)
]

or_else-none : (o : Option (List ℕ)) → or_else o none ≡ o
or_else-none none = refl
or_else-none (some v) = refl

-- After the lines a variable has the value that it had, or else the first that they ask for.
getenv-parse_lines :
    (key : List ℕ) (lines : List (List ℕ)) (env : Env)
    → getenv key (parse_lines lines env) ≡ or_else (getenv key env) (getenv key (entries lines))
unfolding parse_lines entries
getenv-parse_lines key [] env = sym (or_else-none (getenv key env))
getenv-parse_lines key (line ∷ lines) env =
    getenv-parse_lines key lines (parse_line line env)
    ∙ getenv-parse_line key line env (entries lines)

-- The value that a key has in a process whose environment is `env`, with the secrets file `file`.
unfoldable pub secret : List ℕ → Option (List ℕ) → Env → List ℕ
secret name none env = or_empty (getenv name env)
secret name (some content) env =
    or_empty (or_else (getenv name env) (getenv name (entries (lines_of content))))

abbrev pub fresh : Env → Process
fresh env = record { env = env; load_flag = false; load_result = pos 0 }

getenv-fresh :
    (name : List ℕ) (file : Option (List ℕ)) (env : Env)
    → or_empty (getenv name ((do_load file (fresh env)).env)) ≡ secret name file env
unfolding do_load secret
getenv-fresh name none env = refl
getenv-fresh name (some content) env = ap or_empty (getenv-parse_lines name (lines_of content) env)

load_flag-do_load : (file : Option (List ℕ)) (p : Process) → (do_load file p).load_flag ≡ true
unfolding do_load
load_flag-do_load none p = refl
load_flag-do_load (some content) p = refl

-- In a fresh process each key is the variable's value in the environment, or else the first value that
-- a line of the secrets file has for it, or else empty; a second key is asked of the file that the
-- first call read, whatever the file holds by then.
pub api_key-secret :
    (name other : List ℕ) (file later : Option (List ℕ)) (env : Env)
    → ((api_key name file (fresh env)).0 ≡ secret name file env)
      × ((api_key other later (api_key name file (fresh env)).1).0 ≡ secret other file env)
unfolding api_key load_secrets_file
api_key-secret name other file later env = (
  getenv-fresh name file env,
  rw (load_flag-do_load file (fresh env)) (getenv-fresh other file env),
)
