-- ===== src/Secrets/Examples.antt =====
-- Runs of the key loader.
use jetedge_agent.Prelude.{ℕ, ◌≡◌, refl, List, [], ◌∷◌, some, none}
use jetedge_agent.Prelude.Bytes.{codes}
use jetedge_agent.Secrets.{Env, entry, lines_of, is_space, api_key, getenv}
use jetedge_agent.Secrets.Precedence.{entries, fresh, secret, api_key-secret}

abbrev secrets_env : List ℕ
secrets_env = codes "# keys\r\n QWEN_API_KEY = abc\r\nQWEN_API_KEY=def\nDEEPSEEK_API_KEY=file"

abbrev deepseek_set : Env
deepseek_set = (codes "DEEPSEEK_API_KEY", codes "env") ∷ []

entry_spaces : entry (codes " QWEN_API_KEY = abc\r") ≡ some (codes "QWEN_API_KEY", codes "abc")
unfolding entry is_space
entry_spaces = refl

entry_no_key : entry (codes "=abc") ≡ none
unfolding entry is_space
entry_no_key = refl

secret_first : secret (codes "QWEN_API_KEY") (some secrets_env) deepseek_set ≡ codes "abc"
unfolding secret getenv entries lines_of
secret_first = refl

secret_env : secret (codes "DEEPSEEK_API_KEY") (some secrets_env) deepseek_set ≡ codes "env"
unfolding secret getenv
secret_env = refl

api_key-secret_example :
    ((api_key (codes "QWEN_API_KEY") (some secrets_env) (fresh deepseek_set)).0
      ≡ secret (codes "QWEN_API_KEY") (some secrets_env) deepseek_set)
    × ((api_key
          (codes "DEEPSEEK_API_KEY")
          none
          (api_key (codes "QWEN_API_KEY") (some secrets_env) (fresh deepseek_set)).1).0
        ≡ secret (codes "DEEPSEEK_API_KEY") (some secrets_env) deepseek_set)
api_key-secret_example =
    api_key-secret (codes "QWEN_API_KEY") (codes "DEEPSEEK_API_KEY") (some secrets_env) none
      deepseek_set
