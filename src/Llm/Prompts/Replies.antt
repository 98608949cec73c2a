-- ===== src/Llm/Prompts/Replies.antt =====
-- src/llm/prompt_manager.cpp, the checks of a reply. The reader of JsonCpp is a parameter.
use jetedge_agent.Prelude.{ℕ, Bool, false, ◌&&◌, ◌||◌, not, if◌then◌else◌, List, Option, none, some}
use jetedge_agent.Prelude.Bytes.{codes}
use jetedge_agent.Llm.Prompts.{strip_markdown_fence}

-- What the code calls of JsonCpp to read a value. `member` is `operator[]` with a name: none where it
-- throws, which it does on a value that is neither an object nor null.
pub record JsonReader {ℓ} (V : Type ℓ) : Type ℓ where
  pub parse : List ℕ → Option V
  pub is_object : V → Bool
  pub is_array : V → Bool
  pub is_bool : V → Bool
  pub is_string : V → Bool
  pub is_empty : V → Bool
  pub is_member : V → List ℕ → Bool
  pub member : V → List ℕ → Option V
  pub first : V → V
  pub as_string : V → List ℕ

-- What a call comes to: an exception, false, or true with the text.
pub data Extracted : Type 0 where
  thrown refused : Extracted
  extracted : List ℕ → Extracted

module _ {ℓ} {V : Type ℓ} (j : JsonReader V) where
  unfoldable pub text_of : V → Extracted
  text_of content = if j.is_string content then extracted (j.as_string content) else refused

  unfoldable pub content_of : V → Extracted
  unfolding text_of
  content_of choice = elim (j.member choice (codes "message")) [
    | none ↦ thrown
    | some message ↦ elim (j.member message (codes "content")) [
      | none ↦ thrown
      | some content ↦ text_of content
    ]
  ]

  unfoldable pub first_choice : V → Extracted
  unfolding content_of
  first_choice root = elim (j.member root (codes "choices")) [
    | none ↦ thrown
    | some choices ↦
        if not (j.is_array choices) || j.is_empty choices
        then refused
        else content_of (j.first choices)
  ]

  unfoldable pub extract_content : List ℕ → Extracted
  unfolding first_choice
  extract_content response_body = elim (j.parse response_body) [
    | none ↦ refused
    | some root ↦ if j.is_object root then first_choice root else refused
  ]

  -- A member that is there and passes a test; on an object `operator[]` does not throw.
  unfoldable pub has : V → (V → Bool) → List ℕ → Bool
  has root test key =
      j.is_member root key && elim (j.member root key) [ none ↦ false | some v ↦ test v ]

  unfoldable pub is_review : V → Bool
  unfolding has
  is_review root =
      (has root j.is_bool (codes "confirmed") && has root j.is_string (codes "summary"))
      || (has root j.is_bool (codes "healthy") && has root j.is_array (codes "issues"))

  unfoldable pub validate_review_json : List ℕ → Bool
  unfolding is_review
  validate_review_json content = elim (j.parse (strip_markdown_fence content)) [
    | none ↦ false
    | some root ↦ j.is_object root && is_review root
  ]
