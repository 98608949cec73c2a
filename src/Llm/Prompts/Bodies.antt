-- ===== src/Llm/Prompts/Bodies.antt =====
-- src/llm/prompt_manager.cpp, the prompts and the request bodies. JsonCpp, the files and `snprintf` are
-- parameters.
use jetedge_agent.Prelude.{
  ℕ, zero, suc, Bool, true, false, List, [], ◌∷◌, ◌++◌, Option, none, some, get_or, if◌then◌else◌,
}
use jetedge_agent.Prelude.Bytes.{codes}
use jetedge_agent.Prelude.Int.{ℤ, pos, negsuc}
use jetedge_agent.Prelude.Doubles.{Doubles}
use jetedge_agent.Events.Types.{EventRecord}
use jetedge_agent.Llm.Prompts.{base64_encode}

-- What the code calls of JsonCpp to build a value: `root[key] = value`, `append`, the conversions and
-- `FastWriter::write`.
pub record JsonWriter {ℓ} (V : Type ℓ) : Type ℓ where
  pub null_value : V
  pub array_value : V
  pub set_member : V → List ℕ → V → V
  pub append : V → V → V
  pub of_text : List ℕ → V
  pub of_int : ℤ → V
  pub of_bool : Bool → V
  pub write : V → List ℕ

abbrev is_empty : List ℕ → Bool
is_empty [] = true
is_empty (c ∷ s) = false

abbrev pub text_or : List ℕ → List ℕ → List ℕ
text_or s d = if is_empty s then d else s

abbrev pub positive_or : ℤ → ℤ → ℤ
positive_or (pos zero) d = d
positive_or (pos (suc n)) d = pos (suc n)
positive_or (negsuc n) d = d

abbrev pub class_name : ℤ → List (List ℕ) → List ℕ
class_name (pos n) names = get_or names n (codes "?")
class_name (negsuc n) names = codes "?"

-- `event` is the text that `snprintf` leaves in its buffer of 512 bytes.
unfoldable pub build_qwen_prompt :
    {d : Doubles}
    → (EventRecord d → List ℕ → List ℕ)
    → EventRecord d
    → List (List ℕ)
    → Bool
    → List ℕ
build_qwen_prompt event e class_names has_image =
    (if has_image
      then codes "Review the attached image and this detection event. "
      else codes "No image is available. Review this detection event from its metadata only. ")
    ++ codes
        "Decide whether the detection is accurate. Respond with ONLY a JSON object: {\"confirmed\": true|false, \"summary\": \"one sentence\", \"confidence\": \"high|medium|low\"}. "
    ++ event e (class_name e.class_id class_names)

unfoldable pub build_deepseek_metrics_prompt : List ℕ → List ℕ
build_deepseek_metrics_prompt metrics_json =
    codes
      "Analyze this edge AI system metrics snapshot. Identify any performance degradation, resource pressure, or anomalies, and recommend bounded corrective actions. Respond with ONLY a JSON object: {\"healthy\": true|false, \"issues\": [\"...\"], \"recommendations\": [\"...\"]}. Metrics:\n"
    ++ metrics_json

abbrev pub qwen_system_message : List ℕ
qwen_system_message =
    codes
      "You are a traffic-monitoring visual analyst for an edge AI platform. You review detection events and keyframes. You always respond with valid JSON only, matching the requested schema. You never fabricate objects that are not visible in the image."

abbrev pub deepseek_system_message : List ℕ
deepseek_system_message =
    codes
      "You are a system operator for an edge AI platform. You analyze metrics, logs, and events. You always respond with valid JSON only, matching the requested schema. Recommendations must be conservative and bounded; never suggest disabling all streams."

-- `base64_encode_file`: a file that cannot be opened gives "", as an empty one does.
unfoldable pub base64_encode_file : (List ℕ → Option (List ℕ)) → List ℕ → List ℕ
base64_encode_file read path = elim (read path) [ none ↦ [] | some payload ↦ base64_encode payload ]

module _ {ℓ} {V : Type ℓ} (j : JsonWriter V) where
  -- A message of a role.
  unfoldable pub message : List ℕ → V → V
  message role content =
      j.set_member (j.set_member j.null_value (codes "role") (j.of_text role)) (codes "content")
        content

  unfoldable pub image_part : List ℕ → V
  image_part b64 =
      j.set_member (j.set_member j.null_value (codes "type") (j.of_text (codes "image_url")))
        (codes "image_url")
        (j.set_member j.null_value (codes "url")
          (j.of_text (codes "data:image/jpeg;base64," ++ b64)))

  -- The loop over the paths: an image without a payload is skipped.
  unfoldable pub add_images : (List ℕ → Option (List ℕ)) → List (List ℕ) → V → V
  add_images read [] content = content
  add_images read (path ∷ paths) content =
      let b64 = base64_encode_file read path in
      add_images read paths (if is_empty b64 then content else j.append content (image_part b64))

  unfoldable pub text_part : List ℕ → V
  text_part prompt =
      j.set_member (j.set_member j.null_value (codes "type") (j.of_text (codes "text")))
        (codes "text") (j.of_text prompt)

  unfoldable pub body_head : List ℕ → ℤ → V
  body_head model max_tokens =
      j.set_member (j.set_member j.null_value (codes "model") (j.of_text model))
        (codes "max_tokens") (j.of_int max_tokens)

  unfoldable pub build_qwen_body :
      (List ℕ → Option (List ℕ)) → List ℕ → List ℕ → List (List ℕ) → ℤ → Bool → List ℕ
  build_qwen_body read model prompt_text image_paths max_tokens thinking_mode =
      let sys_msg = message (codes "system") (j.of_text qwen_system_message) in
      let content = add_images read image_paths (j.append j.array_value (text_part prompt_text)) in
      let messages = j.append (j.append j.array_value sys_msg) (message (codes "user") content) in
      let root =
        body_head (text_or model (codes "qwen3.6-flash")) (positive_or max_tokens (pos 256)) in
      j.write (j.set_member root (codes "messages") messages)

  unfoldable pub no_thinking : Bool → V → V
  no_thinking thinking_mode root =
      if thinking_mode
      then root
      else j.set_member root (codes "thinking")
          (j.set_member j.null_value (codes "type") (j.of_text (codes "disabled")))

  unfoldable pub build_deepseek_body : List ℕ → List ℕ → List ℕ → ℤ → Bool → List ℕ
  build_deepseek_body model prompt_text system_message max_tokens thinking_mode =
      let first =
        body_head (text_or model (codes "deepseek-chat")) (positive_or max_tokens (pos 512)) in
      let root =
        no_thinking thinking_mode (j.set_member first (codes "stream") (j.of_bool false)) in
      let system = text_or system_message deepseek_system_message in
      let sys_msg = message (codes "system") (j.of_text system) in
      let user_msg = message (codes "user") (j.of_text prompt_text) in
      let messages = j.append (j.append j.array_value sys_msg) user_msg in
      j.write (j.set_member root (codes "messages") messages)
