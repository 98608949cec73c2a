-- ===== src/Llm/Prompts/Examples.antt =====
-- Runs of the prompt manager.
use jetedge_agent.Prelude.{true, arith, ◌≡◌, refl, [], ◌∷◌, ◌++◌}
use jetedge_agent.Prelude.Bytes.{codes}
use jetedge_agent.Llm.Prompts.{
  char_at, is_blank, to_solid, from_solid, base64_encode, strip_markdown_fence, trim,
}
use jetedge_agent.Llm.Prompts.Base64.{base64_decode, base64_decode-base64_encode}
use jetedge_agent.Llm.Prompts.Fence.{fenced, strip_markdown_fence-fenced}

base64_encode_man : base64_encode (codes "light w") ≡ codes "bGlnaHQgdw=="
unfolding base64_encode char_at
base64_encode_man = refl

base64_decode-base64_encode_example :
    base64_decode (base64_encode (255 ∷ 216 ∷ 255 ∷ 224 ∷ [])) ≡ 255 ∷ 216 ∷ 255 ∷ 224 ∷ []
base64_decode-base64_encode_example =
    base64_decode-base64_encode (255 ∷ 216 ∷ 255 ∷ 224 ∷ [])
      (omega arith, (omega arith, (omega arith, (omega arith, tt))))

strip_open_fence : strip_markdown_fence (codes "```json") ≡ []
unfolding strip_markdown_fence to_solid from_solid
strip_open_fence = refl

space : is_blank 32 ≡ true
unfolding is_blank
space = refl

line_feed : is_blank 10 ≡ true
unfolding is_blank
line_feed = refl

strip_markdown_fence-fenced_example :
    strip_markdown_fence (codes " " ++ (fenced (codes "json") (codes "{} ") ++ codes "\n"))
    ≡ trim (codes "{} ")
strip_markdown_fence-fenced_example =
    strip_markdown_fence-fenced (codes " ") (codes "json") (codes "{} ") (codes "\n") (space, tt)
      (line_feed, tt) (refl, (refl, (refl, (refl, tt))))
