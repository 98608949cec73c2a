-- ===== src/Llm/Prompts.antt =====
-- src/llm/prompt_manager.cpp: the image payload and the cleaning of a model's answer; the prompts and
-- request bodies are in Bodies, the checks of a reply in Replies. A `std::string` is the list of its
-- bytes.
pub mod Bodies
pub mod Replies
mod Base64
mod Fence
mod Examples
use jetedge_agent.Prelude.{
  ℕ, ◌+◌, ◌-◌, ◌*◌, ◌/◌, ◌%◌, Bool, true, false, ◌&&◌, ◌||◌, leb, ◌==◌, if◌then◌else◌, List, [],
  ◌∷◌, Option, none, some, length, drop, get_or,
}
use jetedge_agent.Prelude.Bytes.{codes, same_bytes, starts_with, cut}

-- `kBase64Chars`.
abbrev pub base64_chars : List ℕ
base64_chars = codes "ABCDEFGHIJKLMNOPQRSTUVWXYZabcdefghijklmnopqrstuvwxyz0123456789+/"

unfoldable pub char_at : ℕ → ℕ
char_at k = get_or base64_chars k 0

-- The four characters of a turn of the loop, where a flag says that the byte is there. The bits that
-- `|` joins do not overlap, and `& 0x3F` is the remainder by 64.
unfoldable pub quad : ℕ → ℕ → ℕ → Bool → Bool → List ℕ → List ℕ
quad a b c has_b has_c out =
    char_at (a / 4 % 64)
    ∷ char_at ((a * 16 + b / 16) % 64)
    ∷ (if has_b then char_at ((b * 4 + c / 64) % 64) else 61)
    ∷ (if has_c then char_at (c % 64) else 61)
    ∷ out

unfoldable pub base64_encode : List ℕ → List ℕ
unfolding quad
base64_encode [] = []
base64_encode (a ∷ []) = quad a 0 0 false false []
base64_encode (a ∷ b ∷ []) = quad a b 0 true false []
base64_encode (a ∷ b ∷ c ∷ s) = quad a b c true true (base64_encode s)

-- One of " \t\r\n".
unfoldable pub is_blank : ℕ → Bool
is_blank c = (c == 32 || c == 9) || (c == 13 || c == 10)

-- `find_first_not_of`, as the text from there on.
unfoldable pub from_solid : List ℕ → List ℕ
unfolding is_blank
from_solid [] = []
from_solid (c ∷ s) = if is_blank c then from_solid s else c ∷ s

abbrev pub keep : ℕ → List ℕ → List ℕ
keep c [] = if is_blank c then [] else c ∷ []
keep c (x ∷ s) = c ∷ x ∷ s

-- `find_last_not_of`, as the text up to there.
unfoldable pub to_solid : List ℕ → List ℕ
unfolding is_blank
to_solid [] = []
to_solid (c ∷ s) = keep c (to_solid s)

unfoldable pub trim : List ℕ → List ℕ
trim s = to_solid (from_solid s)

-- "```"
abbrev pub fence : List ℕ
fence = 96 ∷ 96 ∷ 96 ∷ []

unfoldable pub opens : List ℕ → Bool
unfolding starts_with
opens s = leb 3 (length s) && starts_with fence s

unfoldable pub closes : List ℕ → Bool
closes s = leb 3 (length s) && same_bytes (drop (length s - 3) s) fence

abbrev pub before_more : ℕ → Option (List ℕ) → Option (List ℕ)
before_more c none = if c == 10 then some [] else none
before_more c (some s) = some (c ∷ s)

-- `rfind('\n')`, as the text before it.
unfoldable pub before_last_line : List ℕ → Option (List ℕ)
before_last_line [] = none
before_last_line (c ∷ s) = before_more c (before_last_line s)

-- The test at the end, on a text that has lost its opening fence.
unfoldable pub strip_end : List ℕ → List ℕ
unfolding closes before_last_line trim
strip_end s = if closes s then elim (before_last_line s) [ none ↦ [] | some t ↦ trim t ] else s

-- An early return of "" is left where it stands.
unfoldable pub strip_markdown_fence : List ℕ → List ℕ
unfolding strip_end trim opens cut
strip_markdown_fence content =
    let s = trim content in
    if opens s
    then elim (cut (10 ∷ []) s) [ none ↦ [] | some p ↦ strip_end (trim p.1) ]
    else strip_end s
