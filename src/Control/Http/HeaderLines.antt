-- ===== src/Control/Http/HeaderLines.antt =====
-- The header loop against a reader of lines.
use mathlib.Core.List.{append-nil}
use jetedge_agent.Prelude.{
  ℕ, zero, suc, ◌≤◌, ◌==◌, ◌≡◌, refl, ◌∙◌, ap, false, List, [], ◌∷◌, ◌++◌, length, none, some,
  arith, Option-cases, inl, inr, ◌⊎◌, All, length-append,
}
use jetedge_agent.Prelude.Bytes.{cut, starts_with}
use jetedge_agent.Prelude.Cuts.{cut-none, cut-prepend, prepend, prepend-some}
use jetedge_agent.Control.Http.{Headers, Parsed, crlf, parse_headers, header_loop, add_line}
use jetedge_agent.Control.Http.Accepted.{parse_headers_ends}

-- A line without a carriage return.
abbrev pub IsLine : List ℕ → Type 0
IsLine l = All (λ c. (13 == c) ≡ false) l

-- The text of lines, with CRLF between them and none after the last.
unfoldable pub text_of_lines : List (List ℕ) → List ℕ
text_of_lines [] = []
text_of_lines (l ∷ []) = l
text_of_lines (l ∷ m ∷ ls) = l ++ (13 ∷ 10 ∷ text_of_lines (m ∷ ls))

-- Every line that is not empty is put into the headers, up to the last one or the first bad one.
unfoldable pub read_lines : List (List ℕ) → Headers → Parsed
read_lines [] out = Parsed.parsed out
read_lines ([] ∷ ls) out = read_lines ls out
read_lines ((c ∷ l) ∷ ls) out = elim (add_line (c ∷ l) out) [
  | none ↦ Parsed.malformed
  | some all ↦ read_lines ls all
]

cut-crlf : (l rest : List ℕ) → IsLine l → cut crlf (l ++ (13 ∷ 10 ∷ rest)) ≡ some (l, rest)
unfolding cut starts_with
cut-crlf l rest h =
    let here : cut crlf (13 ∷ 10 ∷ rest) ≡ some ([], rest) = refl in
    cut-prepend 13 (10 ∷ []) l (13 ∷ 10 ∷ rest) h
    ∙ ap (prepend l) here
    ∙ prepend-some l [] rest
    ∙ ap (λ s. some (s, rest)) (append-nil l)

header_loop-read_lines :
    (rounds : ℕ) (ls : List (List ℕ)) (out : Headers)
    → All IsLine ls
    → length (text_of_lines ls) ≤ rounds
    → header_loop rounds (text_of_lines ls) out ≡ read_lines ls out
unfolding header_loop read_lines text_of_lines
header_loop-read_lines rounds [] out h k = refl
header_loop-read_lines rounds ([] ∷ []) out h k = refl
header_loop-read_lines zero ((c ∷ l) ∷ []) out h k = ground arith
header_loop-read_lines (suc rounds) ((c ∷ l) ∷ []) out h k =
    let last = cut-none 13 (10 ∷ []) (c ∷ l) h.0 in
    elim (Option-cases (add_line (c ∷ l) out)) [
      | inl e ↦ rw (header_loop, read_lines, last, e) refl
      | inr (all, e) ↦ rw (header_loop, read_lines, last, e) refl
    ]
header_loop-read_lines zero ([] ∷ m ∷ ls) out h k = ground arith
header_loop-read_lines (suc rounds) ([] ∷ m ∷ ls) out h k =
    header_loop-read_lines rounds (m ∷ ls) out h.1 (omega arith)
header_loop-read_lines zero ((c ∷ l) ∷ m ∷ ls) out h k = ground arith
header_loop-read_lines (suc rounds) ((c ∷ l) ∷ m ∷ ls) out h k =
    let rest = text_of_lines (m ∷ ls) in
    let size = length-append l (13 ∷ 10 ∷ rest) in
    let here = cut-crlf (c ∷ l) rest h.0 in
    elim (Option-cases (add_line (c ∷ l) out)) [
      | inl e ↦ rw (header_loop, read_lines, here, e) refl
      | inr (all, e) ↦
          rw (header_loop, read_lines, here, e)
            (header_loop-read_lines rounds (m ∷ ls) all h.1 (omega (arith, size)))
    ]

-- The header loop comes to its end on every block, refused or read. On lines without a carriage
-- return, with CRLF between them, it reads every line that is not empty, to the last one or to the
-- first that is refused, blank lines before it or not.
pub parse_headers-read_lines :
    (block : List ℕ) (ls : List (List ℕ))
    → All IsLine ls
    → ((parse_headers block ≡ Parsed.malformed)
        ⊎ ((hs : Headers) × (parse_headers block ≡ Parsed.parsed hs)))
      × (parse_headers (text_of_lines ls) ≡ read_lines ls [])
unfolding parse_headers
parse_headers-read_lines block ls h = (
  parse_headers_ends block,
  header_loop-read_lines (length (text_of_lines ls)) ls [] h (omega arith),
)
