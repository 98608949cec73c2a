-- ===== src/Llm/Prompts/Fence.antt =====
-- A fenced answer loses its fence.
use jetedge_agent.Prelude.{
  Option-cases, ℕ, suc, ◌+◌, ◌-◌, ◌≡◌, refl, sym, ◌∙◌, ap, true, false, ◌&&◌, ◌==◌, List, [], ◌∷◌,
  ◌++◌, some, length, drop, All, arith, Bool-cases, inl, inr, ◌⊎◌, length-append, leb,
}
use jetedge_agent.Prelude.Bytes.{cut}
use jetedge_agent.Prelude.Cuts.{cut-byte}
use jetedge_agent.Llm.Prompts.{
  is_blank, from_solid, keep, to_solid, trim, fence, opens, closes, before_more, before_last_line,
  strip_end, strip_markdown_fence,
}

abbrev pub IsBlank : List ℕ → Type 0
IsBlank s = All (λ c. is_blank c ≡ true) s

from_solid-append : (b s : List ℕ) → IsBlank b → from_solid (b ++ s) ≡ from_solid s
unfolding from_solid
from_solid-append [] s h = refl
from_solid-append (c ∷ b) s h = rw h.0 (from_solid-append b s h.1)

to_solid-blank : (a : List ℕ) → IsBlank a → to_solid a ≡ []
unfolding to_solid
to_solid-blank [] h = refl
to_solid-blank (c ∷ a) h = rw (to_solid-blank a h.1, h.0) refl

to_solid-append : (s a : List ℕ) → IsBlank a → to_solid (s ++ a) ≡ to_solid s
unfolding to_solid
to_solid-append [] a h = to_solid-blank a h
to_solid-append (c ∷ s) a h = ap (keep c) (to_solid-append s a h)

-- A text before one that ends in no blank.
to_solid-kept :
    (s : List ℕ) (c : ℕ) (t : List ℕ)
    → to_solid (c ∷ t) ≡ c ∷ t
    → to_solid (s ++ c ∷ t) ≡ s ++ c ∷ t
unfolding to_solid
to_solid-kept [] c t h = h
to_solid-kept (x ∷ []) c t h = rw (to_solid-kept [] c t h) refl
to_solid-kept (x ∷ y ∷ s) c t h = rw (to_solid-kept (y ∷ s) c t h) refl

from_solid-twice : (s : List ℕ) → from_solid (from_solid s) ≡ from_solid s
unfolding from_solid
from_solid-twice [] = refl
from_solid-twice (c ∷ s) = elim (Bool-cases (is_blank c)) [
  | inl e ↦ rw e (from_solid-twice s)
  | inr e ↦ rw (e, e) refl
]

-- What stands before a closing fence, and the fence.
from_solid-line :
    (p t : List ℕ)
    → (from_solid (p ++ t) ≡ from_solid p ++ t)
      ⊎ ((from_solid p ≡ []) × (from_solid (p ++ t) ≡ from_solid t))
unfolding from_solid
from_solid-line [] t = inr (refl, refl)
from_solid-line (c ∷ p) t = elim (Bool-cases (is_blank c)) [
  | inl e ↦ rw e (from_solid-line p t)
  | inr e ↦ rw e (inl refl)
]

drop-after : (q : List ℕ) (c : ℕ) (t : List ℕ) → drop (suc (length q)) (q ++ c ∷ t) ≡ t
drop-after [] c t = refl
drop-after (x ∷ q) c t = drop-after q c t

closes-line : (q : List ℕ) → closes (q ++ 10 ∷ fence) ≡ true
unfolding closes
closes-line q =
    let size = length-append q (10 ∷ fence) in
    let long : leb 3 (length q + 4) ≡ true = ground arith in
    let less : length q + 4 - 3 ≡ suc (length q) = omega arith in
    rw (size, long, less, drop-after q 10 fence) refl

before_last_line-line : (q : List ℕ) → before_last_line (q ++ 10 ∷ fence) ≡ some q
unfolding before_last_line
before_last_line-line [] = refl
before_last_line-line (c ∷ q) = ap (before_more c) (before_last_line-line q)

strip_end-line : (q : List ℕ) → strip_end (q ++ 10 ∷ fence) ≡ trim q
unfolding strip_end
strip_end-line q = rw (strip_end, closes-line q, before_last_line-line q) refl

strip_end-fence : strip_end (to_solid (from_solid (10 ∷ fence))) ≡ to_solid []
unfolding strip_end from_solid to_solid
strip_end-fence = refl

strip_end-trim : (p : List ℕ) → strip_end (trim (p ++ 10 ∷ fence)) ≡ trim p
unfolding trim to_solid
strip_end-trim p = elim (from_solid-line p (10 ∷ fence)) [
  | inl e ↦
      ap (λ s. strip_end (to_solid s)) e
      ∙ ap strip_end (to_solid-kept (from_solid p) 10 fence refl)
      ∙ strip_end-line (from_solid p)
      ∙ ap to_solid (from_solid-twice p)
  | inr e ↦ ap (λ s. strip_end (to_solid s)) e.1 ∙ strip_end-fence ∙ sym (ap to_solid e.0)
]

-- An answer in a fence: the opening fence with a tag to the end of its line, the payload, and the
-- closing fence on a line of its own.
unfoldable pub fenced : List ℕ → List ℕ → List ℕ
fenced tag p = 96 ∷ 96 ∷ 96 ∷ (tag ++ 10 ∷ (p ++ 10 ∷ fence))

trim-fenced :
    (before tag p after : List ℕ)
    → IsBlank before
    → IsBlank after
    → trim (before ++ (fenced tag p ++ after)) ≡ fenced tag p
unfolding trim fenced from_solid to_solid
trim-fenced before tag p after hb ha =
    ap to_solid (from_solid-append before (fenced tag p ++ after) hb)
    ∙ to_solid-append (fenced tag p) after ha
    ∙ to_solid-kept (96 ∷ 96 ∷ 96 ∷ tag) 10 (p ++ 10 ∷ fence) (to_solid-kept (10 ∷ p) 10 fence refl)

leb_three : (n : ℕ) → leb 3 (suc (suc (suc n))) ≡ true
leb_three n = ground arith

opens-fenced : (tag p : List ℕ) → opens (fenced tag p) ≡ true
unfolding opens fenced
opens-fenced tag p = ap (λ b. b && true) (leb_three (length (tag ++ 10 ∷ (p ++ 10 ∷ fence))))

cut-fenced :
    (tag p : List ℕ)
    → All (λ c. (10 == c) ≡ false) tag
    → cut (10 ∷ []) (fenced tag p) ≡ some (96 ∷ 96 ∷ 96 ∷ tag, p ++ 10 ∷ fence)
unfolding fenced
cut-fenced tag p h = cut-byte 10 (96 ∷ 96 ∷ 96 ∷ tag) (p ++ 10 ∷ fence) (refl, (refl, (refl, h)))

-- An answer in a fence, with blanks before and after it and a tag of any bytes but a line feed, is
-- stripped to its payload, trimmed.
pub strip_markdown_fence-fenced :
    (before tag p after : List ℕ)
    → IsBlank before
    → IsBlank after
    → All (λ c. (10 == c) ≡ false) tag
    → strip_markdown_fence (before ++ (fenced tag p ++ after)) ≡ trim p
unfolding strip_markdown_fence
strip_markdown_fence-fenced before tag p after hb ha ht =
    rw
      (
        strip_markdown_fence,
        trim-fenced before tag p after hb ha,
        opens-fenced tag p,
        cut-fenced tag p ht,
      )
      (strip_end-trim p)

keep-solid : (c : ℕ) (s : List ℕ) → to_solid s ≡ s → to_solid (keep c s) ≡ keep c s
unfolding to_solid
keep-solid c [] h = elim (Bool-cases (is_blank c)) [ inl e ↦ rw e refl | inr e ↦ rw (e, e) refl ]
keep-solid c (x ∷ s) h = rw h refl

to_solid-twice : (s : List ℕ) → to_solid (to_solid s) ≡ to_solid s
unfolding to_solid
to_solid-twice [] = refl
to_solid-twice (c ∷ s) = keep-solid c (to_solid s) (to_solid-twice s)

keep-not_blank : (c : ℕ) (s : List ℕ) → is_blank c ≡ false → from_solid (keep c s) ≡ keep c s
unfolding from_solid
keep-not_blank c [] h = rw (h, h) refl
keep-not_blank c (x ∷ s) h = rw h refl

from_solid-to_solid : (s : List ℕ) → from_solid (to_solid (from_solid s)) ≡ to_solid (from_solid s)
unfolding from_solid to_solid
from_solid-to_solid [] = refl
from_solid-to_solid (c ∷ s) = elim (Bool-cases (is_blank c)) [
  | inl e ↦ rw e (from_solid-to_solid s)
  | inr e ↦ rw e (keep-not_blank c (to_solid s) e)
]

trim-twice : (s : List ℕ) → trim (trim s) ≡ trim s
unfolding trim
trim-twice s = ap to_solid (from_solid-to_solid s) ∙ to_solid-twice (from_solid s)

strip_end-trimmed : (s : List ℕ) → trim s ≡ s → trim (strip_end s) ≡ strip_end s
unfolding strip_end to_solid from_solid
strip_end-trimmed s h = elim (Bool-cases (closes s)) [
  | inl e ↦ elim (Option-cases (before_last_line s)) [
    | inl n ↦ rw (strip_end, e, n) refl
    | inr t ↦ rw (strip_end, e, t.1) (trim-twice t.0)
  ]
  | inr e ↦ rw (strip_end, e, h) refl
]

-- Whatever the answer, what is left of it has no blank at either end.
pub strip_markdown_fence-trimmed :
    (content : List ℕ) → trim (strip_markdown_fence content) ≡ strip_markdown_fence content
unfolding strip_markdown_fence to_solid from_solid
strip_markdown_fence-trimmed content = elim (Bool-cases (opens (trim content))) [
  | inl o ↦ elim (Option-cases (cut (10 ∷ []) (trim content))) [
    | inl n ↦ rw (strip_markdown_fence, o, n) refl
    | inr p ↦ rw (strip_markdown_fence, o, p.1) (strip_end-trimmed (trim p.0.1) (trim-twice p.0.1))
  ]
  | inr o ↦ rw (strip_markdown_fence, o) (strip_end-trimmed (trim content) (trim-twice content))
]
