-- ===== src/Control/Feeds/Newest.antt =====
-- The lines that `tail_lines` gives are the newest of the file.
use mathlib.Core.List.{append-nil, append_assoc, reverse-append}
use mathlib.Core.Path.{subst}
use jetedge_agent.Prelude.{
  ℕ, zero, suc, ◌+◌, ◌-◌, ◌≡◌, refl, sym, ◌∙◌, ap, Bool, true, false, ltb, ◌==◌, List, [], ◌∷◌,
  ◌++◌, reverse, Option, none, some, length, drop, take, min, arith, Bool-cases, Option-cases, inl,
  inr,
}
use jetedge_agent.Prelude.Bytes.{starts_with, before_cut, cut}
use jetedge_agent.Control.Feeds.{collect_lines, newest_lines, tail_of, tail_lines}

collect_lines-append :
    (line a b : List ℕ)
    → collect_lines line (a ++ 10 ∷ b) ≡ collect_lines line (a ++ 10 ∷ []) ++ collect_lines [] b
unfolding collect_lines
collect_lines-append line [] b = refl
collect_lines-append line (c ∷ a) b = elim (Bool-cases (c == 10)) [
  | inl e ↦ rw e (ap (λ ls. reverse line ∷ ls) (collect_lines-append [] a b))
  | inr e ↦ rw e (collect_lines-append (c ∷ line) a b)
]

take-drop : (n : ℕ) (s : List ℕ) → take n s ++ drop n s ≡ s
take-drop zero s = refl
take-drop (suc n) [] = refl
take-drop (suc n) (c ∷ s) = ap (λ t. c ∷ t) (take-drop n s)

-- A text cut at its first line feed.
abbrev IsCut : List ℕ → Option (List ℕ × List ℕ) → Type 0
IsCut s none = Unit
IsCut s (some (x, y)) = s ≡ x ++ 10 ∷ y

before_cut-IsCut :
    (c : ℕ) (s : List ℕ) (o : Option (List ℕ × List ℕ)) → IsCut s o → IsCut (c ∷ s) (before_cut c o)
before_cut-IsCut c s none h = tt
before_cut-IsCut c s (some (x, y)) h = ap (λ t. c ∷ t) h

starts_with-line : (c : ℕ) (s : List ℕ) → starts_with (10 ∷ []) (c ∷ s) ≡ true → c ≡ 10
unfolding starts_with
starts_with-line c s h = ground (arith, h)

cut-IsCut : (s : List ℕ) → IsCut s (cut (10 ∷ []) s)
unfolding cut
cut-IsCut [] = tt
cut-IsCut (c ∷ s) = elim (Bool-cases (starts_with (10 ∷ []) (c ∷ s))) [
  | inl e ↦ rw e (ap (λ d. d ∷ s) (starts_with-line c s e))
  | inr e ↦ rw e (before_cut-IsCut c s (cut (10 ∷ []) s) (cut-IsCut s))
]

-- The lines of a text that goes on with `s` are, from the newest on, those of `s` and some older ones.
abbrev pub IsNewest : List ℕ → List (List ℕ) → Type 0
IsNewest content newest =
    (older : List (List ℕ)) × (reverse (collect_lines [] content) ≡ newest ++ older)

after_line-IsNewest : (a b : List ℕ) → IsNewest (a ++ 10 ∷ b) (reverse (collect_lines [] b))
after_line-IsNewest a b = (
  reverse (collect_lines [] (a ++ 10 ∷ [])),
  ap reverse (collect_lines-append [] a b)
      ∙ reverse-append (collect_lines [] (a ++ 10 ∷ [])) (collect_lines [] b),
)

all-IsNewest : (s : List ℕ) → IsNewest s (reverse (collect_lines [] s))
all-IsNewest s = ([], sym (append-nil (reverse (collect_lines [] s))))

-- The window from byte `n` on, less its first line.
window-IsNewest :
    (n : ℕ) (s x y : List ℕ)
    → cut (10 ∷ []) (drop n s) ≡ some (x, y)
    → IsNewest s (reverse (collect_lines [] y))
window-IsNewest n s x y h =
    let rest : drop n s ≡ x ++ 10 ∷ y = subst (IsCut (drop n s)) h (cut-IsCut (drop n s)) in
    let whole =
      append_assoc (take n s) x (10 ∷ y) ∙ ap (λ t. take n s ++ t) (sym rest) ∙ take-drop n s in
    subst (λ t. IsNewest t (reverse (collect_lines [] y))) whole
      (after_line-IsNewest (take n s ++ x) y)

newest_lines-IsNewest :
    (n : ℕ) (s : List ℕ) (mid : Bool)
    → (mid ≡ false → n ≡ 0)
    → IsNewest s (newest_lines mid (drop n s))
unfolding newest_lines
newest_lines-IsNewest n s false h =
    subst (λ m. IsNewest s (reverse (collect_lines [] (drop m s)))) (sym (h refl)) (all-IsNewest s)
newest_lines-IsNewest n s true h = elim (Option-cases (cut (10 ∷ []) (drop n s))) [
  | inl e ↦ rw (newest_lines, e) (reverse (collect_lines [] s), refl)
  | inr p ↦ rw (newest_lines, p.1) (window-IsNewest n s p.0.0 p.0.1 p.1)
]

whole_window : (size m : ℕ) → ltb (min size m) size ≡ false → size - min size m ≡ 0
whole_window size m h = ground (arith, h)

window_all : (size extra : ℕ) → ltb (min size (size + extra)) size ≡ false
window_all size extra = ground arith

tail_lines-all :
    (content : List ℕ) (extra : ℕ)
    → tail_lines (some content) (length content + extra) ≡ reverse (collect_lines [] content)
unfolding tail_lines tail_of
tail_lines-all content extra =
    let all = window_all (length content) extra in
    rw (all, whole_window (length content) (length content + extra) all) refl

-- `tail_lines` gives lines of the file, the newest first and without a gap up to its newest line: what
-- it leaves out are older ones. A window of the file's size or more leaves out none.
pub tail_lines-IsNewest :
    (content : List ℕ) (max_bytes extra : ℕ)
    → IsNewest content (tail_lines (some content) max_bytes)
      × (tail_lines (some content) (length content + extra) ≡ reverse (collect_lines [] content))
unfolding tail_lines tail_of
tail_lines-IsNewest content max_bytes extra = (
  newest_lines-IsNewest (length content - min (length content) max_bytes) content
      (ltb (min (length content) max_bytes) (length content))
      (whole_window (length content) max_bytes),
  tail_lines-all content extra,
)
