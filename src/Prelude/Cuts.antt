-- ===== src/Prelude/Cuts.antt =====
-- A text grows behind a cut, and the cut stays where it is. Texts that test as equal are equal.
use mathlib.Core.List.{append-nil}
use mathlib.Core.Path.{subst}
use jetedge_agent.Prelude.{
  ℕ, zero, suc, ◌+◌, ◌==◌, ◌≤◌, ◌≡◌, refl, ◌∙◌, true, false, ◌&&◌, List, [], ◌∷◌, ◌++◌, length,
  drop, Option, none, some, arith, Bool-cases, Option-cases, inl, inr, ap, All, sym, sym,
}
use jetedge_agent.Prelude.Bytes.{same_bytes, starts_with, before_cut, cut}

starts_with-append :
    (key s t : List ℕ) → length key ≤ length s → starts_with key (s ++ t) ≡ starts_with key s
unfolding starts_with
starts_with-append [] s t h = refl
starts_with-append (k ∷ key) [] t h = ground arith
starts_with-append (k ∷ key) (c ∷ s) t h =
    ap (λ b. (k == c) && b) (starts_with-append key s t (omega arith))

starts_with-length : (key s : List ℕ) → starts_with key s ≡ true → length key ≤ length s
unfolding starts_with
starts_with-length [] s h = omega arith
starts_with-length (k ∷ key) [] h = ground arith
starts_with-length (k ∷ key) (c ∷ s) h = ground (arith, starts_with-length key s)

drop-append : (n : ℕ) (s t : List ℕ) → n ≤ length s → drop n (s ++ t) ≡ drop n s ++ t
drop-append zero s t h = refl
drop-append (suc n) [] t h = ground arith
drop-append (suc n) (c ∷ s) t h = drop-append n s t (omega arith)

abbrev LengthsOf : List ℕ → List ℕ → Option (List ℕ × List ℕ) → Type 0
LengthsOf key s none = Unit
LengthsOf key s (some (x, y)) = length s ≡ length x + length key + length y

length-drop : (n : ℕ) (s : List ℕ) → n ≤ length s → length s ≡ n + length (drop n s)
length-drop zero s h = omega arith
length-drop (suc n) [] h = ground arith
length-drop (suc n) (c ∷ s) h = omega (arith, length-drop n s)

before_cut-LengthsOf :
    (key s : List ℕ) (c : ℕ) (o : Option (List ℕ × List ℕ))
    → LengthsOf key s o
    → LengthsOf key (c ∷ s) (before_cut c o)
before_cut-LengthsOf key s c none h = tt
before_cut-LengthsOf key s c (some (x, y)) h = omega arith

cut-LengthsOf : (key s : List ℕ) → LengthsOf key s (cut key s)
unfolding cut
cut-LengthsOf key [] = tt
cut-LengthsOf key (c ∷ s) = elim (Bool-cases (starts_with key (c ∷ s))) [
  | inl e ↦
      let whole = length-drop (length key) (c ∷ s) (starts_with-length key (c ∷ s) e) in
      rw e (omega (arith, whole))
  | inr e ↦ rw e (before_cut-LengthsOf key s c (cut key s) (cut-LengthsOf key s))
]

-- A cut takes out the key and no more.
pub cut-lengths :
    (key s x y : List ℕ) → cut key s ≡ some (x, y) → length s ≡ length x + length key + length y
cut-lengths key s x y h = subst (LengthsOf key s) h (cut-LengthsOf key s)

pub cut-length :
    (key s : List ℕ) (parts : List ℕ × List ℕ) → cut key s ≡ some parts → length key ≤ length s
unfolding cut
cut-length key [] parts h = ground arith
cut-length key (c ∷ s) parts h = elim (Bool-cases (starts_with key (c ∷ s))) [
  | inl e ↦ starts_with-length key (c ∷ s) e
  | inr e ↦ elim (Option-cases (cut key s)) [
    | inl n ↦ ground (arith, e, n, h)
    | inr (rest, m) ↦ omega (arith, cut-length key s rest m)
  ]
]

grown : Option (List ℕ × List ℕ) → List ℕ → Option (List ℕ × List ℕ)
grown none t = none
grown (some (x, y)) t = some (x, y ++ t)

before_cut-grown :
    (c : ℕ) (o : Option (List ℕ × List ℕ)) (t : List ℕ)
    → before_cut c (grown o t) ≡ grown (before_cut c o) t
unfolding grown
before_cut-grown c none t = refl
before_cut-grown c (some (x, y)) t = refl

cut-grown :
    (key s t : List ℕ) (parts : List ℕ × List ℕ)
    → cut key s ≡ some parts
    → cut key (s ++ t) ≡ grown (cut key s) t
unfolding cut grown
cut-grown key [] t parts h = ground arith
cut-grown key (c ∷ s) t parts h =
    let room = cut-length key (c ∷ s) parts h in
    let same = starts_with-append key (c ∷ s) t room in
    elim (Bool-cases (starts_with key (c ∷ s))) [
      | inl e ↦ rw (cut, same, e) (rw (drop-append (length key) (c ∷ s) t room) refl)
      | inr e ↦ elim (Option-cases (cut key s)) [
        | inl n ↦ ground (arith, e, n, h)
        | inr (rest, m) ↦
            rw (cut, same, e) (rw (cut-grown key s t rest m) (before_cut-grown c (cut key s) t))
      ]
    ]

pub cut-append :
    (key s t x y : List ℕ) → cut key s ≡ some (x, y) → cut key (s ++ t) ≡ some (x, y ++ t)
unfolding grown
cut-append key s t x y h = cut-grown key s t (x, y) h ∙ rw h refl

-- Bytes put before both sides of a cut.
abbrev pub prepend : List ℕ → Option (List ℕ × List ℕ) → Option (List ℕ × List ℕ)
prepend [] o = o
prepend (c ∷ s) o = before_cut c (prepend s o)

-- The key does not begin inside a text without its first byte.
pub cut-prepend :
    (k : ℕ) (key s t : List ℕ)
    → All (λ c. (k == c) ≡ false) s
    → cut (k ∷ key) (s ++ t) ≡ prepend s (cut (k ∷ key) t)
unfolding cut starts_with
cut-prepend k key [] t h = refl
cut-prepend k key (c ∷ s) t h = rw h.0 (ap (before_cut c) (cut-prepend k key s t h.1))

pub prepend-some : (s x y : List ℕ) → prepend s (some (x, y)) ≡ some (s ++ x, y)
prepend-some [] x y = refl
prepend-some (c ∷ s) x y = ap (before_cut c) (prepend-some s x y)

-- A text without the byte, and what follows the byte.
pub cut-byte :
    (k : ℕ) (s t : List ℕ)
    → All (λ c. (k == c) ≡ false) s
    → cut (k ∷ []) (s ++ (k ∷ t)) ≡ some (s, t)
unfolding cut starts_with
cut-byte k s t h =
    let here : cut (k ∷ []) (k ∷ t) ≡ some ([], t) = ground arith in
    cut-prepend k [] s (k ∷ t) h
    ∙ ap (prepend s) here
    ∙ prepend-some s [] t
    ∙ ap (λ r. some (r, t)) (append-nil s)

prepend-none : (s : List ℕ) → prepend s none ≡ none
prepend-none [] = refl
prepend-none (c ∷ s) = ap (before_cut c) (prepend-none s)

pub cut-none : (k : ℕ) (key s : List ℕ) → All (λ c. (k == c) ≡ false) s → cut (k ∷ key) s ≡ none
unfolding cut
cut-none k key s h =
    ap (cut (k ∷ key)) (sym (append-nil s)) ∙ cut-prepend k key s [] h ∙ prepend-none s

pub same_bytes-eq : (xs ys : List ℕ) → same_bytes xs ys ≡ true → xs ≡ ys
same_bytes-eq [] [] h = refl
same_bytes-eq [] (y ∷ ys) h = ground arith
same_bytes-eq (x ∷ xs) [] h = ground arith
same_bytes-eq (x ∷ xs) (y ∷ ys) h = ground (arith, same_bytes-eq xs ys)
