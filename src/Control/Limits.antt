-- ===== src/Control/Limits.antt =====
-- What the checks of a request let through.
use jetedge_agent.Prelude.{
  ◌<◌, ◌⊎◌, ℕ, zero, suc, ◌+◌, ◌-◌, ◌*◌, ◌≤◌, ◌≡◌, refl, ◌∙◌, sym, ap, true, List, [], ◌∷◌, ◌++◌,
  length, drop, take, Option, none, some, arith, Option-cases, inl, inr, min, max, All,
}
use jetedge_agent.Control.Requests.{
  events_limit_max, after_limit, leading_digits, clamped, parse_limit, is_name_byte, all_name_bytes,
  jpg, valid_keyframe_name,
}
use jetedge_agent.Prelude.Cuts.{same_bytes-eq}
use jetedge_agent.Prelude.Bytes.{same_bytes}

-- The number that the digits spell, after the digits with the value `v`.
abbrev pub decimal : ℕ → List ℕ → ℕ
decimal v [] = v
decimal v (c ∷ s) = decimal (v * 10 + (c - 48)) s

clamped-decimal :
    (s : List ℕ) (v w : ℕ)
    → v ≡ min events_limit_max w
    → clamped v s ≡ min events_limit_max (decimal w s)
unfolding clamped
clamped-decimal [] v w e = e
clamped-decimal (c ∷ s) v w e = clamped-decimal s _ (w * 10 + (c - 48)) (ground (arith, e))

-- The limit that a query asks for: the number spelled after "limit=", between 1 and 200; the default
-- if there is no such key or no digit follows it. The clamp in each round of the loop, which keeps the
-- sum from overflowing, does not change the result.
abbrev pub asked : Option (List ℕ) → ℕ → ℕ
asked none default = default
asked (some rest) default = elim (leading_digits rest) [
  | [] ↦ default
  | c ∷ digits ↦ max 1 (min events_limit_max (decimal 0 (c ∷ digits)))
]

asked_digits :
    (digits : List ℕ) (default : ℕ)
    → (elim digits [ [] ↦ default | c ∷ cs ↦ max 1 (clamped 0 (c ∷ cs)) ])
      ≡ elim digits [ [] ↦ default | c ∷ cs ↦ max 1 (min events_limit_max (decimal 0 (c ∷ cs))) ]
asked_digits [] default = refl
asked_digits (c ∷ cs) default = ap (max 1) (clamped-decimal (c ∷ cs) 0 0 refl)

-- For every query and default `parse_limit` is the number spelled by the digits after the first
-- "limit=", raised to 1 and lowered to 200, and the default without the key or without a digit after
-- it: the clamp in each round of the loop does not change the result.
pub parse_limit-asked :
    (query : List ℕ) (default : ℕ) → parse_limit query default ≡ asked (after_limit query) default
unfolding parse_limit
parse_limit-asked query default = elim (Option-cases (after_limit query)) [
  | inl e ↦ rw (e, parse_limit) refl
  | inr (rest, e) ↦ rw (e, parse_limit) (asked_digits (leading_digits rest) default)
]

take-drop : (n : ℕ) (xs : List ℕ) → take n xs ++ drop n xs ≡ xs
take-drop zero xs = refl
take-drop (suc n) [] = refl
take-drop (suc n) (x ∷ xs) = ap (λ ys. x ∷ ys) (take-drop n xs)

-- A digit, a letter, '_' or '-', by its code.
abbrev pub IsNameByte : ℕ → Type 0
IsNameByte c =
    ((48 ≤ c) × (c ≤ 57))
    ⊎ (((65 ≤ c) × (c ≤ 90)) ⊎ (((97 ≤ c) × (c ≤ 122)) ⊎ ((c ≡ 95) ⊎ (c ≡ 45))))

-- Neither '.' nor '/'.
abbrev pub IsPlain : ℕ → Type 0
IsPlain c = (c < 46) ⊎ (47 < c)

is_name_byte-IsNameByte : (c : ℕ) → is_name_byte c ≡ true → IsNameByte c × IsPlain c
is_name_byte-IsNameByte c h = (ground (arith, h), ground (arith, h))

all_name_bytes-All :
    (xs : List ℕ) → all_name_bytes xs ≡ true → All (λ c. IsNameByte c × IsPlain c) xs
unfolding all_name_bytes
all_name_bytes-All [] h = tt
all_name_bytes-All (x ∷ xs) h =
    (is_name_byte-IsNameByte x (ground (arith, h)), all_name_bytes-All xs (ground (arith, h)))

-- A keyframe name that is accepted is a stem followed by ".jpg", of 8 to 255 bytes. Each byte of the
-- stem is a digit, a letter, '_' or '-', and so neither '/' nor '.'.
pub valid_keyframe_name_lem :
    (name : List ℕ)
    → valid_keyframe_name name ≡ true
    → (stem : List ℕ) × (name ≡ stem ++ (46 ∷ 106 ∷ 112 ∷ 103 ∷ []))
      × All (λ c. IsNameByte c × IsPlain c) stem
      × (8 ≤ length name)
      × (length name ≤ 255)
unfolding valid_keyframe_name
valid_keyframe_name_lem name h =
    let n = length name - 4 in
    let ends : same_bytes (drop n name) jpg ≡ true = ground (arith, h) in
    let bytes : all_name_bytes (take n name) ≡ true = ground (arith, h) in
    (
      take n name,
      sym (take-drop n name) ∙ ap (λ ys. take n name ++ ys) (same_bytes-eq (drop n name) jpg ends),
      all_name_bytes-All (take n name) bytes,
      ground (arith, h),
      ground (arith, h),
    )
