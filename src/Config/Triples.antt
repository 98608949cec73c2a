-- ===== src/Config/Triples.antt =====
-- Rules to reason about rows of loading steps: what holds before a step, and after it if it succeeds.
use Prim.Native.String.{String}
use mathlib.Core.Path.{subst}
use jetedge_agent.Prelude.{
  Bool, true, ◌≡◌, List, [], ◌∷◌, Option, none, some, Bool-cases, Option-cases, inl, inr,
}
use jetedge_agent.Config.Fields.{Yaml, Step, field, require, call, step, steps, part, within}

abbrev pub AllO : {C : Type 0} → (C → Type 0) → Option C → Type 0
AllO P none = Unit
AllO P (some c) = P c

-- From `P` loading leads to `Q`, or it fails.
abbrev pub Takes : {N C : Type 0} → (C → Type 0) → (N → C → Option C) → (C → Type 0) → Type 0
Takes {N} {C} P f Q = (n : N) (c : C) → P c → AllO Q (f n c)

pub AllO-both :
    {C : Type 0} (P Q : C → Type 0) (o : Option C) → AllO P o → AllO Q o → AllO (λ c. P c × Q c) o
AllO-both P Q none p q = tt
AllO-both P Q (some c) p q = (p, q)

pub takes_any : {N C : Type 0} (f : N → C → Option C) → Takes (λ (c : C). Unit) f (λ (c : C). Unit)
takes_any {C = C} f n c p = elim (Option-cases (f n c)) [ inl e ↦ rw e tt | inr (c', e) ↦ rw e tt ]

module _ {N C : Type 0} where
  -- What is to be shown of a row: a member's value and a call keep what holds, a test may add to it.
  abbrev pub Chain : (C → Type 0) → List (Step N C) → (C → Type 0) → Type 1
  Chain P [] Q = P ≡ Q
  Chain P (field {A} key convert good put ∷ ss) Q =
      ((a : A) (c : C) → good a ≡ true → P c → P (put a c)) × Chain P ss Q
  Chain P (require good ∷ ss) Q =
      (P' : C → Type 0) × (((c : C) → good c ≡ true → P c → P' c) × Chain P' ss Q)
  Chain P (call f ∷ ss) Q = Takes P f P × Chain P ss Q

  module _ {D : Type 0} (y : Yaml N D) where
    steps_next :
        (P P' Q : C → Type 0) (s : Step N C) (ss : List (Step N C))
        → Takes P (step y s) P'
        → Takes P' (steps y ss) Q
        → Takes P (steps y (s ∷ ss)) Q
    unfolding steps
    steps_next P P' Q s ss h k n c p = elim (Option-cases (step y s n c)) [
      | inl e ↦ rw (steps, e) tt
      | inr (c', e) ↦ rw (steps, e) (k n c' (subst (AllO P') e (h n c p)))
    ]

    field-Takes :
        (P : C → Type 0) {A : Type 0} (key : String) (convert : N → Option A) (good : A → Bool)
        (put : A → C → C)
        → ((a : A) (c : C) → good a ≡ true → P c → P (put a c))
        → Takes P (step y (field key convert good put)) P
    unfolding step
    field-Takes P key convert good put g n c p = elim (Option-cases (y.member n key)) [
      | inl e ↦ rw (step, e) p
      | inr (v, e) ↦ elim (Option-cases (convert v)) [
        | inl b ↦ rw (step, e, b) tt
        | inr (a, b) ↦ elim (Bool-cases (good a)) [
          | inl t ↦ rw (step, e, b, t) (g a c t p)
          | inr t ↦ rw (step, e, b, t) tt
        ]
      ]
    ]

    require-Takes :
        (P P' : C → Type 0) (good : C → Bool)
        → ((c : C) → good c ≡ true → P c → P' c)
        → Takes P (step y (require good)) P'
    unfolding step
    require-Takes P P' good f n c p = elim (Bool-cases (good c)) [
      | inl t ↦ rw (step, t) (f c t p)
      | inr t ↦ rw (step, t) tt
    ]

    call-Takes : (P : C → Type 0) (f : N → C → Option C) → Takes P f P → Takes P (step y (call f)) P
    unfolding step
    call-Takes P f h = h

    pub steps-Chain :
        (P Q : C → Type 0) (ss : List (Step N C)) → Chain P ss Q → Takes P (steps y ss) Q
    unfolding steps
    steps-Chain P Q [] h = λ n c p. subst (λ (X : C → Type 0). X c) h p
    steps-Chain P Q (field key convert good put ∷ ss) h =
        let s = field key convert good put in
        steps_next P P Q s ss (field-Takes P key convert good put h.0) (steps-Chain P Q ss h.1)
    steps-Chain P Q (require good ∷ ss) h =
        let rest = h.1 in
        steps_next P h.0 Q (require good) ss (require-Takes P h.0 good rest.0)
          (steps-Chain h.0 Q ss rest.1)
    steps-Chain P Q (call f ∷ ss) h =
        steps_next P P Q (call f) ss (call-Takes P f h.0) (steps-Chain P Q ss h.1)

    -- A part that may be missing, and is read into a member.
    pub inside :
        {E : Type 0} (P : E → Type 0) (I : C → Type 0) (key : String) (get : E → C)
        (put : C → E → E) (f : N → C → Option C)
        → ((e : E) → P e → I (get e))
        → ((c : C) (e : E) → I c → P e → P (put c e))
        → Takes I f I
        → Takes P (part y key (within y get put f)) P
    unfolding part within
    inside P I key get put f g h k n e p = elim (Option-cases (y.member n key)) [
      | inl o ↦ rw (part, o) p
      | inr (v, o) ↦ elim (Option-cases (f v (get e))) [
        | inl b ↦ rw (part, o, within, b) tt
        | inr (c, b) ↦ rw (part, o, within, b) (h c e (subst (AllO I) b (k v (get e) (g e p))) p)
      ]
    ]

    pub part-Takes :
        (P : C → Type 0) (key : String) (f : N → C → Option C)
        → Takes P f P
        → Takes P (part y key f) P
    unfolding part
    part-Takes P key f k n c p = elim (Option-cases (y.member n key)) [
      | inl o ↦ rw (part, o) p
      | inr (v, o) ↦ rw (part, o) (k v c p)
    ]
