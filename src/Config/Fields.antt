-- ===== src/Config/Fields.antt =====
-- How a member of a YAML map is read: nothing is done where the member is missing; where the
-- conversion throws, or the value fails its test, loading fails. The functions of yaml-cpp are a
-- parameter. Loading that fails is `none`; the text for the reader is left out.
use Prim.Native.String.{String}
use jetedge_agent.Prelude.{Bool, if◌then◌else◌, List, [], ◌∷◌, Option, none, some}
use jetedge_agent.Prelude.Int.{ℤ}

-- `node[key]` where it is defined, and the conversions, which may throw.
pub record Yaml (N D : Type 0) : Type 0 where
  pub member : N → String → Option N
  pub as_int : N → Option ℤ
  pub as_bool : N → Option Bool
  pub as_text : N → Option String
  pub as_double : N → Option D
  pub items : N → List N
  pub is_map : N → Bool
  pub is_sequence : N → Bool

-- One step of loading. `field` is
-- `if (node[key]) { v = convert(node[key]); if (!good(v)) return false; put(v); }`,
-- `require` is a test between members, `call` is anything else.
pub data Step (N C : Type 0) : Type 1 where
  field : {A : Type 0} → String → (N → Option A) → (A → Bool) → (A → C → C) → Step N C
  require : (C → Bool) → Step N C
  call : (N → C → Option C) → Step N C

module _ {N D : Type 0} (y : Yaml N D) where
  module _ {C : Type 0} where
    unfoldable pub step : Step N C → N → C → Option C
    step (field key convert good put) n c = elim (y.member n key) [
      | none ↦ some c
      | some v ↦ elim (convert v) [ none ↦ none | some a ↦ if good a then some (put a c) else none ]
    ]
    step (require good) n c = if good c then some c else none
    step (call f) n c = f n c

    unfoldable pub steps : List (Step N C) → N → C → Option C
    unfolding step
    steps [] n c = some c
    steps (s ∷ ss) n c = elim (step s n c) [ none ↦ none | some c' ↦ steps ss n c' ]

    -- `if (root[key]) { ... }`
    unfoldable pub part : String → (N → C → Option C) → N → C → Option C
    part key f n c = elim (y.member n key) [ none ↦ some c | some v ↦ f v c ]

    -- Reading into a member of a larger struct.
    unfoldable pub within :
        {E : Type 0} → (E → C) → (C → E → E) → (N → C → Option C) → N → E → Option E
    within get put f n e = elim (f n (get e)) [ none ↦ none | some c ↦ some (put c e) ]
