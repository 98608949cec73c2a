-- ===== src/Prelude/Doubles.antt =====
-- What the code uses of `float` and `double`: a type with comparisons and a few operations. No law is
-- assumed; a theorem that needs one takes it as a hypothesis.
use jetedge_agent.Prelude.Tests.{leb as leb_ℕ, ltb as ltb_ℕ}
use Prim.Native.Nat.{ℕ, ◌+◌, ◌/◌}
use mathlib.Core.Bool.{Bool}

-- `a >= b` is `leb b a`: the two agree in IEEE arithmetic, also at NaN.
pub record Doubles : Type 1 where
  pub Double : Type 0
  pub zero_ : Double
  pub leb : Double → Double → Bool
  pub ltb : Double → Double → Bool
  pub add : Double → Double → Double
  pub half : Double → Double

-- Counting in whole units, for runs on concrete input.
abbrev pub whole : Doubles
whole = record { Double = ℕ; zero_ = 0; leb = leb_ℕ; ltb = ltb_ℕ; add = ◌+◌; half = λ n. n / 2 }
