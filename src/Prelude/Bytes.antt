-- ===== src/Prelude/Bytes.antt =====
-- Texts as lists of bytes: what `std::string` offers on them.
use Prim.Native.Char.{code}
use Prim.Native.String.{String}
use Prim.Native.Nat.{ℕ}
use mathlib.Core.Bool.{Bool, true, false, ◌&&◌}
use mathlib.Core.Option.{Option, none, some}
use mathlib.Core.List.{List, [], ◌∷◌}
use jetedge_agent.Prelude.Tests.{leb, ◌==◌, if◌then◌else◌}
use jetedge_agent.Prelude.Lists.{length, drop}

-- The bytes of an ASCII text.
abbrev pub codes : String → List ℕ
codes String.[] = []
codes (String.◌∷◌ c s) = code c ∷ codes s

abbrev pub is_digit : ℕ → Bool
is_digit c = leb 48 c && leb c 57

abbrev pub same_bytes : List ℕ → List ℕ → Bool
same_bytes [] [] = true
same_bytes [] (y ∷ ys) = false
same_bytes (x ∷ xs) [] = false
same_bytes (x ∷ xs) (y ∷ ys) = x == y && same_bytes xs ys

unfoldable pub starts_with : List ℕ → List ℕ → Bool
starts_with [] s = true
starts_with (k ∷ ks) [] = false
starts_with (k ∷ ks) (c ∷ s) = k == c && starts_with ks s

-- One more byte before a cut.
abbrev pub before_cut : ℕ → Option (List ℕ × List ℕ) → Option (List ℕ × List ℕ)
before_cut c none = none
before_cut c (some (s, t)) = some (c ∷ s, t)

-- `find(key)` of a key that is not empty, as the two texts that callers take from it by `substr`:
-- what stands before the first match, and what follows the match.
unfoldable pub cut : List ℕ → List ℕ → Option (List ℕ × List ℕ)
unfolding starts_with
cut key [] = none
cut key (c ∷ s) =
    let rest = cut key s in
    if starts_with key (c ∷ s) then some ([], drop (length key) (c ∷ s)) else before_cut c rest
