-- ===== src/Llm/Prompts/Base64.antt =====
-- Decoding a base64 payload gives the bytes back.
use jetedge_agent.Prelude.{
  dec_lt, ℕ, zero, suc, ◌+◌, ◌-◌, ◌*◌, ◌/◌, ◌%◌, ◌<◌, ◌≡◌, refl, ◌∙◌, ap, Bool, true, false, ◌&&◌,
  leb, not, ◌==◌, if◌then◌else◌, List, [], ◌∷◌, ◌++◌, All, arith,
}
use jetedge_agent.Llm.Prompts.{base64_encode, quad, char_at}

-- The digit that a character of RFC 4648 stands for.
unfoldable pub value : ℕ → ℕ
value c =
    if leb 65 c && leb c 90
    then c - 65
    else if leb 97 c && leb c 122
    then c - 71
    else if leb 48 c && leb c 57
    then c + 4
    else if c == 43
    then 62
    else 63

unfoldable pub bytes : ℕ → ℕ → ℕ → ℕ → List ℕ
bytes w x y z =
    if y == 61
    then (value w * 4 + value x / 16) ∷ []
    else if z == 61
    then (value w * 4 + value x / 16) ∷ (value x % 16 * 16 + value y / 4) ∷ []
    else (value w * 4 + value x / 16)
      ∷ (value x % 16 * 16 + value y / 4)
      ∷ (value y % 4 * 64 + value z)
      ∷ []

-- The decoder of RFC 4648, section 4.
unfoldable pub base64_decode : List ℕ → List ℕ
unfolding bytes value
base64_decode (w ∷ x ∷ y ∷ z ∷ s) = bytes w x y z ++ base64_decode s
base64_decode [] = []
base64_decode (w ∷ []) = []
base64_decode (w ∷ x ∷ []) = []
base64_decode (w ∷ x ∷ y ∷ []) = []

-- A character of the alphabet: its digit, and that it is no padding.
abbrev pub holds : ℕ → Bool
holds k = value (char_at k) == k && not (char_at k == 61)

abbrev all_below : ℕ → Bool
all_below zero = true
all_below (suc n) = holds n && all_below n

all_below-lt : (n k : ℕ) → all_below n ≡ true → k < n → holds k ≡ true
all_below-lt zero k h l = ground arith
all_below-lt (suc n) k h l = elim (dec_lt k n) [
  | yes m ↦ all_below-lt n k (ground (arith, h)) m
  | no m ↦ let same : k ≡ n = omega arith in rw same (ground (arith, h))
]

abbrev IsDigit : ℕ → Type 0
IsDigit k = (value (char_at k) ≡ k) × ((char_at k == 61) ≡ false)

all_below_64 : all_below 64 ≡ true
unfolding value char_at
all_below_64 = refl

char_at-IsDigit : (k : ℕ) → k < 64 → IsDigit k
char_at-IsDigit k l =
    let h = all_below-lt 64 k all_below_64 l in (ground (arith, h), ground (arith, h))

two_pads : (a : ℕ) → a < 256 → base64_decode (quad a 0 0 false false []) ≡ a ∷ []
unfolding quad base64_decode
two_pads a l =
    let w = char_at-IsDigit (a / 4 % 64) (omega arith) in
    let x = char_at-IsDigit ((a * 16 + 0 / 16) % 64) (omega arith) in
    rw (w.0, x.0) (ap (λ v. v ∷ []) (omega arith))

first_byte : (a b : ℕ) → a < 256 → b < 256 → a / 4 % 64 * 4 + (a * 16 + b / 16) % 64 / 16 ≡ a
first_byte a b l m = omega arith

second_byte :
    (a b c : ℕ)
    → b < 256
    → c < 256
    → (a * 16 + b / 16) % 64 % 16 * 16 + (b * 4 + c / 64) % 64 / 4 ≡ b
second_byte a b c m n = omega arith

third_byte : (b c : ℕ) → c < 256 → (b * 4 + c / 64) % 64 % 4 * 64 + c % 64 ≡ c
third_byte b c n = omega arith

one_pad : (a b : ℕ) → a < 256 → b < 256 → base64_decode (quad a b 0 true false []) ≡ a ∷ b ∷ []
unfolding quad base64_decode
one_pad a b l m =
    let w = char_at-IsDigit (a / 4 % 64) (omega arith) in
    let x = char_at-IsDigit ((a * 16 + b / 16) % 64) (omega arith) in
    let y = char_at-IsDigit ((b * 4 + 0 / 64) % 64) (omega arith) in
    rw (y.1, w.0, x.0, y.0, first_byte a b l m, second_byte a b 0 m (omega arith)) refl

no_pad :
    (a b c : ℕ) (out : List ℕ)
    → a < 256
    → b < 256
    → c < 256
    → base64_decode (quad a b c true true out) ≡ a ∷ b ∷ c ∷ base64_decode out
unfolding quad base64_decode
no_pad a b c out l m n =
    let w = char_at-IsDigit (a / 4 % 64) (omega arith) in
    let x = char_at-IsDigit ((a * 16 + b / 16) % 64) (omega arith) in
    let y = char_at-IsDigit ((b * 4 + c / 64) % 64) (omega arith) in
    let z = char_at-IsDigit (c % 64) (omega arith) in
    rw (y.1, z.1, w.0, x.0, y.0, z.0, first_byte a b l m, second_byte a b c m n, third_byte b c n)
      refl

-- A payload of bytes that is encoded in base64 is decoded to itself.
pub base64_decode-base64_encode :
    (s : List ℕ) → All (λ c. c < 256) s → base64_decode (base64_encode s) ≡ s
unfolding base64_encode base64_decode
base64_decode-base64_encode [] h = refl
base64_decode-base64_encode (a ∷ []) h = two_pads a h.0
base64_decode-base64_encode (a ∷ b ∷ []) h = one_pad a b h.0 h.1.0
base64_decode-base64_encode (a ∷ b ∷ c ∷ s) h =
    no_pad a b c (base64_encode s) h.0 h.1.0 h.1.1.0
    ∙ ap (λ t. a ∷ b ∷ c ∷ t) (base64_decode-base64_encode s h.1.1.1)
