-- ===== src/Control/Http/Decimal.antt =====
-- A length that is printed in decimal is read back.
use mathlib.Core.List.{append_assoc, append-nil}
use jetedge_agent.Prelude.{
  ℕ, zero, suc, ◌+◌, ◌-◌, ◌*◌, ◌/◌, ◌%◌, ◌^◌, ◌<◌, ◌≡◌, refl, ◌∙◌, sym, ap, true, false, ltb, leb,
  List, [], ◌∷◌, ◌++◌, arith, Bool-cases, inl, inr, All, All-append,
}
use jetedge_agent.Prelude.Bytes.{is_digit}
use jetedge_agent.Prelude.Int.{pos}
use jetedge_agent.Prelude.Words.{u64_mod}
use jetedge_agent.Control.Http.{length_loop}
use jetedge_agent.Control.Http.Connection.{print_decimal, to_string}

-- A digit is read by one round of the loop.
length_loop-digit :
    (v d : ℕ) (s : List ℕ)
    → d < 10
    → v * 10 + d < 2 ^ 63
    → length_loop v ((48 + d) ∷ s) ≡ length_loop (v * 10 + d) s
unfolding length_loop
length_loop-digit v d s h k =
    let digit : is_digit (48 + d) ≡ true = ground arith in
    let exact : (v * 10 + (48 + d - 48)) % u64_mod ≡ v * 10 + d = omega arith in
    let small : leb (2 ^ 63) (v * 10 + d) ≡ false = ground arith in
    rw (length_loop, digit, exact, small) refl

abbrev ten_to : ℕ → ℕ
ten_to zero = 1
ten_to (suc k) = ten_to k * 10

-- The digits of a number, and whatever follows them.
length_loop-print_decimal :
    (digits n : ℕ) (s : List ℕ)
    → n < ten_to digits
    → n < 2 ^ 63
    → length_loop 0 (print_decimal digits n ++ s) ≡ length_loop n s
unfolding print_decimal
length_loop-print_decimal zero n s h k = let none_left : n ≡ 0 = omega arith in rw none_left refl
length_loop-print_decimal (suc digits) n s h k = elim (Bool-cases (ltb n 10)) [
  | inl e ↦
      let same : 0 * 10 + n ≡ n = omega arith in
      rw e (length_loop-digit 0 n s (ground (arith, e)) (omega arith) ∙ rw same refl)
  | inr e ↦
      let last = 48 + n % 10 in
      let whole : n / 10 * 10 + n % 10 ≡ n = omega arith in
      let front =
        length_loop-print_decimal digits (n / 10) (last ∷ s) (omega arith) (omega arith) in
      rw e (
        ap (length_loop 0) (append_assoc (print_decimal digits (n / 10)) (last ∷ []) s)
        ∙ front
        ∙ length_loop-digit (n / 10) (n % 10) s (omega arith) (omega arith)
        ∙ rw whole refl)
]

-- The number that `std::to_string` prints is the number that the server reads from the header, if it
-- is one of `int64_t`.
pub length_loop-to_string : (n : ℕ) → n < 2 ^ 63 → length_loop 0 (to_string n) ≡ pos n
unfolding to_string length_loop
length_loop-to_string n h =
    ap (length_loop 0) (sym (append-nil (to_string n)))
    ∙ length_loop-print_decimal 20 n [] (omega arith) h

-- Digits, and nothing else.
abbrev pub IsDigitByte : ℕ → Type 0
IsDigitByte c = is_digit c ≡ true

print_decimal-IsDigitByte : (digits n : ℕ) → All IsDigitByte (print_decimal digits n)
unfolding print_decimal
print_decimal-IsDigitByte zero n = tt
print_decimal-IsDigitByte (suc digits) n = elim (Bool-cases (ltb n 10)) [
  | inl e ↦ rw e (ground (arith, e), tt)
  | inr e ↦ rw e (
      All-append IsDigitByte (print_decimal digits (n / 10)) ((48 + n % 10) ∷ [])
        (print_decimal-IsDigitByte digits (n / 10)) (ground arith, tt))
]

pub to_string-IsDigitByte : (n : ℕ) → All IsDigitByte (to_string n)
unfolding to_string
to_string-IsDigitByte n = print_decimal-IsDigitByte 20 n
