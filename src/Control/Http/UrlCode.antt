-- ===== src/Control/Http/UrlCode.antt =====
-- Percent-decoding undoes percent-encoding.
use jetedge_agent.Prelude.{
  ℕ, ◌+◌, ◌*◌, ◌/◌, ◌%◌, ◌<◌, ◌≡◌, refl, ◌∙◌, Bool, true, false, ◌&&◌, ◌||◌, ltb, leb, ◌==◌,
  if◌then◌else◌, List, [], ◌∷◌, some, All, arith, Bool-cases, inl, inr,
}
use jetedge_agent.Control.Http.{hex, hex_byte, push_byte, plain, url_decode}

unfoldable pub hex_digit : ℕ → ℕ
hex_digit d = if ltb d 10 then 48 + d else 55 + d

-- The bytes that need no escape in a path.
unfoldable pub is_unreserved : ℕ → Bool
is_unreserved c =
    ((leb 48 c && leb c 57) || (leb 65 c && leb c 90)) || ((leb 97 c && leb c 122) || (c == 47))

unfoldable pub percent_encode : ℕ → List ℕ → List ℕ
unfolding hex_digit is_unreserved
percent_encode c rest =
    if is_unreserved c then c ∷ rest else 37 ∷ hex_digit (c / 16) ∷ hex_digit (c % 16) ∷ rest

unfoldable pub url_encode : List ℕ → List ℕ
unfolding percent_encode
url_encode [] = []
url_encode (c ∷ s) = percent_encode c (url_encode s)

hex-hex_digit : (d : ℕ) → d < 16 → hex (hex_digit d) ≡ some d
unfolding hex hex_digit
hex-hex_digit d h = ground arith

hex_byte-hex_digit : (c : ℕ) → c < 256 → hex_byte (hex_digit (c / 16)) (hex_digit (c % 16)) ≡ some c
unfolding hex_byte
hex_byte-hex_digit c h =
    let high = hex-hex_digit (c / 16) (omega arith) in
    let low = hex-hex_digit (c % 16) (omega arith) in
    let whole : c / 16 * 16 + c % 16 ≡ c = omega arith in rw (hex_byte, high, low, whole) refl

pub url_decode-plain :
    (c : ℕ) (s : List ℕ)
    → (c == 37) ≡ false
    → url_decode (c ∷ s) ≡ push_byte (plain c) (url_decode s)
unfolding url_decode
url_decode-plain c [] h = rw (url_decode, h) refl
url_decode-plain c (a ∷ []) h = rw (url_decode, h) refl
url_decode-plain c (a ∷ b ∷ s) h = rw (url_decode, h) refl

url_decode-escape :
    (a b v : ℕ) (s : List ℕ)
    → hex_byte a b ≡ some v
    → url_decode (37 ∷ a ∷ b ∷ s) ≡ push_byte v (url_decode s)
unfolding url_decode
url_decode-escape a b v s h = rw (url_decode, h) refl

is_unreserved-plain : (c : ℕ) → is_unreserved c ≡ true → ((c == 37) ≡ false) × (plain c ≡ c)
unfolding is_unreserved plain
is_unreserved-plain c h = ground arith

-- A path of bytes that is percent-encoded, with letters, digits and slashes left as they are and
-- every other byte as two hexadecimal digits, is decoded to the path itself.
pub url_decode-url_encode : (s : List ℕ) → All (λ c. c < 256) s → url_decode (url_encode s) ≡ some s
unfolding url_encode url_decode percent_encode
url_decode-url_encode [] h = refl
url_decode-url_encode (c ∷ s) h = elim (Bool-cases (is_unreserved c)) [
  | inl e ↦
      let kept = is_unreserved-plain c e in
      rw e
        (url_decode-plain c (url_encode s) kept.0 ∙ rw (kept.1, url_decode-url_encode s h.1) refl)
  | inr e ↦
      let escape =
        url_decode-escape (hex_digit (c / 16)) (hex_digit (c % 16)) c (url_encode s)
          (hex_byte-hex_digit c h.0) in
      rw e (escape ∙ rw (url_decode-url_encode s h.1) refl)
]
