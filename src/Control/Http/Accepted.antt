-- ===== src/Control/Http/Accepted.antt =====
-- What the parsers return: the header loop always does, and a request that they let through is one
-- that the handlers may be given.
use mathlib.Core.Path.{subst}
use jetedge_agent.Prelude.{
  ℕ, zero, suc, ◌≤◌, ◌≡◌, refl, ap, true, ltb, List, [], ◌∷◌, length, take, Option, none, some,
  arith, Bool-cases, Option-cases, inl, inr, ◌⊎◌,
}
use jetedge_agent.Prelude.Bytes.{cut}
use jetedge_agent.Prelude.Int.{ℤ-cases}
use jetedge_agent.Prelude.Cuts.{cut-lengths}
use jetedge_agent.Control.Http.{
  HttpRequest, Headers, Parsed, crlf, get_or_post, parse_request_line, parse_headers, header_loop,
  add_line, parse_content_length, served_length, parse_request, request_parts, starts_with_slash,
  split_query, is_version, url_decode, push_byte, plain,
}
use jetedge_agent.Control.Http.UrlCode.{url_decode-plain}

-- The loop has come to its end.
abbrev Ended : Parsed → Type 0
Ended Parsed.unfinished = ⊥
Ended Parsed.malformed = Unit
Ended (Parsed.parsed hs) = Unit

header_loop-Ended :
    (rounds : ℕ) (block : List ℕ) (out : Headers)
    → length block ≤ rounds
    → Ended (header_loop rounds block out)
unfolding header_loop
header_loop-Ended rounds [] out h = tt
header_loop-Ended zero (c ∷ block) out h = ground arith
header_loop-Ended (suc rounds) (c ∷ block) out h = elim (Option-cases (cut crlf (c ∷ block))) [
  | inl e ↦ elim (Option-cases (add_line (c ∷ block) out)) [
    | inl a ↦ rw (header_loop, e, a) tt
    | inr (all, a) ↦ rw (header_loop, e, a) tt
  ]
  | inr (([], rest), e) ↦
      let size = cut-lengths crlf (c ∷ block) [] rest e in
      rw (header_loop, e) (header_loop-Ended rounds rest out (omega (arith, size)))
  | inr ((l ∷ line, rest), e) ↦ elim (Option-cases (add_line (l ∷ line) out)) [
    | inl a ↦ rw (header_loop, e, a) tt
    | inr (all, a) ↦
        let size = cut-lengths crlf (c ∷ block) (l ∷ line) rest e in
        rw (header_loop, e, a) (header_loop-Ended rounds rest all (omega (arith, size)))
  ]
]

Ended-cases :
    (p : Parsed) → Ended p → (p ≡ Parsed.malformed) ⊎ ((hs : Headers) × (p ≡ Parsed.parsed hs))
Ended-cases Parsed.unfinished h = elim h [ ]
Ended-cases Parsed.malformed h = inl refl
Ended-cases (Parsed.parsed hs) h = inr (hs, refl)

-- As many rounds as the block has bytes are enough for the header loop.
pub parse_headers_ends :
    (block : List ℕ)
    → (parse_headers block ≡ Parsed.malformed)
      ⊎ ((hs : Headers) × (parse_headers block ≡ Parsed.parsed hs))
unfolding parse_headers
parse_headers_ends block =
    Ended-cases (parse_headers block) (header_loop-Ended (length block) block [] (omega arith))

-- What is promised of a request.
abbrev pub IsServed : ℕ → List ℕ → Option HttpRequest → Type 0
IsServed max_body_bytes body none = Unit
IsServed max_body_bytes body (some req) =
    (get_or_post req.method ≡ true)
    × (starts_with_slash req.path ≡ true)
    × (length req.body ≤ max_body_bytes)
    × (length req.body ≤ length body)

length-take : (n : ℕ) (s : List ℕ) → n ≤ length s → length (take n s) ≡ n
length-take zero s h = refl
length-take (suc n) [] h = ground arith
length-take (suc n) (c ∷ s) h = ap suc (length-take n s (omega arith))

abbrev AtMost : ℕ → Option ℕ → Type 0
AtMost m none = Unit
AtMost m (some n) = n ≤ m

served_length-AtMost : (m : ℕ) (hs : Headers) → AtMost m (served_length m hs)
unfolding served_length
served_length-AtMost m hs = elim (ℤ-cases (parse_content_length hs)) [
  | inl (n, e) ↦ elim (Bool-cases (ltb m n)) [
    | inl big ↦ rw (served_length, e, big) tt
    | inr small ↦ rw (served_length, e, small) (ground (arith, small))
  ]
  | inr (n, e) ↦ rw (served_length, e) tt
]

abbrev SlashPath : Option (List ℕ) → Type 0
SlashPath none = Unit
SlashPath (some path) = starts_with_slash path ≡ true

push_byte-SlashPath : (o : Option (List ℕ)) → SlashPath (push_byte 47 o)
push_byte-SlashPath none = tt
push_byte-SlashPath (some s) = refl

-- Decoding keeps the slash at the front.
url_decode-SlashPath :
    (target : List ℕ) → starts_with_slash target ≡ true → SlashPath (url_decode target)
unfolding plain
url_decode-SlashPath [] s = ground (arith, s)
url_decode-SlashPath (c ∷ target) s =
    let slash : c ≡ 47 = ground (arith, s) in
    rw (slash, url_decode-plain 47 target refl) (push_byte-SlashPath (url_decode target))

abbrev SlashLine : Option (List ℕ × List ℕ × List ℕ) → Type 0
SlashLine none = Unit
SlashLine (some (method, path, query)) = starts_with_slash path ≡ true

request_parts-SlashLine :
    (method target version : List ℕ) → SlashLine (request_parts method target version)
unfolding request_parts
request_parts-SlashLine [] target version = tt
request_parts-SlashLine (m ∷ method) target version =
    let bare = (split_query target).0 in
    elim (Bool-cases (is_version version)) [
      | inr v ↦ rw v tt
      | inl v ↦ elim (Bool-cases (starts_with_slash bare)) [
        | inr s ↦ rw (v, s) tt
        | inl s ↦ elim (Option-cases (url_decode bare)) [
          | inl d ↦ rw (v, s, d) tt
          | inr (path, d) ↦ rw (v, s, d) (subst SlashPath d (url_decode-SlashPath bare s))
        ]
      ]
    ]

parse_request_line-SlashLine : (line : List ℕ) → SlashLine (parse_request_line line)
unfolding parse_request_line
parse_request_line-SlashLine line = elim (Option-cases (cut (32 ∷ []) line)) [
  | inl e ↦ rw (parse_request_line, e) tt
  | inr ((method, rest), e) ↦ elim (Option-cases (cut (32 ∷ []) rest)) [
    | inl f ↦ rw (parse_request_line, e, f) tt
    | inr ((target, version), f) ↦
        rw (parse_request_line, e, f) (request_parts-SlashLine method target version)
  ]
]

-- A request that `parse_request` lets through has the method GET or POST, a path that begins with a
-- slash, and a body that is within the limit and no longer than what the client sent.
pub parse_request-IsServed :
    (head body : List ℕ) (max_body_bytes : ℕ)
    → IsServed max_body_bytes body (parse_request head body max_body_bytes)
unfolding parse_request
parse_request-IsServed head body m = elim (Option-cases (cut crlf head)) [
  | inl e ↦ rw (parse_request, e) tt
  | inr ((first, block), e) ↦ elim (Option-cases (parse_request_line first)) [
    | inl l ↦ rw (parse_request, e, l) tt
    | inr ((method, path, query), l) ↦ elim (Bool-cases (get_or_post method)) [
      | inr g ↦ rw (parse_request, e, l, g) tt
      | inl g ↦ elim (parse_headers_ends block) [
        | inl p ↦ rw (parse_request, e, l, g, p) tt
        | inr (hs, p) ↦ elim (Option-cases (served_length m hs)) [
          | inl s ↦ rw (parse_request, e, l, g, p, s) tt
          | inr (n, s) ↦ elim (Bool-cases (ltb (length body) n)) [
            | inl short ↦ rw (parse_request, e, l, g, p, s, short) tt
            | inr full ↦
                let slash = subst SlashLine l (parse_request_line-SlashLine first) in
                let bound : n ≤ m = subst (AtMost m) s (served_length-AtMost m hs) in
                let there : n ≤ length body = ground (arith, full) in
                rw (parse_request, e, l, g, p, s, full)
                  (rw (length-take n body there) (g, slash, bound, there))
          ]
        ]
      ]
    ]
  ]
]
