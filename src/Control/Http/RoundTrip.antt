-- ===== src/Control/Http/RoundTrip.antt =====
-- A request that a client prints is the request that the server reads.
use mathlib.Core.Path.{subst}
use mathlib.Core.List.{append-nil}
use jetedge_agent.Prelude.{
  ℕ, suc, ◌+◌, ◌/◌, ◌%◌, ◌≤◌, ◌<◌, ◌^◌, ◌≡◌, refl, ◌∙◌, sym, ap, true, false, ltb, ◌==◌, List, [],
  ◌∷◌, ◌++◌, length, length-append, take, drop, none, some, arith, Bool-cases, inl, inr, ◌⊎◌, All,
  All-append,
}
use jetedge_agent.Prelude.Bytes.{cut, same_bytes, codes, is_digit, starts_with}
use jetedge_agent.Prelude.Cuts.{cut-byte, cut-prepend, prepend-some, cut-none}
use jetedge_agent.Control.Http.{
  HttpRequest, Headers, Parsed, crlf, get_or_post, parse_request_line, parse_headers, header_loop,
  add_line, parse_content_length, served_length, parse_request, length_loop, request_parts,
  starts_with_slash, split_query, put_header, find_header, lowercase, skip_spaces,
}
use jetedge_agent.Control.Http.Connection.{
  HttpServer, Verdict, to_string, print_decimal, check_head,
}
use jetedge_agent.Control.Http.UrlCode.{
  url_encode, percent_encode, hex_digit, is_unreserved, url_decode-url_encode,
}
use jetedge_agent.Control.Http.Decimal.{length_loop-to_string, to_string-IsDigitByte, IsDigitByte}

-- "Content-Length"
abbrev length_name : List ℕ
length_name = codes "Content-Length"

abbrev pub length_header : ℕ → List ℕ
length_header n = length_name ++ (58 ∷ 32 ∷ to_string n)

abbrev target_text : HttpRequest → List ℕ
target_text req = url_encode req.path ++ (63 ∷ req.query)

abbrev pub line_text : HttpRequest → List ℕ
line_text req = req.method ++ (32 ∷ (target_text req ++ (32 ∷ codes "HTTP/1.1")))

-- The head of a request: the request line, with the path percent-encoded and the query behind a
-- question mark, and the length of the body.
abbrev pub head_text : HttpRequest → List ℕ
head_text req = line_text req ++ (13 ∷ 10 ∷ length_header (length req.body))

abbrev Without : ℕ → List ℕ → Type 0
Without k s = All (λ c. (k == c) ≡ false) s

All-map_lem : (P Q : ℕ → Type 0) (s : List ℕ) → ((c : ℕ) → P c → Q c) → All P s → All Q s
All-map_lem P Q [] f h = tt
All-map_lem P Q (c ∷ s) f h = (f c h.0, All-map_lem P Q s f h.1)

digits-Without : (k n : ℕ) → is_digit k ≡ false → Without k (to_string n)
digits-Without k n h =
    All-map_lem IsDigitByte (λ c. (k == c) ≡ false) (to_string n) (λ c d. ground (arith, h, d))
      (to_string-IsDigitByte n)

append-cons : (s : List ℕ) (d : ℕ) → (c : ℕ) × (t : List ℕ) × (s ++ (d ∷ []) ≡ c ∷ t)
append-cons [] d = (d, [], refl)
append-cons (c ∷ s) d = (c, s ++ (d ∷ []), refl)

to_string-cons : (n : ℕ) → (c : ℕ) × (s : List ℕ) × (to_string n ≡ c ∷ s)
unfolding to_string print_decimal
to_string-cons n = elim (Bool-cases (ltb n 10)) [
  | inl e ↦ rw e (48 + n, [], refl)
  | inr e ↦ rw e (append-cons (print_decimal 19 (n / 10)) (48 + n % 10))
]

first_is_digit : (n c : ℕ) (s : List ℕ) → to_string n ≡ c ∷ s → is_digit c ≡ true
first_is_digit n c s h = (subst (All IsDigitByte) h (to_string-IsDigitByte n)).0

skip_spaces-digits : (n : ℕ) → skip_spaces (to_string n) ≡ to_string n
unfolding skip_spaces
skip_spaces-digits n =
    let digits = to_string-cons n in
    let digit = first_is_digit n digits.0 digits.1 digits.2 in
    let other : (digits.0 == 32) ≡ false = ground (arith, digit) in rw (digits.2, other) refl

header_loop-last :
    (rounds c : ℕ) (block : List ℕ) (out all : Headers)
    → cut crlf (c ∷ block) ≡ none
    → add_line (c ∷ block) out ≡ some all
    → header_loop (suc rounds) (c ∷ block) out ≡ Parsed.parsed all
unfolding header_loop
header_loop-last rounds c block out all e a = rw (header_loop, e, a) refl

length_header-cut : (n : ℕ) → cut crlf (length_header n) ≡ none
unfolding cut starts_with
length_header-cut n = rw (cut-none 13 (10 ∷ []) (to_string n) (digits-Without 13 n refl)) refl

length_header-add_line :
    (n : ℕ) → add_line (length_header n) [] ≡ some ((codes "content-length", to_string n) ∷ [])
unfolding add_line lowercase put_header skip_spaces cut starts_with
length_header-add_line n = ap (λ v. some ((codes "content-length", v) ∷ [])) (skip_spaces-digits n)

-- The header that gives the length.
parse_headers-length_header :
    (n : ℕ)
    → parse_headers (length_header n) ≡ Parsed.parsed ((codes "content-length", to_string n) ∷ [])
unfolding parse_headers
parse_headers-length_header n =
    header_loop-last (length (drop 1 (length_header n))) 67 (drop 1 (length_header n)) []
      ((codes "content-length", to_string n) ∷ []) (length_header-cut n) (length_header-add_line n)

served_length-length_header :
    (max_body_bytes n : ℕ)
    → n ≤ max_body_bytes
    → n < 2 ^ 63
    → served_length max_body_bytes ((codes "content-length", to_string n) ∷ []) ≡ some n
unfolding served_length parse_content_length find_header
served_length-length_header m n h k =
    let digits = to_string-cons n in
    let read = ap (length_loop 0) (sym digits.2) ∙ length_loop-to_string n k in
    let room : ltb m n ≡ false = ground arith in rw (digits.2, served_length, read, room) refl

hex_digit-differs : (k d : ℕ) → d < 16 → is_unreserved k ≡ false → (k == hex_digit d) ≡ false
unfolding hex_digit is_unreserved
hex_digit-differs k d h u = ground arith

-- An encoded path has no space, no question mark and no line break in it.
url_encode-Without :
    (k : ℕ) (s : List ℕ)
    → is_unreserved k ≡ false
    → (k == 37) ≡ false
    → All (λ c. c < 256) s
    → Without k (url_encode s)
unfolding url_encode percent_encode
url_encode-Without k [] u p h = tt
url_encode-Without k (c ∷ s) u p h = elim (Bool-cases (is_unreserved c)) [
  | inl e ↦ rw e (ground (arith, u, e), url_encode-Without k s u p h.1)
  | inr e ↦ rw e (
    p,
    (
      hex_digit-differs k (c / 16) (omega arith) u,
      (hex_digit-differs k (c % 16) (omega arith) u, url_encode-Without k s u p h.1),
    ),
  )
]

-- A request that a client may print: a method that is served, a path of bytes below a slash, a query
-- without spaces and line breaks, a body within the limit.
pub record IsRequest (max_body_bytes : ℕ) (req : HttpRequest) : Type 0 where
  pub method : (req.method ≡ codes "GET") ⊎ (req.method ≡ codes "POST")
  pub slash : starts_with_slash req.path ≡ true
  pub bytes : All (λ c. c < 256) req.path
  pub no_space : Without 32 req.query
  pub one_line : Without 13 req.query
  pub within : length req.body ≤ max_body_bytes
  pub fits : length req.body < 2 ^ 63

url_encode-starts_with_slash :
    (path : List ℕ) → starts_with_slash path ≡ true → starts_with_slash (url_encode path) ≡ true
unfolding url_encode percent_encode is_unreserved
url_encode-starts_with_slash [] h = h
url_encode-starts_with_slash (c ∷ path) h = let slash : c ≡ 47 = ground (arith, h) in rw slash refl

split_query-target :
    (path query : List ℕ)
    → All (λ c. c < 256) path
    → split_query (url_encode path ++ (63 ∷ query)) ≡ (url_encode path, query)
unfolding split_query is_unreserved
split_query-target path query b =
    rw (split_query, cut-byte 63 (url_encode path) query (url_encode-Without 63 path refl refl b))
      refl

request_parts-target :
    (m : ℕ) (method path query : List ℕ)
    → starts_with_slash path ≡ true
    → All (λ c. c < 256) path
    → request_parts (m ∷ method) (url_encode path ++ (63 ∷ query)) (codes "HTTP/1.1")
      ≡ some (m ∷ method, path, query)
unfolding request_parts
request_parts-target m method path query s b =
    let parts = split_query-target path query b in
    let slash = url_encode-starts_with_slash path s in
    rw (request_parts, parts, slash, url_decode-url_encode path b)
      (ap (λ (p : List ℕ × List ℕ). some (m ∷ method, path, p.1)) parts)

parse_request_line-text :
    (m : ℕ) (method path query : List ℕ)
    → Without 32 (m ∷ method)
    → Without 32 query
    → starts_with_slash path ≡ true
    → All (λ c. c < 256) path
    → parse_request_line
        ((m ∷ method) ++ (32 ∷ ((url_encode path ++ (63 ∷ query)) ++ (32 ∷ codes "HTTP/1.1"))))
      ≡ some (m ∷ method, path, query)
unfolding parse_request_line is_unreserved
parse_request_line-text m method path query w q s b =
    let target = url_encode path ++ (63 ∷ query) in
    let rest = target ++ (32 ∷ codes "HTTP/1.1") in
    let encoded = url_encode-Without 32 path refl refl b in
    let first = cut-byte 32 (m ∷ method) rest w in
    let second =
      cut-byte 32 target (codes "HTTP/1.1")
        (All-append (λ c. (32 == c) ≡ false) (url_encode path) (63 ∷ query) encoded (refl, q)) in
    rw (parse_request_line, first, second) (request_parts-target m method path query s b)

module _ (max_body_bytes : ℕ) (req : HttpRequest) (ok : IsRequest max_body_bytes req) where
  parse_request_line-line_text :
      parse_request_line (line_text req) ≡ some (req.method, req.path, req.query)
  parse_request_line-line_text = elim ok.method [
    | inl e ↦ rw e (
        parse_request_line-text 71 (codes "ET") req.path req.query (refl, (refl, (refl, tt)))
          ok.no_space ok.slash ok.bytes)
    | inr e ↦ rw e (
        parse_request_line-text 80 (codes "OST") req.path req.query
          (refl, (refl, (refl, (refl, tt)))) ok.no_space ok.slash ok.bytes)
  ]

  method-Without : Without 13 req.method
  method-Without = elim ok.method [
    | inl e ↦ rw e (refl, (refl, (refl, tt)))
    | inr e ↦ rw e (refl, (refl, (refl, (refl, tt))))
  ]

  get_or_post-method : get_or_post req.method ≡ true
  get_or_post-method = elim ok.method [ inl e ↦ rw e refl | inr e ↦ rw e refl ]

  pub not_options : same_bytes req.method (codes "OPTIONS") ≡ false
  not_options = elim ok.method [ inl e ↦ rw e refl | inr e ↦ rw e refl ]

  pub line_text-Without : Without 13 (line_text req)
  unfolding is_unreserved
  line_text-Without =
      let encoded = url_encode-Without 13 req.path refl refl ok.bytes in
      let target : Without 13 (target_text req) =
        All-append (λ c. (13 == c) ≡ false) (url_encode req.path) (63 ∷ req.query) encoded
          (refl, ok.one_line) in
      let version : Without 13 (codes " HTTP/1.1") =
        (refl, (refl, (refl, (refl, (refl, (refl, (refl, (refl, (refl, tt))))))))) in
      All-append (λ c. (13 == c) ≡ false) req.method (32 ∷ (target_text req ++ codes " HTTP/1.1"))
        method-Without
        (
          refl,
          All-append (λ c. (13 == c) ≡ false) (target_text req) (codes " HTTP/1.1") target version,
        )

  head_text-cut : cut crlf (head_text req) ≡ some (line_text req, length_header (length req.body))
  unfolding cut starts_with
  head_text-cut =
      cut-prepend 13 (10 ∷ []) (line_text req) (13 ∷ 10 ∷ length_header (length req.body))
        line_text-Without
      ∙ prepend-some (line_text req) [] (length_header (length req.body))
      ∙ ap (λ l. some (l, length_header (length req.body))) (append-nil (line_text req))

take-append : (s t : List ℕ) → take (length s) (s ++ t) ≡ s
take-append [] t = refl
take-append (c ∷ s) t = ap (λ r. c ∷ r) (take-append s t)

-- The head that a client prints for a request, and its body with whatever comes behind it, are
-- parsed to the request itself.
pub parse_request-head_text :
    (max_body_bytes : ℕ) (req : HttpRequest) (tail : List ℕ)
    → IsRequest max_body_bytes req
    → parse_request (head_text req) (req.body ++ tail) max_body_bytes ≡ some req
unfolding parse_request
parse_request-head_text m req tail ok =
    let n = length req.body in
    let served = served_length-length_header m n ok.within ok.fits in
    let room : ltb (length (req.body ++ tail)) n ≡ false =
      ground (arith, length-append req.body tail) in
    rw
      (
        parse_request,
        head_text-cut m req ok,
        parse_request_line-line_text m req ok,
        get_or_post-method m req ok,
        parse_headers-length_header n,
        served,
        room,
        take-append req.body tail,
      )
      refl

-- The checks that come before the body is read let the head through, with the body's length.
pub check_head-head_text :
    (server : HttpServer) (req : HttpRequest)
    → IsRequest server.max_body_bytes req
    → check_head server (head_text req) ≡ Verdict.proceed (length req.body)
unfolding check_head
check_head-head_text server req ok =
    let m = server.max_body_bytes in
    let n = length req.body in
    rw
      (
        check_head,
        head_text-cut m req ok,
        parse_request_line-line_text m req ok,
        not_options m req ok,
        get_or_post-method m req ok,
        parse_headers-length_header n,
        served_length-length_header m n ok.within ok.fits,
      )
      refl

-- Past its first line a head has no line break.
pub length_header-Without : (n : ℕ) → Without 13 (length_header n)
length_header-Without n =
    All-append (λ c. (13 == c) ≡ false) (codes "Content-Length: ") (to_string n)
      (
        refl,
        (
          refl,
          (
            refl,
            (
              refl,
              (
                refl,
                (
                  refl,
                  (
                    refl,
                    (refl, (refl, (refl, (refl, (refl, (refl, (refl, (refl, (refl, tt))))))))),
                  ),
                ),
              ),
            ),
          ),
        ),
      )
      (digits-Without 13 n refl)
