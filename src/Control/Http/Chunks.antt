-- ===== src/Control/Http/Chunks.antt =====
-- How the bytes of a request come in does not matter.
use mathlib.Core.List.{append_assoc, append-nil}
use jetedge_agent.Prelude.{
  ℕ, zero, suc, ◌≤◌, ◌≡◌, refl, ◌∙◌, sym, ap, false, ltb, leb, if◌then◌else◌, List, [], ◌∷◌, ◌++◌,
  length, length-append, take, Option, none, some, arith, Bool-cases, Option-cases, inl, inr, ◌⊎◌,
}
use jetedge_agent.Prelude.Bytes.{cut, same_bytes, codes}
use jetedge_agent.Prelude.Cuts.{cut-append}
use jetedge_agent.Control.Http.{
  HttpRequest, Headers, Parsed, crlf, get_or_post, parse_request_line, parse_headers, served_length,
  parse_request,
}
use jetedge_agent.Control.Http.Connection.{
  HttpServer, Reply, Head, Verdict, max_head_bytes, blank_line, read_head, read_body, check_head,
  run_handler, handle_connection,
}

abbrev pub joined : List (List ℕ) → List ℕ
joined [] = []
joined (chunk ∷ chunks) = chunk ++ joined chunks

-- The reply to the bytes of a connection, all read before they are looked at.
unfoldable pub reply_to : HttpServer → List ℕ → Reply
unfolding cut check_head run_handler
reply_to server bytes = elim (cut blank_line bytes) [
  | none ↦ Reply.closed
  | some (head, body) ↦ elim (check_head server head) [
    | Verdict.reject reply ↦ reply
    | Verdict.proceed n ↦ Reply.answered (run_handler server head body)
  ]
]

-- The head is found in the first chunks that hold it.
abbrev HeadOf : List ℕ → List (List ℕ) → Type 0
HeadOf buffer chunks =
    (((cut blank_line (buffer ++ joined chunks) ≡ none) × (read_head buffer chunks ≡ Head.gone))
      ⊎ ((head : List ℕ) × (body : List ℕ) × (rest : List (List ℕ)) × (cut blank_line
              (buffer ++ joined chunks)
            ≡ some (head, body ++ joined rest))
          × (read_head buffer chunks ≡ Head.found head body rest)))

fits :
    (buffer : List ℕ) (s : List ℕ)
    → length (buffer ++ s) ≤ max_head_bytes
    → ltb max_head_bytes (length buffer) ≡ false
fits buffer s h = ground (arith, length-append buffer s)

read_head-HeadOf :
    (chunks : List (List ℕ)) (buffer : List ℕ)
    → length (buffer ++ joined chunks) ≤ max_head_bytes
    → cut blank_line buffer ≡ none
    → HeadOf buffer chunks
unfolding read_head
read_head-HeadOf [] buffer h e =
    inl (ap (cut blank_line) (append-nil buffer) ∙ e, rw (fits buffer [] h) refl)
read_head-HeadOf (chunk ∷ chunks) buffer h e =
    let small = fits buffer (chunk ++ joined chunks) h in
    let assoc = append_assoc buffer chunk (joined chunks) in
    elim (Option-cases (cut blank_line (buffer ++ chunk))) [
      | inl n ↦ elim (read_head-HeadOf chunks (buffer ++ chunk) (rw assoc h) n) [
        | inl (c, g) ↦ inl (rw (sym assoc) c, rw (read_head, small, n) g)
        | inr (head, body, rest, c, g) ↦
            inr (head, body, rest, rw (sym assoc) c, rw (read_head, small, n) g)
      ]
      | inr ((head, body), m) ↦ inr (
        head,
        body,
        chunks,
        rw (sym assoc) (cut-append blank_line (buffer ++ chunk) (joined chunks) head body m),
        rw (read_head, small, m) refl,
      )
    ]

take-append : (n : ℕ) (s t : List ℕ) → n ≤ length s → take n (s ++ t) ≡ take n s
take-append zero s t h = refl
take-append (suc n) [] t h = ground arith
take-append (suc n) (c ∷ s) t h = ap (λ r. c ∷ r) (take-append n s t (omega arith))

-- What the loop leaves unread is nothing, or lies behind the bytes that were asked for.
read_body-rest :
    (n : ℕ) (chunks : List (List ℕ)) (body : List ℕ)
    → (tail : List ℕ) × (body ++ joined chunks ≡ read_body n body chunks ++ tail)
      × ((n ≤ length (read_body n body chunks)) ⊎ (tail ≡ []))
unfolding read_body
read_body-rest n [] body = ([], refl, inr refl)
read_body-rest n (chunk ∷ chunks) body = elim (Bool-cases (leb n (length body))) [
  | inl e ↦ rw e (chunk ++ joined chunks, refl, inl (ground (arith, e)))
  | inr e ↦
      let rest = read_body-rest n chunks (body ++ chunk) in
      rw e (rest.0, sym (append_assoc body chunk (joined chunks)) ∙ rest.1, rest.2)
]

-- The request that a head with a body of `n` bytes stands for.
abbrev body_request : ℕ → (List ℕ × List ℕ × List ℕ) → List ℕ → Option HttpRequest
body_request n line body =
    if ltb (length body) n
    then none
    else some (record { method = line.0; path = line.1; query = line.2; body = take n body })

Verdict-cases :
    (v : Verdict)
    → (((reply : Reply) × (v ≡ Verdict.reject reply)) ⊎ ((n : ℕ) × (v ≡ Verdict.proceed n)))
Verdict-cases (Verdict.reject reply) = inl (reply, refl)
Verdict-cases (Verdict.proceed n) = inr (n, refl)

Parsed-cases :
    (p : Parsed)
    → ((p ≡ Parsed.unfinished)
        ⊎ ((p ≡ Parsed.malformed) ⊎ ((hs : Headers) × (p ≡ Parsed.parsed hs))))
Parsed-cases Parsed.unfinished = inl refl
Parsed-cases Parsed.malformed = inr (inl refl)
Parsed-cases (Parsed.parsed hs) = inr (inr (hs, refl))

-- Once the head has been accepted, the parser of the whole request agrees with the checks.
pub check_head-parse_request :
    (server : HttpServer) (head : List ℕ) (n : ℕ)
    → check_head server head ≡ Verdict.proceed n
    → (line : List ℕ × List ℕ × List ℕ) × ((body : List ℕ)
        → parse_request head body server.max_body_bytes ≡ body_request n line body)
unfolding check_head parse_request
check_head-parse_request server head n h = elim (Option-cases (cut crlf head)) [
  | inl c ↦ let absurd : ⊥ = ground (arith, c, h) in elim absurd [ ]
  | inr ((first, block), c) ↦ elim (Option-cases (parse_request_line first)) [
    | inl l ↦ let absurd : ⊥ = ground (arith, c, l, h) in elim absurd [ ]
    | inr ((method, path, query), l) ↦ elim (Bool-cases (same_bytes method (codes "OPTIONS"))) [
      | inl o ↦ let absurd : ⊥ = ground (arith, c, l, o, h) in elim absurd [ ]
      | inr o ↦ elim (Bool-cases (get_or_post method)) [
        | inr g ↦ let absurd : ⊥ = ground (arith, c, l, o, g, h) in elim absurd [ ]
        | inl g ↦ elim (Parsed-cases (parse_headers block)) [
          | inl p ↦ let absurd : ⊥ = ground (arith, c, l, o, g, p, h) in elim absurd [ ]
          | inr (inl p) ↦ let absurd : ⊥ = ground (arith, c, l, o, g, p, h) in elim absurd [ ]
          | inr (inr (headers, p)) ↦
              elim (Option-cases (served_length server.max_body_bytes headers)) [
                | inl s ↦ let absurd : ⊥ = ground (arith, c, l, o, g, p, s, h) in elim absurd [ ]
                | inr (k, s) ↦
                    let same : k ≡ n = ground (arith, c, l, o, g, p, s, h) in
                    ((method, path, query), λ body. rw (parse_request, c, l, g, p, s, same) refl)
              ]
        ]
      ]
    ]
  ]
]

-- A body that is long enough may have more bytes behind it.
run_handler-rest :
    (server : HttpServer) (head body tail : List ℕ) (n : ℕ)
    → check_head server head ≡ Verdict.proceed n
    → (n ≤ length body) ⊎ (tail ≡ [])
    → run_handler server head (body ++ tail) ≡ run_handler server head body
unfolding run_handler
run_handler-rest server head body tail n h (inr e) =
    ap (run_handler server head) (ap (λ t. body ++ t) e ∙ append-nil body)
run_handler-rest server head body tail n h (inl e) =
    let request = check_head-parse_request server head n h in
    let long = take-append n body tail e in
    let enough : ltb (length (body ++ tail)) n ≡ false = ground (arith, length-append body tail) in
    let enough_short : ltb (length body) n ≡ false = ground arith in
    let same : parse_request head (body ++ tail) server.max_body_bytes
        ≡ parse_request head body server.max_body_bytes =
      request.1 (body ++ tail) ∙ rw (enough, enough_short, long) refl ∙ sym (request.1 body) in
    rw (run_handler, same) refl

-- A client's bytes get the same reply however `recv` cuts them into chunks, as long as they are no
-- more than the limit on the head, which is tested between two calls: the reply is that to the bytes
-- as a whole.
pub handle_connection-reply_to :
    (server : HttpServer) (chunks : List (List ℕ))
    → length (joined chunks) ≤ max_head_bytes
    → handle_connection server chunks ≡ reply_to server (joined chunks)
unfolding handle_connection reply_to
handle_connection-reply_to server chunks h = elim (read_head-HeadOf chunks [] h refl) [
  | inl (c, g) ↦ rw (handle_connection, g, reply_to, c) refl
  | inr (head, body, rest, c, g) ↦ elim (Verdict-cases (check_head server head)) [
    | inl (reply, v) ↦ rw (handle_connection, g, reply_to, c, v) refl
    | inr (n, v) ↦
        let split = read_body-rest n rest body in
        let same = run_handler-rest server head (read_body n body rest) split.0 n v split.2 in
        rw (handle_connection, g, reply_to, c, v, split.1, same) refl
  ]
]
