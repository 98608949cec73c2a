-- ===== src/Control/Http/EndToEnd.antt =====
-- From the bytes of a client to the reply of the handler.
use mathlib.Core.List.{append-nil, append_assoc}
use jetedge_agent.Prelude.{
  ℕ, ◌≤◌, ◌≡◌, refl, ◌∙◌, sym, ap, List, [], ◌∷◌, ◌++◌, length, Option, some,
}
use jetedge_agent.Prelude.Bytes.{cut, before_cut, starts_with}
use jetedge_agent.Prelude.Cuts.{cut-prepend, prepend, prepend-some}
use jetedge_agent.Control.Http.{HttpRequest, HttpResponse, parse_request}
use jetedge_agent.Control.Http.Connection.{
  HttpServer, Reply, max_head_bytes, blank_line, call_handler, run_handler, handle_connection,
}
use jetedge_agent.Control.Http.Chunks.{joined, reply_to, handle_connection-reply_to}
use jetedge_agent.Control.Http.RoundTrip.{
  IsRequest, head_text, line_text, length_header, line_text-Without, length_header-Without,
  check_head-head_text, parse_request-head_text,
}

-- The blank line that ends a printed head is the first one.
head_text-cut_blank :
    (max_body_bytes : ℕ) (req : HttpRequest) (body : List ℕ)
    → IsRequest max_body_bytes req
    → cut blank_line (head_text req ++ (blank_line ++ body)) ≡ some (head_text req, body)
unfolding cut starts_with
head_text-cut_blank m req body ok =
    let n = length req.body in
    let first = 13 ∷ 10 ∷ length_header n in
    let last = blank_line ++ body in
    let inner : cut blank_line (first ++ last) ≡ some (first, body) =
      ap (λ o. before_cut 13 (before_cut 10 o))
        (cut-prepend 13 (10 ∷ 13 ∷ 10 ∷ []) (length_header n) last (length_header-Without n)
          ∙ prepend-some (length_header n) [] body
          ∙ ap (λ l. some (l, body)) (append-nil (length_header n))) in
    ap (cut blank_line) (append_assoc (line_text req) first last)
    ∙ cut-prepend 13 (10 ∷ 13 ∷ 10 ∷ []) (line_text req) (first ++ last)
        (line_text-Without m req ok)
    ∙ ap (prepend (line_text req)) inner
    ∙ prepend-some (line_text req) first body

-- A client that sends a request as `head_text` prints it (with a question mark always, and
-- Content-Length as the only header), a blank line and its body, in chunks of any sizes, and in all no
-- more bytes than the limit on the head, is answered by the handler called with that request.
pub handle_connection-call_handler :
    (server : HttpServer) (handler : HttpRequest → Option HttpResponse) (req : HttpRequest)
    (chunks : List (List ℕ))
    → server.handler ≡ some handler
    → IsRequest server.max_body_bytes req
    → joined chunks ≡ head_text req ++ (blank_line ++ req.body)
    → length (joined chunks) ≤ max_head_bytes
    → handle_connection server chunks ≡ Reply.answered (call_handler handler req)
unfolding reply_to run_handler
handle_connection-call_handler server handler req chunks h ok e k =
    let parts = head_text-cut_blank server.max_body_bytes req req.body ok in
    let read =
      ap (λ b. parse_request (head_text req) b server.max_body_bytes) (sym (append-nil req.body))
      ∙ parse_request-head_text server.max_body_bytes req [] ok in
    handle_connection-reply_to server chunks k
    ∙ rw (e, reply_to, parts, check_head-head_text server req ok, run_handler, read, h) refl
