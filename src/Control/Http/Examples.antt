-- ===== src/Control/Http/Examples.antt =====
-- Runs of the HTTP server at concrete requests.
use jetedge_agent.Prelude.{All, ℕ, ◌≡◌, ◌⊎◌, refl, inr, false, List, [], ◌∷◌, Option, some, arith}
use jetedge_agent.Prelude.Int.{pos}
use jetedge_agent.Prelude.Bytes.{codes, cut, starts_with}
use jetedge_agent.Control.Http.{
  HttpRequest, HttpResponse, Headers, Parsed, parse_request, parse_headers, length_loop,
  parse_content_length, find_header,
}
use jetedge_agent.Control.Http.Connection.{
  HttpServer, Reply, call_handler, handle_connection, read_head, check_head, to_string,
  print_decimal, status_text,
}
use jetedge_agent.Control.Http.UrlCode.{url_encode, percent_encode, hex_digit, is_unreserved}
use jetedge_agent.Control.Http.Chunks.{joined, reply_to, handle_connection-reply_to}
use jetedge_agent.Control.Http.Accepted.{IsServed, parse_request-IsServed}
use jetedge_agent.Control.Http.HeaderLines.{
  IsLine, text_of_lines, read_lines, parse_headers-read_lines,
}
use jetedge_agent.Control.Http.RoundTrip.{IsRequest, head_text, parse_request-head_text}
use jetedge_agent.Control.Http.EndToEnd.{handle_connection-call_handler}

abbrev echo : HttpRequest → Option HttpResponse
echo req = some (record { status = 200; content_type = codes "text/plain"; body = req.body })

abbrev server : HttpServer
server = record { handler = some echo; max_body_bytes = 8; cors = false }

abbrev post_a : HttpRequest
post_a = record {
  method = codes "POST";
  path = codes "/a b";
  query = codes "limit=2";
  body = codes "hi";
}

-- The same bytes in three chunks.
abbrev chunks : List (List ℕ)
chunks =
    codes "POST /a%20b?limit=2 HTT" ∷ codes "P/1.1\r\nContent-Length: 2\r\n" ∷ codes "\r\nhi" ∷ []

post_a-IsRequest : IsRequest 8 post_a
post_a-IsRequest = record {
  method = inr refl;
  slash = refl;
  bytes = ground arith;
  no_space = ground arith;
  one_line = ground arith;
  within = omega arith;
  fits = omega arith;
}

handle_connection-call_handler_example :
    handle_connection server chunks ≡ Reply.answered (call_handler echo post_a)
unfolding url_encode percent_encode hex_digit is_unreserved to_string print_decimal
handle_connection-call_handler_example =
    handle_connection-call_handler server echo post_a chunks refl post_a-IsRequest refl
      (omega arith)

handle_connection-reply_to_example :
    handle_connection server chunks ≡ reply_to server (joined chunks)
handle_connection-reply_to_example = handle_connection-reply_to server chunks (omega arith)

parse_request-head_text_example :
    parse_request (head_text post_a) (codes "hi, and more") 8 ≡ some post_a
parse_request-head_text_example =
    parse_request-head_text 8 post_a (codes ", and more") post_a-IsRequest

parse_request-IsServed_example :
    IsServed 8 (codes "hi") (parse_request (codes "GET /x HTTP/1.1\r\nA: b") (codes "hi") 8)
parse_request-IsServed_example =
    parse_request-IsServed (codes "GET /x HTTP/1.1\r\nA: b") (codes "hi") 8

abbrev two_lines : List (List ℕ)
two_lines = codes "A: b" ∷ [] ∷ codes "C: d" ∷ []

two_lines-IsLine : All IsLine two_lines
two_lines-IsLine = ground arith

parse_headers-read_lines_example :
    ((parse_headers (codes "A: b\r\n\r\nC") ≡ Parsed.malformed)
      ⊎ ((hs : Headers) × (parse_headers (codes "A: b\r\n\r\nC") ≡ Parsed.parsed hs)))
    × (parse_headers (text_of_lines two_lines) ≡ read_lines two_lines [])
parse_headers-read_lines_example =
    parse_headers-read_lines (codes "A: b\r\n\r\nC") two_lines two_lines-IsLine

-- A number past 64 bits that comes back as a small one.
wrapped_length :
    parse_content_length ((codes "content-length", codes "18446744073709551620") ∷ []) ≡ pos 4
unfolding parse_content_length find_header length_loop
wrapped_length = refl

-- A request line with no header after it.
no_header :
    handle_connection server (codes "GET /health HTTP/1.0\r\n\r\n" ∷ [])
    ≡ Reply.refused 400 "HTTP_PARSE"
unfolding handle_connection read_head check_head cut starts_with
no_header = refl

unknown_conflict : status_text 409 ≡ codes "Unknown"
unfolding status_text
unknown_conflict = refl
