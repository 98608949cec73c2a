-- ===== src/Control/Http/Connection.antt =====
-- `HttpServer::handle_connection` of src/control/http_server.cpp. What `recv` returns on a
-- connection is a list of chunks, each of the bytes of one call; at its end the client has closed or
-- is too slow. The result is what the server sends before it closes.
use jetedge_agent.Prelude.{
  ℕ, zero, suc, ◌+◌, ◌/◌, ◌%◌, Bool, not, ltb, leb, ◌==◌, if◌then◌else◌, List, [], ◌∷◌, ◌++◌,
  Option, none, some, length,
}
use Prim.Native.String.{String}
use jetedge_agent.Prelude.Bytes.{codes, same_bytes, cut}
use jetedge_agent.Control.Http.{
  HttpRequest, HttpResponse, Parsed, crlf, get_or_post, parse_request_line, parse_headers,
  served_length, parse_request,
}

-- kMaxHeadBytes
abbrev pub max_head_bytes : ℕ
max_head_bytes = 16384

-- What a connection needs of the server. A handler that throws is `none`.
pub record HttpServer : Type 0 where
  pub handler : Option (HttpRequest → Option HttpResponse)
  pub max_body_bytes : ℕ
  pub cors : Bool

pub data Reply : Type 0 where
  closed : Reply
  refused : ℕ → String → Reply
  preflight : Reply
  answered : HttpResponse → Reply

pub data Head : Type 0 where
  gone : Head
  too_large : Head
  found : List ℕ → List ℕ → List (List ℕ) → Head

-- "\r\n\r\n"
abbrev pub blank_line : List ℕ
blank_line = 13 ∷ 10 ∷ 13 ∷ 10 ∷ []

-- The loop that reads the head: the head, the bytes after it, and the calls not made yet.
unfoldable pub read_head : List ℕ → List (List ℕ) → Head
unfolding cut
read_head buffer [] = if ltb max_head_bytes (length buffer) then too_large else gone
read_head buffer (chunk ∷ chunks) =
    if ltb max_head_bytes (length buffer)
    then too_large
    else elim (cut blank_line (buffer ++ chunk)) [
      | none ↦ read_head (buffer ++ chunk) chunks
      | some (head, body) ↦ found head body chunks
    ]

-- The loop that reads the body.
unfoldable pub read_body : ℕ → List ℕ → List (List ℕ) → List ℕ
read_body n body [] = body
read_body n body (chunk ∷ chunks) =
    if leb n (length body) then body else read_body n (body ++ chunk) chunks

pub data Verdict : Type 0 where
  reject : Reply → Verdict
  proceed : ℕ → Verdict

-- The checks of the head: a reply, or the length of the body.
unfoldable pub check_head : HttpServer → List ℕ → Verdict
unfolding cut parse_request_line parse_headers served_length
check_head server head = elim (cut crlf head) [
  | none ↦ reject (refused 400 "HTTP_PARSE")
  | some (line, block) ↦ elim (parse_request_line line) [
    | none ↦ reject (refused 400 "HTTP_PARSE")
    | some (method, path, query) ↦
        if same_bytes method (codes "OPTIONS")
        then reject (if not server.cors then refused 405 "HTTP_METHOD" else preflight)
        else if not (get_or_post method)
        then reject (refused 405 "HTTP_METHOD")
        else elim (parse_headers block) [
          | Parsed.unfinished ↦ reject (refused 400 "HTTP_PARSE")
          | Parsed.malformed ↦ reject (refused 400 "HTTP_PARSE")
          | Parsed.parsed headers ↦ elim (served_length server.max_body_bytes headers) [
            | none ↦ reject (refused 413 "HTTP_TOO_LARGE")
            | some n ↦ proceed n
          ]
        ]
  ]
]

abbrev pub json_type : List ℕ
json_type = codes "application/json"

-- The handler's answer, or that it threw.
unfoldable pub call_handler : (HttpRequest → Option HttpResponse) → HttpRequest → HttpResponse
call_handler handler req = elim (handler req) [
  | none ↦ record {
    status = 500;
    content_type = json_type;
    body = codes "{\"error_code\":\"INTERNAL\"}";
  }
  | some resp ↦ resp
]

abbrev pub bad_request : HttpResponse
bad_request = record {
  status = 400;
  content_type = json_type;
  body = codes "{\"error_code\":\"HTTP_PARSE\"}";
}

-- The handler on the parsed request.
unfoldable pub run_handler : HttpServer → List ℕ → List ℕ → HttpResponse
unfolding parse_request call_handler
run_handler server head body = elim (parse_request head body server.max_body_bytes) [
  | none ↦ bad_request
  | some req ↦ elim server.handler [ none ↦ bad_request | some handler ↦ call_handler handler req ]
]

unfoldable pub handle_connection : HttpServer → List (List ℕ) → Reply
unfolding read_head read_body check_head run_handler
handle_connection server chunks = elim (read_head [] chunks) [
  | gone ↦ closed
  | too_large ↦ refused 400 "HTTP_TOO_LARGE"
  | found head body rest ↦ elim (check_head server head) [
    | reject reply ↦ reply
    | proceed n ↦ answered (run_handler server head (read_body n body rest))
  ]
]

unfoldable pub status_text : ℕ → List ℕ
status_text status =
    if status == 200
    then codes "OK"
    else if status == 400
    then codes "Bad Request"
    else if status == 404
    then codes "Not Found"
    else if status == 405
    then codes "Method Not Allowed"
    else if status == 413
    then codes "Payload Too Large"
    else if status == 500
    then codes "Internal Server Error"
    else codes "Unknown"

-- `std::to_string` of a number of at most `digits` digits: 20 are enough for 64 bits.
unfoldable pub print_decimal : ℕ → ℕ → List ℕ
print_decimal zero n = []
print_decimal (suc digits) n =
    let front = print_decimal digits (n / 10) in
    if ltb n 10 then (48 + n) ∷ [] else front ++ ((48 + n % 10) ∷ [])

unfoldable pub to_string : ℕ → List ℕ
unfolding print_decimal
to_string n = print_decimal 20 n

abbrev pub cors_line : Bool → List ℕ
cors_line cors = if cors then codes "Access-Control-Allow-Origin: *\r\n" else []

-- The response as it is written: its head, the blank line, its body.
unfoldable pub write_response : Bool → HttpResponse → List ℕ
unfolding status_text to_string
write_response cors resp =
    codes "HTTP/1.1 "
    ++ to_string resp.status
    ++ codes " "
    ++ status_text resp.status
    ++ codes "\r\nContent-Type: "
    ++ resp.content_type
    ++ codes "\r\nContent-Length: "
    ++ to_string (length resp.body)
    ++ crlf
    ++ cors_line cors
    ++ codes "Connection: close\r\n\r\n"
    ++ resp.body

unfoldable pub send_error : Bool → ℕ → String → List ℕ
unfolding write_response
send_error cors status error_code = write_response cors (record {
  status = status;
  content_type = json_type;
  body = codes "{\"error_code\":\"" ++ codes error_code ++ codes "\"}";
})

-- What goes over the wire.
unfoldable pub reply_bytes : Bool → Reply → List ℕ
unfolding write_response send_error
reply_bytes cors closed = []
reply_bytes cors (refused status error_code) = send_error cors status error_code
reply_bytes cors preflight =
    codes "HTTP/1.1 200 OK\r\nAccess-Control-Allow-Origin: *\r\n"
    ++ codes "Access-Control-Allow-Methods: GET, POST, OPTIONS\r\n"
    ++ codes "Access-Control-Allow-Headers: Content-Type\r\n"
    ++ codes "Access-Control-Max-Age: 3600\r\nContent-Length: 0\r\nConnection: close\r\n\r\n"
reply_bytes cors (answered resp) = write_response cors resp
