-- ===== src/Control/Http.antt =====
-- src/control/http_server.cpp, the parsers: request line, headers, Content-Length,
-- percent-decoding, the whole request. A `std::string` is the list of its bytes, and an output
-- parameter is the result. `std::map` is an association list, written in place.
pub mod Connection
mod UrlCode
mod Chunks
mod Accepted
mod HeaderLines
mod Decimal
mod RoundTrip
mod EndToEnd
mod Examples
use Prim.Native.Char.{code}
use jetedge_agent.Prelude.{
  ℕ, zero, suc, ◌+◌, ◌-◌, ◌*◌, ◌%◌, ◌^◌, Bool, true, false, ◌&&◌, ◌||◌, not, ltb, leb, ◌==◌,
  if◌then◌else◌, List, [], ◌∷◌, Option, none, some, length, take, map,
}
use jetedge_agent.Prelude.Bytes.{codes, is_digit, same_bytes, cut}
use jetedge_agent.Prelude.Int.{ℤ, pos, negsuc}
use jetedge_agent.Prelude.Words.{u64_mod}

pub record HttpRequest : Type 0 where
  pub method : List ℕ
  pub path : List ℕ
  pub query : List ℕ
  pub body : List ℕ

pub record HttpResponse : Type 0 where
  pub status : ℕ
  pub content_type : List ℕ
  pub body : List ℕ

-- `hex`, where none stands for -1.
unfoldable pub hex : ℕ → Option ℕ
hex c =
    if leb 48 c && leb c 57
    then some (c - 48)
    else if leb 97 c && leb c 102
    then some (c - 97 + 10)
    else if leb 65 c && leb c 70
    then some (c - 65 + 10)
    else none

-- `(hi << 4) | lo` of two digits below 16.
unfoldable pub hex_byte : ℕ → ℕ → Option ℕ
unfolding hex
hex_byte a b = elim (hex a) [
  | none ↦ none
  | some hi ↦ elim (hex b) [ none ↦ none | some lo ↦ some (hi * 16 + lo) ]
]

abbrev pub push_byte : ℕ → Option (List ℕ) → Option (List ℕ)
push_byte c none = none
push_byte c (some s) = some (c ∷ s)

-- A byte that is not the percent sign: '+' stands for a space.
unfoldable pub plain : ℕ → ℕ
plain c = if c == 43 then 32 else c

unfoldable pub url_decode : List ℕ → Option (List ℕ)
unfolding hex_byte plain
url_decode [] = some []
url_decode (c ∷ []) = if c == 37 then none else some (plain c ∷ [])
url_decode (c ∷ a ∷ []) = elim (c == 37) [
  | true ↦ none
  | false ↦ push_byte (plain c) (url_decode (a ∷ []))
]
url_decode (c ∷ a ∷ b ∷ s) = elim (c == 37) [
  | true ↦ elim (hex_byte a b) [ none ↦ none | some v ↦ push_byte v (url_decode s) ]
  | false ↦ push_byte (plain c) (url_decode (a ∷ b ∷ s))
]

-- "\r\n"
abbrev pub crlf : List ℕ
crlf = 13 ∷ 10 ∷ []

abbrev pub is_version : List ℕ → Bool
is_version v = same_bytes v (codes "HTTP/1.1") || same_bytes v (codes "HTTP/1.0")

-- The target without its query, and the query.
unfoldable pub split_query : List ℕ → List ℕ × List ℕ
unfolding cut
split_query target = elim (cut (63 ∷ []) target) [ none ↦ (target, []) | some parts ↦ parts ]

abbrev pub starts_with_slash : List ℕ → Bool
starts_with_slash [] = false
starts_with_slash (c ∷ s) = c == 47

-- Method, path and query, once the line is in its three parts.
unfoldable pub request_parts : List ℕ → List ℕ → List ℕ → Option (List ℕ × List ℕ × List ℕ)
unfolding split_query url_decode
request_parts [] target version = none
request_parts (m ∷ method) target version =
    if not (is_version version)
    then none
    else let parts = split_query target in
      if not (starts_with_slash parts.0)
      then none
      else elim (url_decode parts.0) [ none ↦ none | some path ↦ some (m ∷ method, path, parts.1) ]

unfoldable pub parse_request_line : List ℕ → Option (List ℕ × List ℕ × List ℕ)
unfolding cut request_parts
parse_request_line line = elim (cut (32 ∷ []) line) [
  | none ↦ none
  | some (method, rest) ↦ elim (cut (32 ∷ []) rest) [
    | none ↦ none
    | some (target, version) ↦ request_parts method target version
  ]
]

abbrev pub Headers : Type 0
Headers = List (List ℕ × List ℕ)

-- `out[name] = value`
unfoldable pub put_header : List ℕ → List ℕ → Headers → Headers
put_header name value [] = (name, value) ∷ []
put_header name value ((n, v) ∷ hs) =
    if same_bytes n name then (n, value) ∷ hs else (n, v) ∷ put_header name value hs

unfoldable pub find_header : List ℕ → Headers → Option (List ℕ)
find_header name [] = none
find_header name ((n, v) ∷ hs) = if same_bytes n name then some v else find_header name hs

unfoldable pub lowercase : ℕ → ℕ
lowercase c = if leb 65 c && leb c 90 then c + 32 else c

unfoldable pub skip_spaces : List ℕ → List ℕ
skip_spaces [] = []
skip_spaces (c ∷ s) = if c == 32 then skip_spaces s else c ∷ s

-- The result of a loop that is given a number of rounds.
pub data Parsed : Type 0 where
  unfinished : Parsed
  malformed : Parsed
  parsed : Headers → Parsed

-- A line that is not empty, put into the map.
unfoldable pub add_line : List ℕ → Headers → Option Headers
unfolding cut put_header lowercase skip_spaces
add_line line out = elim (cut (58 ∷ []) line) [
  | none ↦ none
  | some (name, value) ↦ some (put_header (map lowercase name) (skip_spaces value) out)
]

-- The loop, where `block` is what stands from `pos` on.
unfoldable pub header_loop : ℕ → List ℕ → Headers → Parsed
unfolding cut add_line
header_loop rounds [] out = parsed out
header_loop zero (c ∷ block) out = unfinished
header_loop (suc rounds) (c ∷ block) out = elim (cut crlf (c ∷ block)) [
  | none ↦ elim (add_line (c ∷ block) out) [ none ↦ malformed | some all ↦ parsed all ]
  | some ([], rest) ↦ header_loop rounds rest out
  | some (l ∷ line, rest) ↦ elim (add_line (l ∷ line) out) [
    | none ↦ malformed
    | some all ↦ header_loop rounds rest all
  ]
]

-- Each round takes at least one byte.
unfoldable pub parse_headers : List ℕ → Parsed
unfolding header_loop
parse_headers block = header_loop (length block) block []

-- The loop over the digits; the product and the sum are those of a wrapping `int64_t`.
unfoldable pub length_loop : ℕ → List ℕ → ℤ
length_loop v [] = pos v
length_loop v (c ∷ s) =
    if not (is_digit c)
    then negsuc 0
    else let w = (v * 10 + (c - 48)) % u64_mod in
      if leb (2 ^ 63) w then negsuc 0 else length_loop w s

unfoldable pub parse_content_length : Headers → ℤ
unfolding find_header length_loop
parse_content_length headers = elim (find_header (codes "content-length") headers) [
  | none ↦ pos 0
  | some [] ↦ negsuc 0
  | some (c ∷ s) ↦ length_loop 0 (c ∷ s)
]

-- The length, if it is one that is served.
unfoldable pub served_length : ℕ → Headers → Option ℕ
unfolding parse_content_length
served_length max_body_bytes headers = elim (parse_content_length headers) [
  | negsuc n ↦ none
  | pos n ↦ if ltb max_body_bytes n then none else some n
]

abbrev pub get_or_post : List ℕ → Bool
get_or_post m = same_bytes m (codes "GET") || same_bytes m (codes "POST")

unfoldable pub parse_request : List ℕ → List ℕ → ℕ → Option HttpRequest
unfolding parse_request_line parse_headers served_length
parse_request head body max_body_bytes = elim (cut crlf head) [
  | none ↦ none
  | some (line, block) ↦ elim (parse_request_line line) [
    | none ↦ none
    | some (method, path, query) ↦
        if not (get_or_post method) then none else elim (parse_headers block) [
          | unfinished ↦ none
          | malformed ↦ none
          | parsed headers ↦ elim (served_length max_body_bytes headers) [
            | none ↦ none
            | some n ↦
                if ltb (length body) n
                then none
                else some
                    (record { method = method; path = path; query = query; body = take n body })
          ]
        ]
  ]
]
