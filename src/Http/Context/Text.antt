-- ===== src/Http/Context/Text.antt =====
-- The parser of mymuduo/http/HttpContext.cpp as a function of the text: what the buffer holds, and
-- not how it holds it. `none` stands for a body of which fewer bytes have come in than it is to have.
use simple_http_server.Common.{
  ℕ, zero, suc, ◌+◌, Bool, true, false, Option, none, some, leb, if◌then◌else◌, length, take, drop,
}
use simple_http_server.Common.Bytes.{Bytes, codes}
use simple_http_server.Common.Outcome.{
  Outcome, returned, faulted, running, ◌>>=◌, length_error, ℤ, pos, negsuc,
}
use simple_http_server.Net.Buffer.{search_two}
use simple_http_server.Http.Request.{HttpRequest, Method, post, add_header, get_header}
use simple_http_server.Http.Context.{
  ParseState, expect_request_line, expect_headers, expect_body, got_all, HttpContext, split_at,
  process_request_line,
}
use simple_http_server.Http.Context.Stoi.{stoi}

pub data Move : Type 0 where
  goes_on : HttpContext → Bytes → Move
  stops : Bool → HttpContext → Bytes → Move
  starves : Move

abbrev pub accepted : ℕ → HttpContext → Bytes → ℕ → Bool × HttpRequest → Move
accepted time c xs n (true, r) =
    goes_on (record { state = expect_headers; request = record r { receive_time = time } })
      (drop (n + 2) xs)
accepted time c xs n (false, r) = stops false (record c { request = r }) xs

unfoldable pub request_line_move : ℕ → HttpContext → Bytes → Outcome Move
request_line_move time c xs = elim (search_two b'\r' b'\n' xs) [
  | none ↦ returned (stops true c xs)
  | some n ↦ process_request_line (take n xs) c.request >>= λ p. returned (accepted time c xs n p)
]

abbrev pub ended : Method → HttpContext → Bytes → Move
ended post c xs = goes_on (record c { state = expect_body }) xs
ended _ c xs = stops true (record c { state = got_all }) xs

unfoldable pub headers_move : HttpContext → Bytes → Move
headers_move c xs = elim (search_two b'\r' b'\n' xs) [
  | none ↦ stops true c xs
  | some n ↦ elim (split_at b':' (take n xs)) [
    | some (field, value) ↦
        goes_on (record c { request = add_header field value c.request }) (drop (n + 2) xs)
    | none ↦ ended c.request.method c (drop (n + 2) xs)
  ]
]

unfoldable pub take_body : ℤ → HttpContext → Bytes → Outcome Move
take_body (negsuc n) c xs = faulted length_error
take_body (pos n) c xs =
    if leb n (length xs)
    then returned (
        stops true (record { state = got_all; request = record (c.request) { body = take n xs } })
          (drop n xs))
    else returned starves

unfoldable pub body_move : HttpContext → Bytes → Outcome Move
body_move c xs = do len ← stoi (get_header (codes "Content-Length") c.request); take_body len c xs

unfoldable pub move : ParseState → ℕ → HttpContext → Bytes → Outcome Move
move expect_request_line time c xs = request_line_move time c xs
move expect_headers time c xs = returned (headers_move c xs)
move expect_body time c xs = body_move c xs
move got_all time c xs = returned (goes_on c xs)

abbrev pub Parsed : Type 0
Parsed = Option (Bool × HttpContext × Bytes)

abbrev pub follow : (HttpContext → Bytes → Outcome Parsed) → Move → Outcome Parsed
follow k (goes_on c xs) = k c xs
follow k (stops ok c xs) = returned (some (ok, c, xs))
follow k starves = returned none

unfoldable pub text_loop : ℕ → ℕ → HttpContext → Bytes → Outcome Parsed
text_loop zero time c xs = running
text_loop (suc fuel) time c xs = move c.state time c xs >>= follow (text_loop fuel time)

unfoldable pub parse_text : ℕ → HttpContext → Bytes → Outcome Parsed
parse_text time c xs = text_loop (length xs + 2) time c xs
