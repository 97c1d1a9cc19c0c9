-- ===== src/Http/Context.antt =====
-- mymuduo/http/HttpContext.h and HttpContext.cpp: the parser of requests, a state machine over the
-- input buffer of a connection. The loop of `parseRequest` runs on fuel.
pub mod Stoi
pub mod Lines
pub mod Message
pub mod RequestLine
pub mod Turns
pub mod RoundTrip
pub mod Timeless
pub mod Pieces
pub mod Settles
pub mod Progress
pub mod Text
pub mod Agreement
pub mod Prefix
pub mod Chunks
pub mod Resumed
use simple_http_server.Common.{
  ℕ, zero, suc, ◌+◌, ◌≤◌, ◌≡◌, Bool, true, false, ◌&&◌, List, [], ◌∷◌, ◌++◌, Option, none, some,
  leb, ◌==◌, if◌then◌else◌, length, take, drop,
}
use simple_http_server.Common.Bytes.{Bytes, codes, equal}
use simple_http_server.Common.Outcome.{
  Outcome, returned, faulted, running, ◌>>=◌, length_error, bad_access, ℤ, pos, negsuc,
}
use simple_http_server.Net.Buffer.{Buffer, range, find_crlf, retrieve_until}
use simple_http_server.Http.Request.{
  HttpRequest, Method, post, Version, http10, http11, empty_request, set_method, add_header,
  get_header, set_path, set_query, set_receive_time, swap,
}
use Stoi.{stoi}

pub data ParseState : Type 0 where
  expect_request_line expect_headers expect_body got_all : ParseState

pub record HttpContext : Type 0 where
  pub state : ParseState
  pub request : HttpRequest

-- `HttpContext()`, and what `reset` leaves.
abbrev pub fresh : HttpContext
fresh = record { state = expect_request_line; request = empty_request }

unfoldable pub reset : HttpContext → HttpContext
reset c = record c { state = expect_request_line; request = (swap (c.request, empty_request)).0 }

abbrev pub is_got_all : ParseState → Bool
is_got_all got_all = true
is_got_all _ = false

-- `std::find`: the bytes before the first `c` and those behind it; `none` where it gives the end.
unfoldable pub split_at : ℕ → Bytes → Option (Bytes × Bytes)
split_at c [] = none
split_at c (x ∷ xs) =
    if x == c
    then some ([], xs)
    else elim (split_at c xs) [ none ↦ none | some (before, after) ↦ some (x ∷ before, after) ]

unfoldable pub set_target : Bytes → HttpRequest → HttpRequest
unfolding split_at
set_target target r = elim (split_at b'?' target) [
  | none ↦ set_path target r
  | some (path, query) ↦ set_query (b'?' ∷ query) (set_path path r)
]

unfoldable pub set_version : Bytes → HttpRequest → Bool × HttpRequest
unfolding equal
set_version v r =
    if (length v == 8) && equal (take 7 v) (codes "HTTP/1.")
    then if equal (drop 7 v) (codes "1")
      then (true, record r { version = http11 })
      else if equal (drop 7 v) (codes "0")
      then (true, record r { version = http10 })
      else (false, r)
    else (false, r)

-- Behind a known method stand the target and the version.
unfoldable pub target_and_version : Bytes → Bool × HttpRequest → Bool × HttpRequest
unfolding split_at set_target set_version
target_and_version rest (false, r) = (false, r)
target_and_version rest (true, r) = elim (split_at b' ' rest) [
  | none ↦ (false, r)
  | some (target, version) ↦ set_version version (set_target target r)
]

-- Returns whether the line is accepted, and the request as far as it has been filled in.
unfoldable pub process_request_line : Bytes → HttpRequest → Outcome (Bool × HttpRequest)
unfolding target_and_version set_method
process_request_line line r = elim (split_at b' ' line) [
  | none ↦ returned (false, r)
  | some (method, rest) ↦ set_method r method >>= λ found. returned (target_and_version rest found)
]

-- One round of the loop: `hasMore`, `ok`, and the state behind it.
pub record Turn : Type 0 where
  pub has_more : Bool
  pub ok : Bool
  pub context : HttpContext
  pub buffer : Buffer

-- No line is complete yet.
abbrev pub wait : HttpContext → Buffer → Turn
wait c b = record { has_more = false; ok = true; context = c; buffer = b }

abbrev pub accept_line : ℕ → ℕ → HttpContext → Buffer → Bool × HttpRequest → Turn
accept_line crlf time c b (true, r) = record {
  has_more = true;
  ok = true;
  context = record { state = expect_headers; request = set_receive_time time r };
  buffer = retrieve_until (crlf + 2) b;
}
accept_line crlf time c b (false, r) = record {
  has_more = false;
  ok = false;
  context = record c { request = r };
  buffer = b;
}

unfoldable pub request_line_turn : ℕ → HttpContext → Buffer → Outcome Turn
unfolding process_request_line
request_line_turn time c b = elim (find_crlf b) [
  | none ↦ returned (wait c b)
  | some crlf ↦ process_request_line (range b b.reader_index crlf) c.request >>= λ processed.
      returned (accept_line crlf time c b processed)
]

-- A line with no colon ends the headers.
abbrev pub end_headers : Method → HttpContext → Buffer → Turn
end_headers post c b = record {
  has_more = true;
  ok = true;
  context = record c { state = expect_body };
  buffer = b;
}
end_headers _ c b = record {
  has_more = false;
  ok = true;
  context = record c { state = got_all };
  buffer = b;
}

unfoldable pub headers_turn : HttpContext → Buffer → Turn
unfolding split_at add_header
headers_turn c b = elim (find_crlf b) [
  | none ↦ wait c b
  | some crlf ↦ elim (split_at b':' (range b b.reader_index crlf)) [
    | some (field, value) ↦ record {
      has_more = true;
      ok = true;
      context = record c { request = add_header field value c.request };
      buffer = retrieve_until (crlf + 2) b;
    }
    | none ↦ end_headers c.request.method c (retrieve_until (crlf + 2) b)
  ]
]

-- `setBody(peek(), peek() + contentlen)` takes the bytes from the storage, readable or not. A
-- negative length makes `std::string::assign` throw.
unfoldable pub set_body : ℤ → HttpContext → Buffer → Outcome Turn
set_body (negsuc n) c b = faulted length_error
set_body (pos n) c b =
    if leb (b.reader_index + n) (length b.buffer)
    then returned (record {
      has_more = false;
      ok = true;
      context = record {
        state = got_all;
        request = record (c.request) { body = take n (drop b.reader_index b.buffer) };
      };
      buffer = retrieve_until (b.reader_index + n) b;
    })
    else faulted bad_access

unfoldable pub body_turn : HttpContext → Buffer → Outcome Turn
unfolding set_body stoi get_header
body_turn c b = do len ← stoi (get_header (codes "Content-Length") c.request); set_body len c b

-- In `kGotAll` no branch is taken, and `hasMore` stays set.
unfoldable pub turn_in : ParseState → ℕ → HttpContext → Buffer → Outcome Turn
unfolding request_line_turn headers_turn body_turn
turn_in expect_request_line time c b = request_line_turn time c b
turn_in expect_headers time c b = returned (headers_turn c b)
turn_in expect_body time c b = body_turn c b
turn_in got_all time c b = returned (record { has_more = true; ok = true; context = c; buffer = b })

-- The loop: what it returns, and the context and the buffer that it leaves.
unfoldable pub parse_loop : ℕ → ℕ → HttpContext → Buffer → Outcome (Bool × HttpContext × Buffer)
unfolding turn_in
parse_loop zero time c b = running
parse_loop (suc fuel) time c b = do
  turn ← turn_in c.state time c b
  elim turn.has_more [
    | true ↦ parse_loop fuel time turn.context turn.buffer
    | false ↦ returned (turn.ok, turn.context, turn.buffer)
  ]

-- A round that goes on takes a line out of the buffer, or enters the body; so one round more than
-- there are readable bytes is enough.
unfoldable pub parse_request : ℕ → HttpContext → Buffer → Outcome (Bool × HttpContext × Buffer)
parse_request time c b = parse_loop (length (range b b.reader_index b.writer_index) + 2) time c b
