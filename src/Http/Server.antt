-- ===== src/Http/Server.antt =====
-- mymuduo/http/HttpServer.cpp: a request comes in on a connection, a response goes out.
-- What is called on the connection is listed; Net/Connection models what the calls do.
pub mod Serve
pub mod Reject
pub mod Ready
pub mod Setup
use simple_http_server.Common.{
  ℕ, Bool, true, false, not, ◌&&◌, ◌||◌, List, [], ◌∷◌, ◌++◌, Option, none, some, if◌then◌else◌,
}
use simple_http_server.Common.Bytes.{Bytes, codes, equal}
use simple_http_server.Common.Outcome.{Outcome, returned, faulted, ◌>>=◌, bad_access}
use simple_http_server.Net.Buffer.{Buffer, init, initial_size, retrieve_all_as_string}
use simple_http_server.Http.Request.{HttpRequest, Version, http10, get_header}
use simple_http_server.Http.Response.{
  HttpResponse, StatusCode, new_response, set_status_code, set_status_message, set_close_connection,
  append_to_buffer,
}
use simple_http_server.Http.Context.{
  HttpContext, ParseState, fresh, reset, is_got_all, parse_request,
}

-- `HttpCallback`: from the request and the response prepared for it to the response to send.
abbrev pub Callback : Type 0
Callback = HttpRequest → HttpResponse → Outcome HttpResponse

pub data Call : Type 0 where
  send : Bytes → Call
  shutdown : Call

unfoldable pub default_http_callback : Callback
unfolding set_close_connection set_status_message set_status_code
default_http_callback request response = returned (
    set_close_connection true
      (set_status_message (codes "Not Found") (set_status_code StatusCode.not_found response)))

-- The context of the connection is a `std::any`: `none` until one is set.
unfoldable pub on_connection : Bool → Option HttpContext → Option HttpContext
on_connection connected context = if connected then some fresh else context

abbrev pub is_http10 : Version → Bool
is_http10 http10 = true
is_http10 _ = false

unfoldable pub wants_close : HttpRequest → Bool
unfolding get_header equal
wants_close r =
    equal (get_header (codes "Connection") r) (codes "close")
    || (is_http10 r.version && not (equal (get_header (codes "Connection") r) (codes "Keep-Alive")))

-- The text of a response, written into a new buffer and taken out whole.
unfoldable pub written : HttpResponse → Outcome Bytes
unfolding append_to_buffer
written response = elim (append_to_buffer response (init initial_size)) [
  | none ↦ faulted bad_access
  | some b ↦ returned (retrieve_all_as_string b).0
]

unfoldable pub on_request : Callback → HttpRequest → Outcome (List Call)
unfolding wants_close
on_request callback request = callback request (new_response (wants_close request)) >>= λ response.
    written response >>= λ text.
    returned (if response.close_connection then send text ∷ shutdown ∷ [] else send text ∷ [])

abbrev pub bad_request : List Call
bad_request = send (codes "HTTP/1.1 400 Bad Request\r\n\r\n") ∷ shutdown ∷ []

-- Behind the parser: the refusal if there was an error, and the response if all is there.
unfoldable pub respond :
    Callback → Bool × HttpContext × Buffer → Outcome (Option HttpContext × Buffer × List Call)
respond callback (ok, c, b) =
    let refusal = if ok then [] else bad_request in
    if is_got_all c.state
    then (on_request callback c.request >>= λ calls. returned (some (reset c), b, refusal ++ calls))
    else returned (some c, b, refusal)

-- `any_cast` of an empty context gives a null pointer, which is dereferenced.
unfoldable pub on_message :
    Callback → ℕ → Option HttpContext → Buffer → Outcome (Option HttpContext × Buffer × List Call)
unfolding respond on_request
on_message callback time none b = faulted bad_access
on_message callback time (some c) b = parse_request time c b >>= respond callback
