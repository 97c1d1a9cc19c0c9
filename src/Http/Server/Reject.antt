-- ===== src/Http/Server/Reject.antt =====
-- What happens to a request line that is refused.
use simple_http_server.Common.{
  Bool, ℕ, suc, ◌+◌, ◌≡◌, ◌≢◌, arith, ap, false, ◌++◌, some, inl, inr, Option-cases, length,
  append_assoc,
}
use simple_http_server.Common.Bytes.{Bytes}
use simple_http_server.Common.Outcome.{Outcome, returned, faulted, assertion_failed, ◌>>=◌}
use simple_http_server.Net.Buffer.{Buffer}
use simple_http_server.Net.Buffer.View.{contents}
use simple_http_server.Net.Buffer.Laws.{Holds}
use simple_http_server.Http.Request.{HttpRequest, invalid, set_method, empty_request}
use simple_http_server.Http.Context.{
  HttpContext, expect_request_line, fresh, split_at, target_and_version, process_request_line,
  request_line_turn, accept_line, turn_in, parse_loop, parse_request,
}
use simple_http_server.Http.Context.Lines.{Lacks, NextLine, line-NextLine}
use simple_http_server.Http.Context.Message.{crlf}
use simple_http_server.Http.Server.{Callback, bad_request, respond, on_message}

abbrev pub waiting : HttpRequest → HttpContext
waiting r = record { state = expect_request_line; request = r }

line_turn :
    (time : ℕ) (line rest : Bytes) (b : Buffer) (r : HttpRequest)
    → NextLine line rest b
    → request_line_turn time (waiting r) b ≡ (
        process_request_line line r >>= λ p.
        returned (accept_line (b.reader_index + length line) time (waiting r) b p))
unfolding request_line_turn
line_turn time line rest b r n = rw (n.found, request_line_turn, n.text)

parse_request-reject :
    (time : ℕ) (line rest : Bytes) (b : Buffer) (r r1 : HttpRequest)
    → NextLine line rest b
    → process_request_line line r ≡ returned (false, r1)
    → parse_request time (waiting r) b ≡ returned (false, waiting r1, b)
unfolding parse_request parse_loop turn_in
parse_request-reject time line rest b r r1 n e =
    let fuel : length (contents b) + 2 ≡ suc (length (contents b) + 1) = omega arith in
    rw (fuel, line_turn time line rest b r n, parse_loop) (rw (e, parse_loop))

parse_request-faulted :
    (time : ℕ) (line rest : Bytes) (b : Buffer) (r : HttpRequest)
    → NextLine line rest b
    → process_request_line line r ≡ faulted assertion_failed
    → parse_request time (waiting r) b ≡ faulted assertion_failed
unfolding parse_request parse_loop turn_in
parse_request-faulted time line rest b r n e =
    let fuel : length (contents b) + 2 ≡ suc (length (contents b) + 1) = omega arith in
    rw (fuel, line_turn time line rest b r n, parse_loop) (rw (e, parse_loop))

-- Only a found space lets the method be set, and it is set once.
second_time :
    (line : Bytes) (r : HttpRequest)
    → process_request_line line empty_request ≡ returned (false, r)
    → r.method ≢ invalid
    → process_request_line line r ≡ faulted assertion_failed
unfolding process_request_line
second_time line r e h = elim (Option-cases (split_at b' ' line)) [
  | inl missing ↦ absurd (h (unspaced (rw (missing, process_request_line) at e)))
  | inr ((method, rest), found) ↦
      rw (found, process_request_line)
        (ap (λ o. o >>= λ p. returned (target_and_version rest p)) (asserted r method h))
]
  where
    unspaced :
        ◌≡◌ {A = Outcome (Bool × HttpRequest)}
          (returned (false, empty_request))
          (returned (false, r))
        → r.method ≡ invalid
    unspaced e = ground arith

    asserted :
        (r : HttpRequest) (method : Bytes)
        → r.method ≢ invalid
        → set_method r method ≡ faulted assertion_failed
    asserted r method h = unfold set_method in ground arith

-- A fresh context and a valid buffer whose first line is refused as a request line: `onMessage`
-- sends the 400 response and shuts down, and neither the line nor the state of the parser is
-- dropped; the buffer is as it was, and the context keeps the request as far as it was filled in.
pub on_message-reject :
    (callback : Callback) (time : ℕ) (line rest : Bytes) (b : Buffer) (r : HttpRequest)
    → Lacks b'\r' line
    → Holds (line ++ crlf rest) b
    → process_request_line line empty_request ≡ returned (false, r)
    → on_message callback time (some fresh) b ≡ returned (some (waiting r), b, bad_request)
unfolding on_message
on_message-reject callback time line rest b r h v e =
    ap (λ o. o >>= respond callback)
      (parse_request-reject time line rest b empty_request r (line-NextLine line rest b h v) e)

-- A first line that names a known method and is refused all the same: once more bytes have come in
-- behind what is in the buffer, `onMessage` in the context that the refusal has left stops the
-- process, by the assertion in `setMethod`.
pub on_message-reject_twice :
    (callback : Callback) (time : ℕ) (line rest more : Bytes) (b : Buffer) (r : HttpRequest)
    → Lacks b'\r' line
    → process_request_line line empty_request ≡ returned (false, r)
    → r.method ≢ invalid
    → Holds ((line ++ crlf rest) ++ more) b
    → on_message callback time (some (waiting r)) b ≡ faulted assertion_failed
unfolding on_message
on_message-reject_twice callback time line rest more b r h e known v =
    let n = line-NextLine line (rest ++ more) b h (rw (append_assoc line (crlf rest) more) at v) in
    ap (λ o. o >>= respond callback)
      (parse_request-faulted time line (rest ++ more) b r n (second_time line r e known))
