-- ===== src/Http/Context/Resumed.antt =====
-- Requests that come in pieces: where `parseRequest` waits for more, it goes on as if all had come
-- in at once.
use simple_http_server.Common.{
  ℕ, ◌+◌, ◌≡◌, ◌≢◌, refl, sym, ap₂, subst, ◌∙◌, arith, Bool, true, ◌++◌, some, none, inl, inr,
  length,
}
use simple_http_server.Common.Bytes.{Bytes}
use simple_http_server.Common.Outcome.{Outcome, returned, faulted, running}
use simple_http_server.Net.Buffer.{Buffer}
use simple_http_server.Net.Buffer.View.{IsValid, contents}
use simple_http_server.Net.Buffer.Laws.{Holds}
use simple_http_server.Http.Context.{got_all, HttpContext, parse_request}
use simple_http_server.Http.Context.Text.{Parsed, parse_text}
use simple_http_server.Http.Context.Agreement.{Agrees, parse_request-Agrees}
use simple_http_server.Http.Context.{expect_request_line, expect_headers, expect_body, ParseState}
use simple_http_server.Http.Context.Chunks.{text_loop-append}
use simple_http_server.Http.Context.Timeless.{moved, text_loop_timeless}

-- The result of a parse, and what the buffer holds.
abbrev pub seen : Outcome (Bool × HttpContext × Buffer) → Outcome (Bool × HttpContext × Bytes)
seen (returned (ok, c, b)) = returned (ok, c, contents b)
seen (faulted e) = faulted e
seen running = running

-- Two buffers with the same text, parsed to the same end.
both_seen :
    (p : Outcome Parsed) (o1 o2 : Outcome (Bool × HttpContext × Buffer))
    → p ≢ returned none
    → Agrees p o1
    → Agrees p o2
    → seen o1 ≡ seen o2
both_seen (returned none) o1 o2 n a1 a2 = absurd (n refl)
both_seen (returned (some (ok, c, xs))) o1 o2 n (b1, e1, v1) (b2, e2, v2) =
    rw (e1, e2, v1.holds, v2.holds) refl
both_seen (faulted e) o1 o2 n a1 a2 = rw (a1, a2) refl
both_seen running o1 o2 n a1 a2 = rw (a1, a2) refl

-- Where `parseRequest` waits, so does the parse of the text.
text_waits :
    (time : ℕ) (c c1 : HttpContext) (b1 : Buffer) (p : Outcome Parsed)
    → c1.state ≢ got_all
    → Agrees p (returned (true, c1, b1))
    → p ≡ returned (some (true, c1, contents b1))
text_waits time c c1 b1 (returned none) waits a = absurd (waits a)
text_waits time c c1 b1 (returned (some (ok, c2, xs))) waits (b2, e, v) = cc (e, v.holds)
text_waits time c c1 b1 (faulted err) waits a = cc
text_waits time c c1 b1 running waits a = cc

-- The time of receipt that counts for a parser that has waited in this state from a read at `t1`
-- to one at `t2`: where it has not got past the request line, the later one.
abbrev pub receipt : ParseState → ℕ → ℕ → ℕ
receipt expect_request_line t1 t2 = t2
receipt _ t1 t2 = t1

ne_line :
    (c : HttpContext) (s : ParseState)
    → c.state ≡ s
    → s ≢ expect_request_line
    → c.state ≢ expect_request_line
ne_line c s e n k = n (sym e ∙ k)

-- The same on the text: in front of the request line nothing has been taken, and behind it the time
-- makes no difference.
at_line :
    (t1 t2 : ℕ) (c c1 : HttpContext) (xs ys rest : Bytes)
    → c1.state ≡ expect_request_line
    → c.state ≢ got_all
    → c1.state ≢ got_all
    → parse_text t1 c xs ≡ returned (some (true, c1, rest))
    → parse_text t2 c (xs ++ ys) ≡ parse_text t2 c1 (rest ++ ys)
unfolding parse_text
at_line t1 t2 c c1 xs ys rest e live waits first =
    elim (moved (length xs + 2) t1 c c1 xs rest live waits first) [
      | inl (same, all) ↦ ap₂ (λ d t. parse_text t2 d (t ++ ys)) (sym same) (sym all)
      | inr past ↦ absurd (past e)
    ]

past_line :
    (t1 t2 : ℕ) (c c1 : HttpContext) (xs ys rest : Bytes)
    → c1.state ≢ expect_request_line
    → c.state ≢ got_all
    → c1.state ≢ got_all
    → parse_text t1 c xs ≡ returned (some (true, c1, rest))
    → parse_text t1 c (xs ++ ys) ≡ parse_text t2 c1 (rest ++ ys)
unfolding parse_text
past_line t1 t2 c c1 xs ys rest n live waits first =
    text_loop-append (length xs + 2) (length (xs ++ ys) + 2) (length (rest ++ ys) + 2) t1 c c1 xs ys
      rest live waits (omega arith) (omega arith) first
    ∙ text_loop_timeless (length (rest ++ ys) + 2) t1 t2 c1 (rest ++ ys) waits n

parse_text-append :
    (s : ParseState) (t1 t2 : ℕ) (c c1 : HttpContext) (xs ys rest : Bytes)
    → c1.state ≡ s
    → c.state ≢ got_all
    → c1.state ≢ got_all
    → parse_text t1 c xs ≡ returned (some (true, c1, rest))
    → parse_text (receipt s t1 t2) c (xs ++ ys) ≡ parse_text t2 c1 (rest ++ ys)
parse_text-append expect_request_line t1 t2 c c1 xs ys rest e live waits first =
    at_line t1 t2 c c1 xs ys rest e live waits first
parse_text-append expect_headers t1 t2 c c1 xs ys rest e live waits first =
    past_line t1 t2 c c1 xs ys rest (ne_line c1 expect_headers e (λ k. cc)) live waits first
parse_text-append expect_body t1 t2 c c1 xs ys rest e live waits first =
    past_line t1 t2 c c1 xs ys rest (ne_line c1 expect_body e (λ k. cc)) live waits first
parse_text-append got_all t1 t2 c c1 xs ys rest e live waits first = absurd (waits e)

-- `parseRequest`, on a valid buffer and not at its end, has returned true in a read at the time `t1`
-- and waits for more; then more bytes come in behind what it has left, in a read at the time `t2`.
-- Parsing what the buffer then holds ends as parsing all at once would have, at `t2` if the parser
-- was waiting for the request line and at `t1` if it had got past it: with the same result, the same
-- parser, its time of receipt included, and the same bytes left, or the same fault; provided that
-- all at once no body is short, of which fewer bytes have come in than it is to have. How the two
-- buffers hold the bytes does not matter.
pub parse_request-append :
    (t1 t2 : ℕ) (c c1 : HttpContext) (ys : Bytes) (b b1 later whole : Buffer)
    → c.state ≢ got_all
    → IsValid b
    → parse_request t1 c b ≡ returned (true, c1, b1)
    → c1.state ≢ got_all
    → Holds (contents b1 ++ ys) later
    → Holds (contents b ++ ys) whole
    → parse_text (receipt c1.state t1 t2) c (contents b ++ ys) ≢ returned none
    → seen (parse_request t2 c1 later) ≡ seen (parse_request (receipt c1.state t1 t2) c whole)
parse_request-append t1 t2 c c1 ys b b1 later whole live v e waits l w enough =
    let xs = contents b in
    let rest = contents b1 in
    let time = receipt c1.state t1 t2 in
    let first : parse_text t1 c xs ≡ returned (some (true, c1, rest)) =
      text_waits t1 c c1 b1 (parse_text t1 c xs) waits (
        subst (Agrees (parse_text t1 c xs)) e
          (parse_request-Agrees t1 c xs b (record { valid = v; holds = refl }))) in
    let same : parse_text time c (xs ++ ys) ≡ parse_text t2 c1 (rest ++ ys) =
      parse_text-append c1.state t1 t2 c c1 xs ys rest refl live waits first in
    both_seen (parse_text time c (xs ++ ys)) _ _ enough
      (subst (λ p. Agrees p (parse_request t2 c1 later)) (sym same)
        (parse_request-Agrees t2 c1 (rest ++ ys) later l))
      (parse_request-Agrees time c (xs ++ ys) whole w)
