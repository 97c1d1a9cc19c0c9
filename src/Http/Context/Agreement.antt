-- ===== src/Http/Context/Agreement.antt =====
-- `parseRequest` on a buffer does what the parser of texts does on what the buffer holds.
use simple_http_server.Common.{
  ℕ, zero, suc, ◌+◌, ◌-◌, ◌≤◌, ◌≡◌, refl, sym, ap, subst, ◌∙◌, arith, Bool, true, false, some, none,
  inl, inr, Bool-cases, Option-cases, leb, length, take, drop, take-take, ◌++◌, length-take,
  take-append-drop,
}
use simple_http_server.Common.Bytes.{Bytes, codes}
use simple_http_server.Common.Outcome.{
  Outcome, returned, faulted, running, ◌>>=◌, ℤ, pos, negsuc, Fault, Ends,
}
use simple_http_server.Net.Buffer.{Buffer, range, search_two, find_crlf, retrieve_until}
use simple_http_server.Net.Buffer.View.{contents, length-contents}
use simple_http_server.Net.Buffer.Laws.{Holds, retrieve_until-Holds}
use simple_http_server.Http.Request.{
  HttpRequest, Method, get, head, post, put, delete, invalid, get_header,
}
use simple_http_server.Http.Context.{
  ParseState, expect_request_line, expect_headers, expect_body, got_all, HttpContext, Turn,
  split_at, process_request_line, accept_line, request_line_turn, end_headers, headers_turn,
  set_body, body_turn, turn_in, parse_loop, parse_request,
}
use simple_http_server.Http.Context.Stoi.{stoi}
use simple_http_server.Http.Context.Lines.{find_crlf-none, find_crlf_of}
use simple_http_server.Http.Context.Progress.{search_two-bound}
use simple_http_server.Http.Context.Turns.{loop_more, loop_done, set_body-Holds}
use simple_http_server.Http.Context.Text.{
  Move, goes_on, stops, starves, accepted, request_line_move, ended, headers_move, take_body,
  body_move, move, Parsed, follow, text_loop, parse_text,
}

-- A line of `n` bytes is found, seen and dropped.
record LineAt (n : ℕ) (xs : Bytes) (b : Buffer) : Type 0 where
  found : find_crlf b ≡ some (b.reader_index + n)
  text : range b b.reader_index (b.reader_index + n) ≡ take n xs
  left : Holds (drop (n + 2) xs) (retrieve_until (b.reader_index + n + 2) b)

line-LineAt :
    (n : ℕ) (xs : Bytes) (b : Buffer)
    → search_two b'\r' b'\n' xs ≡ some n
    → Holds xs b
    → LineAt n xs b
line-LineAt n xs b e v =
    let bound : n + 2 ≤ length xs = search_two-bound b'\r' b'\n' xs n e in
    let held = length-contents v.valid in
    let total : length (contents b) ≡ length xs = ap length v.holds in
    let at : b.reader_index + n - b.reader_index ≡ n = omega arith in
    let behind : b.reader_index + n + 2 ≡ b.reader_index + (n + 2) = omega arith in
    record {
      found = find_crlf_of b n (ap (search_two b'\r' b'\n') v.holds ∙ e);
      text = rw at (
          sym (
            take-take n (b.writer_index - b.reader_index) (drop b.reader_index b.buffer)
              (omega arith))
          ∙ ap (take n) v.holds);
      left = rw behind (
          subst (λ t. Holds (drop (n + 2) t) (retrieve_until (b.reader_index + (n + 2)) b)) v.holds
            (retrieve_until-Holds (n + 2) b v.valid (omega arith)));
    }

no_line :
    (xs : Bytes) (b : Buffer) → search_two b'\r' b'\n' xs ≡ none → Holds xs b → find_crlf b ≡ none
no_line xs b e v = find_crlf-none b (ap (search_two b'\r' b'\n') v.holds ∙ e)

-- What a turn of the loop does is what the move of the text says.
abbrev Displays : Outcome Move → Outcome Turn → Type 0
Displays (faulted e) o = o ≡ faulted e
Displays running o = o ≡ running
Displays (returned starves) o =
    Ends (λ (t : Turn). (t.has_more ≡ false) × (t.context.state ≡ got_all)) o
Displays (returned (goes_on c xs)) o =
    (t : Turn) × (o ≡ returned t) × (t.has_more ≡ true) × (t.context ≡ c) × Holds xs t.buffer
Displays (returned (stops ok c xs)) o =
    (t : Turn) × (o ≡ returned t)
    × (t.has_more ≡ false)
    × (t.ok ≡ ok)
    × (t.context ≡ c)
    × Holds xs t.buffer

accept_line-Displays :
    (n time : ℕ) (c : HttpContext) (xs : Bytes) (b : Buffer) (p : Bool × HttpRequest)
    → Holds xs b
    → LineAt n xs b
    → Displays
        (returned (accepted time c xs n p))
        (returned (accept_line (b.reader_index + n) time c b p))
accept_line-Displays n time c xs b (true, r) v l = (_, refl, refl, refl, l.left)
accept_line-Displays n time c xs b (false, r) v l = (_, refl, refl, refl, refl, v)

bind-Displays {ℓ} :
    {A : Type ℓ} (o : Outcome A) (f : A → Outcome Move) (g : A → Outcome Turn)
    → ((a : A) → Displays (f a) (g a))
    → Displays (o >>= f) (o >>= g)
bind-Displays (returned a) f g h = h a
bind-Displays (faulted e) f g h = refl
bind-Displays running f g h = refl

request_line_turn-Displays :
    (time : ℕ) (c : HttpContext) (xs : Bytes) (b : Buffer)
    → Holds xs b
    → Displays (request_line_move time c xs) (request_line_turn time c b)
unfolding request_line_turn request_line_move
request_line_turn-Displays time c xs b v = elim (Option-cases (search_two b'\r' b'\n' xs)) [
  | inl e ↦
      rw (e, request_line_move)
        (rw (no_line xs b e v, request_line_turn) (_, refl, refl, refl, refl, v))
  | inr (n, e) ↦
      let l = line-LineAt n xs b e v in
      rw (e, request_line_move)
        (rw (l.found, request_line_turn, l.text)
          (bind-Displays (process_request_line (take n xs) c.request) _ _
            (λ p. accept_line-Displays n time c xs b p v l)))
]

end_headers-Displays :
    (m : Method) (c : HttpContext) (xs : Bytes) (b : Buffer)
    → Holds xs b
    → Displays (returned (ended m c xs)) (returned (end_headers m c b))
end_headers-Displays post c xs b v = (_, refl, refl, refl, v)
end_headers-Displays get c xs b v = (_, refl, refl, refl, refl, v)
end_headers-Displays head c xs b v = (_, refl, refl, refl, refl, v)
end_headers-Displays put c xs b v = (_, refl, refl, refl, refl, v)
end_headers-Displays delete c xs b v = (_, refl, refl, refl, refl, v)
end_headers-Displays invalid c xs b v = (_, refl, refl, refl, refl, v)

headers_turn-Displays :
    (c : HttpContext) (xs : Bytes) (b : Buffer)
    → Holds xs b
    → Displays (returned (headers_move c xs)) (returned (headers_turn c b))
unfolding headers_turn headers_move
headers_turn-Displays c xs b v = elim (Option-cases (search_two b'\r' b'\n' xs)) [
  | inl e ↦
      rw (e, headers_move) (rw (no_line xs b e v, headers_turn) (_, refl, refl, refl, refl, v))
  | inr (n, e) ↦
      let l = line-LineAt n xs b e v in
      elim (Option-cases (split_at b':' (take n xs))) [
        | inl f ↦
            rw (e, headers_move)
              (rw (l.found, headers_turn, l.text)
                (rw (f, headers_turn, headers_move)
                  (end_headers-Displays c.request.method c (drop (n + 2) xs) _ l.left)))
        | inr ((field, value), f) ↦
            rw (e, headers_move)
              (rw (l.found, headers_turn, l.text)
                (rw (f, headers_turn, headers_move) (_, refl, refl, refl, l.left)))
      ]
]

-- The body is taken from the text when all of it is there.
set_body-Displays :
    (len : ℤ) (c : HttpContext) (xs : Bytes) (b : Buffer)
    → Holds xs b
    → Displays (take_body len c xs) (set_body len c b)
unfolding take_body set_body
set_body-Displays (negsuc n) c xs b v = refl
set_body-Displays (pos n) c xs b v = elim (Bool-cases (leb n (length xs))) [
  | inl e ↦
      let fits : length (take n xs) ≡ n = ground (arith, e, length-take n xs) in
      let parts : Holds (take n xs ++ drop n xs) b =
        subst (λ t. Holds t b) (sym (take-append-drop n xs)) v in
      let (b1, done, left) = set_body-Holds (take n xs) (drop n xs) c b parts in
      rw (e, take_body)
        (_, ap (λ k. set_body (pos k) c b) (sym fits) ∙ done, refl, refl, refl, left)
  | inr e ↦
      rw (e, take_body)
        (elim (Bool-cases (leb (b.reader_index + n) (length b.buffer))) [
          | inl f ↦ rw (f, set_body) (refl, refl)
          | inr f ↦ rw (f, set_body) tt
        ])
]

turn_in-Displays :
    (s : ParseState) (time : ℕ) (c : HttpContext) (xs : Bytes) (b : Buffer)
    → Holds xs b
    → Displays (move s time c xs) (turn_in s time c b)
unfolding move turn_in body_move body_turn
turn_in-Displays expect_request_line time c xs b v = request_line_turn-Displays time c xs b v
turn_in-Displays expect_headers time c xs b v = headers_turn-Displays c xs b v
turn_in-Displays expect_body time c xs b v =
    bind-Displays (stoi (get_header (codes "Content-Length") c.request)) _ _
      (λ len. set_body-Displays len c xs b v)
turn_in-Displays got_all time c xs b v = (_, refl, refl, refl, v)

-- What a parse of the buffer returns is what the parse of the text says. Of a body that is not
-- there the code takes what it finds, and is at its end, or it stops with a fault.
abbrev pub Agrees : Outcome Parsed → Outcome (Bool × HttpContext × Buffer) → Type 0
Agrees (faulted e) o = o ≡ faulted e
Agrees running o = o ≡ running
Agrees (returned none) o = Ends (λ (r : Bool × HttpContext × Buffer). r.1.state ≡ got_all) o
Agrees (returned (some (ok, c, xs))) o = (b : Buffer) × (o ≡ returned (ok, c, b)) × Holds xs b

turn_fault :
    (fuel time : ℕ) (c : HttpContext) (b : Buffer) (e : Fault)
    → turn_in c.state time c b ≡ faulted e
    → parse_loop (suc fuel) time c b ≡ faulted e
unfolding parse_loop
turn_fault fuel time c b e h = rw (h, parse_loop)

turn_running :
    (fuel time : ℕ) (c : HttpContext) (b : Buffer)
    → turn_in c.state time c b ≡ running
    → parse_loop (suc fuel) time c b ≡ running
unfolding parse_loop
turn_running fuel time c b h = rw (h, parse_loop)

starved :
    (fuel time : ℕ) (c : HttpContext) (b : Buffer) (o : Outcome Turn)
    → turn_in c.state time c b ≡ o
    → Ends (λ (t : Turn). (t.has_more ≡ false) × (t.context.state ≡ got_all)) o
    → Agrees (returned none) (parse_loop (suc fuel) time c b)
starved fuel time c b (returned t) e d = rw (loop_done fuel time c b t e d.0) (d.1)
starved fuel time c b (faulted err) e d = rw (turn_fault fuel time c b err e) tt
starved fuel time c b running e d = absurd d

after_move :
    (fuel time : ℕ) (c : HttpContext) (b : Buffer) (m : Outcome Move)
    → Displays m (turn_in c.state time c b)
    → ((c1 : HttpContext) (ys : Bytes) (b1 : Buffer)
        → Holds ys b1
        → Agrees (text_loop fuel time c1 ys) (parse_loop fuel time c1 b1))
    → Agrees (m >>= follow (text_loop fuel time)) (parse_loop (suc fuel) time c b)
after_move fuel time c b (faulted e) d h = turn_fault fuel time c b e d
after_move fuel time c b running d h = turn_running fuel time c b d
after_move fuel time c b (returned starves) d h =
    starved fuel time c b (turn_in c.state time c b) refl d
after_move fuel time c b (returned (stops ok c1 xs)) (t, e, last, same_ok, same, v) h =
    (t.buffer, loop_done fuel time c b t e last ∙ rw (same_ok, same), v)
after_move fuel time c b (returned (goes_on c1 xs)) (t, e, more, same, v) h =
    rw (loop_more fuel time c b t e more, same) (h c1 xs t.buffer v)

parse_loop-Agrees :
    (fuel time : ℕ) (c : HttpContext) (xs : Bytes) (b : Buffer)
    → Holds xs b
    → Agrees (text_loop fuel time c xs) (parse_loop fuel time c b)
unfolding text_loop parse_loop
parse_loop-Agrees zero time c xs b v = refl
parse_loop-Agrees (suc fuel) time c xs b v =
    after_move fuel time c b (move c.state time c xs) (turn_in-Displays c.state time c xs b v)
      (λ c1 ys b1 h. parse_loop-Agrees fuel time c1 ys b1 h)

-- On a buffer that holds the text, in any state of the parser, `parseRequest` returns, leaves in the
-- parser and in the buffer, or stops with, what the parse of the text says, however the buffer
-- holds it. Where the parse of the text comes to a body of which fewer bytes have come in than it
-- is to have, `parseRequest` is at its end all the same, or stops with a fault.
pub parse_request-Agrees :
    (time : ℕ) (c : HttpContext) (xs : Bytes) (b : Buffer)
    → Holds xs b
    → Agrees (parse_text time c xs) (parse_request time c b)
unfolding parse_text parse_request
parse_request-Agrees time c xs b v = rw (v.holds) (parse_loop-Agrees (length xs + 2) time c xs b v)
