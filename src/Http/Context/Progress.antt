-- ===== src/Http/Context/Progress.antt =====
-- The loop of `parseRequest` ends, and leaves a valid buffer.
use simple_http_server.Common.{
  ℕ, zero, suc, ◌+◌, ◌≤◌, ◌<◌, ◌≡◌, ◌≢◌, refl, arith, Bool, true, false, [], ◌∷◌, some, inl, inr,
  leb, length, length-drop, drop, Bool-cases, Option-cases,
}
use simple_http_server.Common.Bytes.{Bytes, codes}
use simple_http_server.Common.Outcome.{
  Outcome, returned, faulted, running, ◌>>=◌, Ends, bind-Ends, ℤ, pos, negsuc,
}
use simple_http_server.Net.Buffer.{Buffer, range, search_two, find_crlf, retrieve_until, sub_size}
use simple_http_server.Net.Buffer.View.{IsValid, contents}
use simple_http_server.Net.Buffer.Laws.{retrieve-Holds, retrieve_until-Holds}
use simple_http_server.Http.Request.{
  HttpRequest, Method, post, get, head, put, delete, invalid, get_header,
}
use simple_http_server.Http.Context.Stoi.{stoi}
use simple_http_server.Http.Context.{
  ParseState, expect_request_line, expect_headers, expect_body, got_all, HttpContext, Turn,
  split_at, process_request_line, accept_line, request_line_turn, end_headers, headers_turn,
  set_body, body_turn, turn_in, parse_loop, parse_request,
}
use simple_http_server.Http.Context.Settles.{process_request_line-Settles, stoi-Settles}

pub search_two-bound :
    (x y : ℕ) (xs : Bytes) (i : ℕ) → search_two x y xs ≡ some i → i + 2 ≤ length xs
unfolding search_two
search_two-bound x y [] i e = cc
search_two-bound x y (a ∷ []) i e = cc
search_two-bound x y (a ∷ c ∷ cs) i e = elim (Option-cases (search_two x y (c ∷ cs))) [
  | inl n ↦ ground (arith, n)
  | inr (j, n) ↦ ground (arith, n, search_two-bound x y (c ∷ cs) j n)
]

-- The line that is found is in the buffer, with its CRLF.
find_crlf-bound :
    (b : Buffer) (i : ℕ)
    → find_crlf b ≡ some i
    → (n : ℕ) × (i ≡ b.reader_index + n) × (n + 2 ≤ length (contents b))
unfolding find_crlf
find_crlf-bound b i e = elim (Option-cases (search_two b'\r' b'\n' (contents b))) [
  | inl none_found ↦ absurd (let h = rw (none_found, find_crlf) at e in cc)
  | inr (n, at) ↦ (
    n,
    (let h = rw (at, find_crlf) at e in ground (arith, h)),
    search_two-bound b'\r' b'\n' (contents b) n at,
  )
]

-- A round leaves a valid buffer; one that goes on has taken bytes from it and is not at the end.
record Advances (b : Buffer) (t : Turn) : Type 0 where
  valid : IsValid t.buffer
  live : t.has_more ≡ true → t.context.state ≢ got_all
  taken : t.has_more ≡ true → length (contents t.buffer) < length (contents b)

-- A round that is the last one.
last-Advances :
    (ok : Bool) (c : HttpContext) (b b1 : Buffer)
    → IsValid b1
    → Advances b (record { has_more = false; ok = ok; context = c; buffer = b1 })
last-Advances ok c b b1 v = record { valid = v; live = λ e. cc; taken = λ e. cc }

-- A round that takes a line of `n` bytes.
line-Advances :
    (b : Buffer) (i n : ℕ)
    → IsValid b
    → i ≡ b.reader_index + n
    → n + 2 ≤ length (contents b)
    → IsValid (retrieve_until (i + 2) b)
      × (length (contents (retrieve_until (i + 2) b)) < length (contents b))
line-Advances b i n v e h =
    let at : i + 2 ≡ b.reader_index + (n + 2) = omega arith in
    let r = retrieve_until-Holds (n + 2) b v h in
    let shorter : length (drop (n + 2) (contents b)) < length (contents b) =
      omega (arith, length-drop (n + 2) (contents b)) in
    rw at (r.valid, rw (r.holds) shorter)

accept_line-Advances :
    (i n time : ℕ) (c : HttpContext) (b : Buffer) (p : Bool × HttpRequest)
    → IsValid b
    → i ≡ b.reader_index + n
    → n + 2 ≤ length (contents b)
    → Advances b (accept_line i time c b p)
accept_line-Advances i n time c b (true, r) v e h =
    let (valid, shorter) = line-Advances b i n v e h in
    record { valid = valid; live = λ _ k. cc; taken = λ _. shorter }
accept_line-Advances i n time c b (false, r) v e h = last-Advances false _ b b v

request_line_turn-Ends :
    (time : ℕ) (c : HttpContext) (b : Buffer)
    → IsValid b
    → Ends (Advances b) (request_line_turn time c b)
unfolding request_line_turn
request_line_turn-Ends time c b v = elim (Option-cases (find_crlf b)) [
  | inl e ↦ rw (e, request_line_turn) (last-Advances true c b b v)
  | inr (i, e) ↦
      let (n, at, h) = find_crlf-bound b i e in
      rw (e, request_line_turn)
        (bind-Ends (Advances b) (process_request_line (range b b.reader_index i) c.request) _
          (process_request_line-Settles (range b b.reader_index i) c.request)
          (λ p. accept_line-Advances i n time c b p v at h))
]

end_headers-Advances :
    (m : Method) (c : HttpContext) (b b1 : Buffer)
    → IsValid b1
    → length (contents b1) < length (contents b)
    → Advances b (end_headers m c b1)
end_headers-Advances post c b b1 v h = record { valid = v; live = λ _ k. cc; taken = λ _. h }
end_headers-Advances get c b b1 v h = last-Advances true _ b b1 v
end_headers-Advances head c b b1 v h = last-Advances true _ b b1 v
end_headers-Advances put c b b1 v h = last-Advances true _ b b1 v
end_headers-Advances delete c b b1 v h = last-Advances true _ b b1 v
end_headers-Advances invalid c b b1 v h = last-Advances true _ b b1 v

headers_turn-Advances :
    (c : HttpContext) (b : Buffer)
    → c.state ≡ expect_headers
    → IsValid b
    → Advances b (headers_turn c b)
unfolding headers_turn
headers_turn-Advances c b s v = elim (Option-cases (find_crlf b)) [
  | inl e ↦ rw (e, headers_turn) (last-Advances true c b b v)
  | inr (i, e) ↦
      let (n, at, h) = find_crlf-bound b i e in
      let (valid, shorter) = line-Advances b i n v at h in
      elim (Option-cases (split_at b':' (range b b.reader_index i))) [
        | inl f ↦
            rw (e, headers_turn)
              (rw (f, headers_turn) (end_headers-Advances c.request.method c b _ valid shorter))
        | inr ((field, value), f) ↦
            rw (e, headers_turn)
              (rw (f, headers_turn)
                (record { valid = valid; live = λ _ k. cc; taken = λ _. shorter }))
      ]
]

-- A body of any length that the storage has leaves a valid buffer.
retrieve_until-IsValid :
    (n : ℕ) (b : Buffer)
    → IsValid b
    → b.reader_index + n ≤ length b.buffer
    → IsValid (retrieve_until (b.reader_index + n) b)
unfolding retrieve_until
retrieve_until-IsValid n b v h =
    let e : sub_size (b.reader_index + n) b.reader_index ≡ n = omega (arith, v.addressable) in
    rw e ((retrieve-Holds n b v).valid)

set_body-Ends :
    (len : ℤ) (c : HttpContext) (b : Buffer) → IsValid b → Ends (Advances b) (set_body len c b)
unfolding set_body
set_body-Ends (negsuc n) c b v = tt
set_body-Ends (pos n) c b v = elim (Bool-cases (leb (b.reader_index + n) (length b.buffer))) [
  | inl e ↦
      rw (e, set_body) (last-Advances true _ b _ (retrieve_until-IsValid n b v (ground (arith, e))))
  | inr e ↦ rw (e, set_body) tt
]

body_turn-Ends : (c : HttpContext) (b : Buffer) → IsValid b → Ends (Advances b) (body_turn c b)
unfolding body_turn
body_turn-Ends c b v =
    bind-Ends (Advances b) (stoi (get_header (codes "Content-Length") c.request)) _
      (stoi-Settles (get_header (codes "Content-Length") c.request))
      (λ len. set_body-Ends len c b v)

turn_in-Ends :
    (s : ParseState) (time : ℕ) (c : HttpContext) (b : Buffer)
    → c.state ≡ s
    → s ≢ got_all
    → IsValid b
    → Ends (Advances b) (turn_in s time c b)
unfolding turn_in
turn_in-Ends expect_request_line time c b e live v = request_line_turn-Ends time c b v
turn_in-Ends expect_headers time c b e live v = headers_turn-Advances c b e v
turn_in-Ends expect_body time c b e live v = body_turn-Ends c b v
turn_in-Ends got_all time c b e live v = absurd (live refl)

-- What `parseRequest` leaves: a valid buffer.
abbrev pub LeavesValid : Bool × HttpContext × Buffer → Type 0
LeavesValid (ok, c, b) = IsValid b

turn_behind :
    (b : Buffer) (fuel time : ℕ) (t : Turn) (more : Bool)
    → t.has_more ≡ more
    → Advances b t
    → (more ≡ true → Ends LeavesValid (parse_loop fuel time t.context t.buffer))
    → Ends LeavesValid (elim more [
      | true ↦ parse_loop fuel time t.context t.buffer
      | false ↦ returned (t.ok, t.context, t.buffer)
    ])
turn_behind b fuel time t true e a h = h refl
turn_behind b fuel time t false e a h = a.valid

after_turn :
    (b : Buffer) (fuel time : ℕ) (o : Outcome Turn)
    → Ends (Advances b) o
    → ((t : Turn)
        → Advances b t
        → t.has_more ≡ true
        → Ends LeavesValid (parse_loop fuel time t.context t.buffer))
    → Ends LeavesValid (
        o >>= λ t. elim t.has_more [
          | true ↦ parse_loop fuel time t.context t.buffer
          | false ↦ returned (t.ok, t.context, t.buffer)
        ])
after_turn b fuel time (returned t) a h = turn_behind b fuel time t t.has_more refl a (h t a)
after_turn b fuel time (faulted e) a h = tt
after_turn b fuel time running a h = absurd a

parse_loop-Ends :
    (fuel time : ℕ) (c : HttpContext) (b : Buffer)
    → length (contents b) < fuel
    → c.state ≢ got_all
    → IsValid b
    → Ends LeavesValid (parse_loop fuel time c b)
unfolding parse_loop
parse_loop-Ends zero time c b h live v = absurd (omega arith)
parse_loop-Ends (suc fuel) time c b h live v =
    after_turn b fuel time (turn_in c.state time c b) (turn_in-Ends c.state time c b refl live v)
      (λ t a more.
        parse_loop-Ends fuel time t.context t.buffer (omega (arith, a.taken more)) (a.live more)
          a.valid)

-- With a valid buffer and a parser that is not at its end, `parseRequest` is never caught in its
-- loop: it returns, and leaves a valid buffer, or it stops with a fault. The fuel suffices.
pub parse_request-Ends :
    (time : ℕ) (c : HttpContext) (b : Buffer)
    → c.state ≢ got_all
    → IsValid b
    → Ends LeavesValid (parse_request time c b)
unfolding parse_request
parse_request-Ends time c b live v =
    parse_loop-Ends (length (contents b) + 2) time c b (omega arith) live v
