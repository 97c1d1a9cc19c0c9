-- ===== src/Http/Context/Prefix.antt =====
-- What one move of the parser tells of the move with more text behind it.
use simple_http_server.Common.{
  ℕ, ◌+◌, ◌≤◌, ◌<◌, ◌≡◌, ◌≢◌, ◌⊎◌, refl, sym, ◌∙◌, ap, arith, Bool, true, false, [], ◌∷◌, ◌++◌,
  some, inl, inr, Bool-cases, Option-cases, leb, length, take, drop, length-drop, length-append,
  take-append-drop, take-append_le, drop-append_le,
}
use simple_http_server.Common.Bytes.{Bytes, codes}
use simple_http_server.Common.Outcome.{Outcome, returned, faulted, running, ◌>>=◌, ℤ, pos, negsuc}
use simple_http_server.Net.Buffer.{search_two}
use simple_http_server.Http.Request.{
  HttpRequest, Method, get, head, post, put, delete, invalid, get_header,
}
use simple_http_server.Http.Context.{
  ParseState, expect_request_line, expect_headers, expect_body, got_all, HttpContext, split_at,
  process_request_line,
}
use simple_http_server.Http.Context.Stoi.{stoi}
use simple_http_server.Http.Context.Progress.{search_two-bound}
use simple_http_server.Http.Context.Text.{
  Move, goes_on, stops, starves, accepted, request_line_move, ended, headers_move, take_body,
  body_move, move,
}

-- A line that is complete is found at the same place when more text follows.
search_two-append :
    (x y : ℕ) (xs ys : Bytes) (n : ℕ)
    → search_two x y xs ≡ some n
    → search_two x y (xs ++ ys) ≡ some n
unfolding search_two
search_two-append x y [] ys n e = cc
search_two-append x y (a ∷ []) ys n e = cc
search_two-append x y (a ∷ c ∷ cs) ys n e = elim (Option-cases (search_two x y (c ∷ cs))) [
  | inl f ↦ ground (arith, e, f)
  | inr (j, f) ↦ ground (arith, e, f, search_two-append x y (c ∷ cs) ys j f)
]

-- What a move on a text tells of the move with more text behind it: all but that it is the same
-- where it goes on, comes to its end or fails; only where it waits or is short of a body can more
-- text change it.
abbrev pub Extends : HttpContext → Bytes → Bytes → Outcome Move → Outcome Move → Type 0
Extends c xs ys (returned (goes_on c1 zs)) o =
    (o ≡ returned (goes_on c1 (zs ++ ys)))
    × (length zs < length xs)
    × (c1.state ≢ got_all)
    × (c1.state ≢ expect_request_line)
Extends c xs ys (returned (stops true c1 zs)) o =
    ((c1.state ≡ got_all) × (o ≡ returned (stops true c1 (zs ++ ys)))) ⊎ ((c1 ≡ c) × (zs ≡ xs))
Extends c xs ys (returned (stops false c1 zs)) o = o ≡ returned (stops false c1 (zs ++ ys))
Extends c xs ys (returned starves) o =
    (o ≡ returned starves)
    ⊎ ((c1 : HttpContext) × (zs : Bytes) × (o ≡ returned (stops true c1 zs))
        × (length (c1.request).body + length zs ≡ length (xs ++ ys)))
Extends c xs ys (faulted e) o = o ≡ faulted e
Extends c xs ys running o = o ≡ running

accepted-Extends :
    (n time : ℕ) (c : HttpContext) (xs ys : Bytes) (p : Bool × HttpRequest)
    → n + 2 ≤ length xs
    → Extends c xs ys
        (returned (accepted time c xs n p))
        (returned (accepted time c (xs ++ ys) n p))
accepted-Extends n time c xs ys (true, r) h = (
  rw (drop-append_le (n + 2) xs ys h) refl,
  omega (arith, length-drop (n + 2) xs),
  λ e. cc,
  λ e. cc,
)
accepted-Extends n time c xs ys (false, r) h = refl

bind-Extends {ℓ} :
    {A : Type ℓ} (c : HttpContext) (xs ys : Bytes) (o : Outcome A) (f g : A → Outcome Move)
    → ((a : A) → Extends c xs ys (f a) (g a))
    → Extends c xs ys (o >>= f) (o >>= g)
bind-Extends c xs ys (returned a) f g h = h a
bind-Extends c xs ys (faulted e) f g h = refl
bind-Extends c xs ys running f g h = refl

request_line_move-Extends :
    (time : ℕ) (c : HttpContext) (xs ys : Bytes)
    → Extends c xs ys (request_line_move time c xs) (request_line_move time c (xs ++ ys))
unfolding request_line_move
request_line_move-Extends time c xs ys = elim (Option-cases (search_two b'\r' b'\n' xs)) [
  | inl e ↦ rw (e, request_line_move) (inr (refl, refl))
  | inr (n, e) ↦
      let bound : n + 2 ≤ length xs = search_two-bound b'\r' b'\n' xs n e in
      rw (e, request_line_move)
        (rw (search_two-append b'\r' b'\n' xs ys n e, request_line_move)
          (rw (take-append_le n xs ys (omega (arith, bound))) (
            bind-Extends c xs ys (process_request_line (take n xs) c.request) _ _
              (λ p. accepted-Extends n time c xs ys p bound))))
]

ended-Extends :
    (m : Method) (c : HttpContext) (xs ys zs : Bytes)
    → length zs < length xs
    → Extends c xs ys (returned (ended m c zs)) (returned (ended m c (zs ++ ys)))
ended-Extends post c xs ys zs h = (refl, h, λ e. cc, λ e. cc)
ended-Extends get c xs ys zs h = inl (refl, refl)
ended-Extends head c xs ys zs h = inl (refl, refl)
ended-Extends put c xs ys zs h = inl (refl, refl)
ended-Extends delete c xs ys zs h = inl (refl, refl)
ended-Extends invalid c xs ys zs h = inl (refl, refl)

headers_move-Extends :
    (c : HttpContext) (xs ys : Bytes)
    → c.state ≡ expect_headers
    → Extends c xs ys (returned (headers_move c xs)) (returned (headers_move c (xs ++ ys)))
unfolding headers_move
headers_move-Extends c xs ys s = elim (Option-cases (search_two b'\r' b'\n' xs)) [
  | inl e ↦ rw (e, headers_move) (inr (refl, refl))
  | inr (n, e) ↦
      let bound : n + 2 ≤ length xs = search_two-bound b'\r' b'\n' xs n e in
      let shorter : length (drop (n + 2) xs) < length xs =
        omega (arith, bound, length-drop (n + 2) xs) in
      elim (Option-cases (split_at b':' (take n xs))) [
        | inl f ↦
            rw (e, headers_move)
              (rw (search_two-append b'\r' b'\n' xs ys n e, headers_move)
                (rw (take-append_le n xs ys (omega (arith, bound))) (
                  rw (f, headers_move)
                    (rw (drop-append_le (n + 2) xs ys bound)
                      (ended-Extends c.request.method c xs ys _ shorter)))))
        | inr ((field, value), f) ↦
            rw (e, headers_move)
              (rw (search_two-append b'\r' b'\n' xs ys n e, headers_move)
                (rw (take-append_le n xs ys (omega (arith, bound))) (
                  rw (f, headers_move)
                    (rw (drop-append_le (n + 2) xs ys bound) (refl, shorter, λ k. cc, λ k. cc)))))
      ]
]

-- A body is cut off where it ends.
cut : (n : ℕ) (xs : Bytes) → n ≤ length xs → length (take n xs) + length (drop n xs) ≡ length xs
cut n xs h = sym (length-append (take n xs) (drop n xs)) ∙ ap length (take-append-drop n xs)

take_body-Extends :
    (len : ℤ) (c : HttpContext) (xs ys : Bytes)
    → Extends c xs ys (take_body len c xs) (take_body len c (xs ++ ys))
unfolding take_body
take_body-Extends (negsuc n) c xs ys = refl
take_body-Extends (pos n) c xs ys = elim (Bool-cases (leb n (length xs))) [
  | inl e ↦
      let bound : n ≤ length xs = ground (arith, e) in
      let more : leb n (length (xs ++ ys)) ≡ true = ground (arith, bound, length-append xs ys) in
      rw (e, take_body)
        (rw (more, take-append_le n xs ys bound, drop-append_le n xs ys bound) (inl (refl, refl)))
  | inr e ↦
      rw (e, take_body)
        (elim (Bool-cases (leb n (length (xs ++ ys)))) [
          | inl k ↦ rw (k, take_body) (inr (_, _, refl, cut n (xs ++ ys) (ground (arith, k))))
          | inr k ↦ rw (k, take_body) (inl refl)
        ])
]

pub move-Extends :
    (s : ParseState) (time : ℕ) (c : HttpContext) (xs ys : Bytes)
    → c.state ≡ s
    → s ≢ got_all
    → Extends c xs ys (move s time c xs) (move s time c (xs ++ ys))
unfolding move body_move
move-Extends expect_request_line time c xs ys e live = request_line_move-Extends time c xs ys
move-Extends expect_headers time c xs ys e live = headers_move-Extends c xs ys e
move-Extends expect_body time c xs ys e live =
    bind-Extends c xs ys (stoi (get_header (codes "Content-Length") c.request)) _ _
      (λ len. take_body-Extends len c xs ys)
move-Extends got_all time c xs ys e live = absurd (live refl)
