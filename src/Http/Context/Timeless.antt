-- ===== src/Http/Context/Timeless.antt =====
-- The time of receipt: only the request line looks at it.
use simple_http_server.Common.{
  ℕ, zero, suc, ◌≡◌, ◌≢◌, ◌⊎◌, refl, sym, ap, ◌∙◌, true, false, [], some, inl, inr,
}
use simple_http_server.Common.Bytes.{Bytes}
use simple_http_server.Common.Outcome.{Outcome, returned, faulted, running, ◌>>=◌}
use simple_http_server.Http.Context.{
  ParseState, expect_request_line, expect_headers, expect_body, got_all, HttpContext,
}
use simple_http_server.Http.Context.Text.{Move, goes_on, stops, starves, move, follow, text_loop}
use simple_http_server.Http.Context.Prefix.{Extends, move-Extends}
use simple_http_server.Http.Context.Chunks.{context_of, text_of}

-- Only the request line looks at the time.
move_timeless :
    (s : ParseState) (t1 t2 : ℕ) (c : HttpContext) (xs : Bytes)
    → s ≢ expect_request_line
    → move s t1 c xs ≡ move s t2 c xs
unfolding move
move_timeless expect_request_line t1 t2 c xs h = absurd (h refl)
move_timeless expect_headers t1 t2 c xs h = refl
move_timeless expect_body t1 t2 c xs h = refl
move_timeless got_all t1 t2 c xs h = refl

follow_timeless :
    (fuel t1 t2 : ℕ) (c : HttpContext) (xs : Bytes) (m o : Outcome Move)
    → Extends c xs [] m o
    → ((c1 : HttpContext) (zs : Bytes)
        → c1.state ≢ got_all
        → c1.state ≢ expect_request_line
        → text_loop fuel t1 c1 zs ≡ text_loop fuel t2 c1 zs)
    → (m >>= follow (text_loop fuel t1)) ≡ (m >>= follow (text_loop fuel t2))
follow_timeless fuel t1 t2 c xs (returned (goes_on c1 zs)) o x again = again c1 zs x.2 x.3
follow_timeless fuel t1 t2 c xs (returned (stops ok c1 zs)) o x again = refl
follow_timeless fuel t1 t2 c xs (returned starves) o x again = refl
follow_timeless fuel t1 t2 c xs (faulted e) o x again = refl
follow_timeless fuel t1 t2 c xs running o x again = refl

pub text_loop_timeless :
    (fuel t1 t2 : ℕ) (c : HttpContext) (xs : Bytes)
    → c.state ≢ got_all
    → c.state ≢ expect_request_line
    → text_loop fuel t1 c xs ≡ text_loop fuel t2 c xs
unfolding text_loop
text_loop_timeless zero t1 t2 c xs live past = refl
text_loop_timeless (suc fuel) t1 t2 c xs live past =
    ap (λ o. o >>= follow (text_loop fuel t1)) (move_timeless c.state t1 t2 c xs past)
    ∙ follow_timeless fuel t1 t2 c xs (move c.state t2 c xs) _
        (move-Extends c.state t2 c xs [] refl live)
        (λ c1 zs on behind. text_loop_timeless fuel t1 t2 c1 zs on behind)

-- A parser that waits is as it was, or it is behind the request line.
follow_moved :
    (fuel time : ℕ) (c c1 : HttpContext) (xs rest : Bytes) (m o : Outcome Move)
    → c1.state ≢ got_all
    → Extends c xs [] m o
    → ((c2 : HttpContext) (zs : Bytes)
        → c2.state ≢ got_all
        → c2.state ≢ expect_request_line
        → text_loop fuel time c2 zs ≡ returned (some (true, c1, rest))
        → c1.state ≢ expect_request_line)
    → (m >>= follow (text_loop fuel time)) ≡ returned (some (true, c1, rest))
    → ((c1 ≡ c) × (rest ≡ xs)) ⊎ (c1.state ≢ expect_request_line)
follow_moved fuel time c c1 xs rest (returned (goes_on c2 zs)) o waits x again e =
    inr (again c2 zs x.2 x.3 e)
follow_moved fuel time c c1 xs rest (returned (stops true c2 zs)) o waits x again e =
    let here : c2 ≡ c1 = ap (context_of c2) e in
    elim x [
      | inl over ↦ absurd (waits (ap (λ (d : HttpContext). d.state) (sym here) ∙ over.0))
      | inr (same, all) ↦ inl (sym here ∙ same, sym (ap text_of e) ∙ all)
    ]
follow_moved fuel time c c1 xs rest (returned (stops false c2 zs)) o waits x again e = cc
follow_moved fuel time c c1 xs rest (returned starves) o waits x again e = cc
follow_moved fuel time c c1 xs rest (faulted err) o waits x again e = cc
follow_moved fuel time c c1 xs rest running o waits x again e = cc

pub moved :
    (fuel time : ℕ) (c c1 : HttpContext) (xs rest : Bytes)
    → c.state ≢ got_all
    → c1.state ≢ got_all
    → text_loop fuel time c xs ≡ returned (some (true, c1, rest))
    → ((c1 ≡ c) × (rest ≡ xs)) ⊎ (c1.state ≢ expect_request_line)
unfolding text_loop
moved zero time c c1 xs rest live waits e = cc
moved (suc fuel) time c c1 xs rest live waits e =
    follow_moved fuel time c c1 xs rest (move c.state time c xs) _ waits
      (move-Extends c.state time c xs [] refl live)
      (λ c2 zs on past e2. elim (moved fuel time c2 c1 zs rest on waits e2) [
        | inl (same, all) ↦ λ k. past (ap (λ (d : HttpContext). d.state) (sym same) ∙ k)
        | inr behind ↦ behind
      ])
      e
