-- ===== src/Http/Context/Pieces.antt =====
-- A request that has come in only in part: where the parser waits, and what it then waits for.
use simple_http_server.Common.{
  ℕ, zero, suc, ◌+◌, ◌<◌, ◌≡◌, ◌≢◌, ◌⊎◌, refl, sym, ap, ap₂, ◌∙◌, arith, true, false, ◌++◌, some,
  inl, inr, length, length-append,
}
use simple_http_server.Common.Bytes.{Bytes}
use simple_http_server.Common.Outcome.{Outcome, returned, faulted, running, ◌>>=◌}
use simple_http_server.Http.Request.{HttpRequest}
use simple_http_server.Http.Context.{expect_request_line, got_all, HttpContext}
use simple_http_server.Http.Context.Text.{
  Move, goes_on, stops, starves, move, Parsed, follow, text_loop,
}
use simple_http_server.Http.Context.Prefix.{Extends, move-Extends}
use simple_http_server.Http.Context.Chunks.{text_loop-append, context_of, text_of}
use simple_http_server.Http.Context.Timeless.{text_loop_timeless, moved}
use simple_http_server.Http.Context.RoundTrip.{complete}

-- The parse of a text stops with the parser not at its end.
pub record Waits (o : Outcome Parsed) : Type 0 where
  pub context : HttpContext
  pub left : Bytes
  pub stopped : o ≡ returned (some (true, context, left))
  pub live : context.state ≢ got_all

request_of : HttpContext → HttpRequest
request_of c = c.request

-- What is complete is as long as the text that was left to it.
whole_length :
    (r : HttpRequest) (c : HttpContext) (tail xs : Bytes)
    → ◌≡◌ {A = Outcome Parsed} (returned (some (true, c, xs))) (complete r tail)
    → length (c.request).body + length xs ≡ length r.body + length tail
whole_length r c tail xs e =
    ap₂ (λ (d : HttpContext) (t : Bytes). length (d.request).body + length t) (ap (context_of c) e)
      (ap text_of e)

follow-Waits :
    (fuel f time : ℕ) (c : HttpContext) (xs ys tail : Bytes) (r : HttpRequest) (m o : Outcome Move)
    → c.state ≢ got_all
    → length r.body + length tail < length ys
    → Extends c xs ys m o
    → ((c1 : HttpContext) (zs : Bytes)
        → c1.state ≢ got_all
        → length zs < length xs
        → text_loop f time c1 (zs ++ ys) ≡ complete r tail
        → Waits (text_loop fuel time c1 zs))
    → (o >>= follow (text_loop f time)) ≡ complete r tail
    → Waits (m >>= follow (text_loop fuel time))
follow-Waits fuel f time c xs ys tail r (returned (goes_on c1 zs)) o live h x again e =
    again c1 zs x.2 x.1 (ap (λ p. p >>= follow (text_loop f time)) (sym x.0) ∙ e)
follow-Waits fuel f time c xs ys tail r (returned (stops true c1 zs)) o live h x again e = elim x [
  | inl (over, same) ↦
      let end =
        whole_length r c1 tail (zs ++ ys)
          (ap (λ p. p >>= follow (text_loop f time)) (sym same) ∙ e) in
      absurd (omega (arith, end, length-append zs ys))
  | inr (same, all) ↦ record {
    context = c1;
    left = zs;
    stopped = refl;
    live = λ k. live (ap (λ (d : HttpContext). d.state) (sym same) ∙ k);
  }
]
follow-Waits fuel f time c xs ys tail r (returned (stops false c1 zs)) o live h x again e = cc
follow-Waits fuel f time c xs ys tail r (returned starves) o live h x again e = elim x [
  | inl same ↦ cc
  | inr (c1, zs, same, total) ↦
      let end =
        whole_length r c1 tail zs (ap (λ p. p >>= follow (text_loop f time)) (sym same) ∙ e) in
      absurd (omega (arith, end, total, length-append xs ys))
]
follow-Waits fuel f time c xs ys tail r (faulted err) o live h x again e = cc
follow-Waits fuel f time c xs ys tail r running o live h x again e = cc

-- Where the text with more behind it is a complete request, and the more is longer than the body
-- and what follows it, the text alone makes the parser wait.
pub text_loop-Waits :
    (fuel f time : ℕ) (c : HttpContext) (xs ys tail : Bytes) (r : HttpRequest)
    → c.state ≢ got_all
    → length xs < fuel
    → length r.body + length tail < length ys
    → text_loop f time c (xs ++ ys) ≡ complete r tail
    → Waits (text_loop fuel time c xs)
unfolding text_loop
text_loop-Waits zero f time c xs ys tail r live k h e = absurd (omega arith)
text_loop-Waits (suc fuel) zero time c xs ys tail r live k h e = cc
text_loop-Waits (suc fuel) (suc f) time c xs ys tail r live k h e =
    follow-Waits fuel f time c xs ys tail r (move c.state time c xs)
      (move c.state time c (xs ++ ys)) live h (move-Extends c.state time c xs ys refl live)
      (λ c1 zs on shorter e2. text_loop-Waits fuel f time c1 zs ys tail r on (omega arith) h e2) e

-- With these bytes behind it, what has come in is a complete request with these fields, received
-- at whatever time, and this tail.
abbrev pub Awaits : (ℕ → HttpRequest) → Bytes → Bytes → HttpContext → Bytes → Type 0
Awaits r tail missing c xs =
    (time : ℕ)
    → (s : ℕ) × (text_loop (length (xs ++ missing) + 2) time c (xs ++ missing)
        ≡ complete (r s) tail)

-- A piece comes in which leaves more bytes missing than the body has, and the tail: the parser
-- waits for the rest.
pub record Advances (r : ℕ → HttpRequest) (tail missing : Bytes) (o : Outcome Parsed) : Type 0 where
  pub waits : Waits o
  pub awaits : Awaits r tail missing waits.context waits.left

Awaits-context :
    (r : ℕ → HttpRequest) (tail xs missing : Bytes) (c : HttpContext) (time : ℕ)
    → c.state ≢ got_all
    → Awaits r tail missing c xs
    → (w : Waits (text_loop (length xs + 2) time c xs))
    → ((w.context ≡ c) × (w.left ≡ xs)) ⊎ (w.context.state ≢ expect_request_line)
    → Awaits r tail missing w.context w.left
Awaits-context r tail xs missing c time live a w (inl (same, all)) later = rw (same, all) (a later)
Awaits-context r tail xs missing c time live a w (inr past) later =
    let (s, e) = a time in
    let rest = w.left ++ missing in
    (
      s,
      text_loop_timeless (length rest + 2) later time w.context rest w.live past
          ∙ sym (
              text_loop-append (length xs + 2) (length (xs ++ missing) + 2) (length rest + 2) time c
                w.context xs missing w.left live w.live (omega arith) (omega arith) w.stopped)
          ∙ e,
    )

pub Awaits-Advances :
    (r : ℕ → HttpRequest) (body tail xs missing : Bytes) (c : HttpContext) (time : ℕ)
    → ((s : ℕ) → (r s).body ≡ body)
    → c.state ≢ got_all
    → length body + length tail < length missing
    → Awaits r tail missing c xs
    → Advances r tail missing (text_loop (length xs + 2) time c xs)
Awaits-Advances r body tail xs missing c time sized live h a =
    let (s, e) = a time in
    let w =
      text_loop-Waits (length xs + 2) (length (xs ++ missing) + 2) time c xs missing tail (r s) live
        (omega arith) (omega (arith, h, ap length (sized s))) e in
    record {
      waits = w;
      awaits =
          Awaits-context r tail xs missing c time live a w
            (moved (length xs + 2) time c w.context xs w.left live w.live w.stopped);
    }
