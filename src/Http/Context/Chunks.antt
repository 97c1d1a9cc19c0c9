-- ===== src/Http/Context/Chunks.antt =====
-- Text that comes in pieces: the text that follows changes nothing before the place where the
-- parser waits.
use simple_http_server.Common.{
  ℕ, zero, suc, ◌<◌, ◌≡◌, ◌≢◌, refl, sym, ap, ap₂, subst, ◌∙◌, arith, true, false, [], ◌++◌, some,
  inl, inr, length, length-append,
}
use simple_http_server.Common.Bytes.{Bytes}
use simple_http_server.Common.Outcome.{Outcome, returned, faulted, running, ◌>>=◌}
use simple_http_server.Http.Context.{got_all, HttpContext}
use simple_http_server.Http.Context.Text.{
  Move, goes_on, stops, starves, move, Parsed, follow, text_loop,
}
use simple_http_server.Http.Context.Prefix.{Extends, move-Extends}

-- A text parser that is not at its end has fuel enough as soon as it has more than there are bytes.
pub follow_more :
    (fuel time : ℕ) (c c1 : HttpContext) (xs zs : Bytes)
    → move c.state time c xs ≡ returned (goes_on c1 zs)
    → text_loop (suc fuel) time c xs ≡ text_loop fuel time c1 zs
unfolding text_loop
follow_more fuel time c c1 xs zs e = ap (λ m. m >>= follow (text_loop fuel time)) e

follow-fuel :
    (f g time : ℕ) (c : HttpContext) (xs : Bytes) (m o : Outcome Move)
    → Extends c xs [] m o
    → ((c1 : HttpContext) (zs : Bytes)
        → c1.state ≢ got_all
        → length zs < length xs
        → text_loop f time c1 zs ≡ text_loop g time c1 zs)
    → (m >>= follow (text_loop f time)) ≡ (m >>= follow (text_loop g time))
follow-fuel f g time c xs (returned (goes_on c1 zs)) o x again = again c1 zs x.2 x.1
follow-fuel f g time c xs (returned (stops ok c1 zs)) o x again = refl
follow-fuel f g time c xs (returned starves) o x again = refl
follow-fuel f g time c xs (faulted e) o x again = refl
follow-fuel f g time c xs running o x again = refl

text_loop-fuel :
    (f g time : ℕ) (c : HttpContext) (xs : Bytes)
    → c.state ≢ got_all
    → length xs < f
    → length xs < g
    → text_loop f time c xs ≡ text_loop g time c xs
unfolding text_loop
text_loop-fuel zero g time c xs live h k = absurd (omega arith)
text_loop-fuel (suc f) zero time c xs live h k = absurd (omega arith)
text_loop-fuel (suc f) (suc g) time c xs live h k =
    follow-fuel f g time c xs (move c.state time c xs) _
      (move-Extends c.state time c xs [] refl live)
      (λ c1 zs on shorter. text_loop-fuel f g time c1 zs on (omega arith) (omega arith))

abbrev pub context_of : HttpContext → Outcome Parsed → HttpContext
context_of d (returned (some (ok, c, xs))) = c
context_of d _ = d

abbrev pub text_of : Outcome Parsed → Bytes
text_of (returned (some (ok, c, xs))) = xs
text_of _ = []

-- The text that follows changes nothing before the place where the parser waits.
follow-append :
    (fuel f g time : ℕ) (c c1 : HttpContext) (xs ys rest : Bytes) (m : Outcome Move)
    → c1.state ≢ got_all
    → length (xs ++ ys) < suc f
    → length (rest ++ ys) < g
    → Extends c xs ys m (move c.state time c (xs ++ ys))
    → ((c2 : HttpContext) (zs : Bytes)
        → c2.state ≢ got_all
        → length (zs ++ ys) < f
        → text_loop fuel time c2 zs ≡ returned (some (true, c1, rest))
        → text_loop f time c2 (zs ++ ys) ≡ text_loop g time c1 (rest ++ ys))
    → (m >>= follow (text_loop fuel time)) ≡ returned (some (true, c1, rest))
    → text_loop (suc f) time c (xs ++ ys) ≡ text_loop g time c1 (rest ++ ys)
follow-append fuel f g time c c1 xs ys rest (returned (goes_on c2 zs)) waits h k x again e =
    follow_more f time c c2 (xs ++ ys) (zs ++ ys) x.0
    ∙ again c2 zs x.2 (omega (arith, h, x.1, length-append zs ys, length-append xs ys)) e
follow-append fuel f g time c c1 xs ys rest (returned (stops true c2 zs)) waits h k x again e =
    let here : c2 ≡ c1 = ap (context_of c2) e in
    elim x [
      | inl over ↦ absurd (waits (ap (λ (d : HttpContext). d.state) (sym here) ∙ over.0))
      | inr (same, all) ↦
          let left : xs ≡ rest = sym all ∙ ap text_of e in
          ap₂ (λ d t. text_loop (suc f) time d (t ++ ys)) (sym same ∙ here) left
          ∙ text_loop-fuel (suc f) g time c1 (rest ++ ys) waits
              (subst (λ t. length (t ++ ys) < suc f) left h) k
    ]
follow-append fuel f g time c c1 xs ys rest (returned (stops false c2 zs)) waits h k x again e = cc
follow-append fuel f g time c c1 xs ys rest (returned starves) waits h k x again e = cc
follow-append fuel f g time c c1 xs ys rest (faulted err) waits h k x again e = cc
follow-append fuel f g time c c1 xs ys rest running waits h k x again e = cc

pub text_loop-append :
    (fuel f g time : ℕ) (c c1 : HttpContext) (xs ys rest : Bytes)
    → c.state ≢ got_all
    → c1.state ≢ got_all
    → length (xs ++ ys) < f
    → length (rest ++ ys) < g
    → text_loop fuel time c xs ≡ returned (some (true, c1, rest))
    → text_loop f time c (xs ++ ys) ≡ text_loop g time c1 (rest ++ ys)
unfolding text_loop
text_loop-append zero f g time c c1 xs ys rest live waits h k e = cc
text_loop-append (suc fuel) zero g time c c1 xs ys rest live waits h k e = absurd (omega arith)
text_loop-append (suc fuel) (suc f) g time c c1 xs ys rest live waits h k e =
    follow-append fuel f g time c c1 xs ys rest (move c.state time c xs) waits h k
      (move-Extends c.state time c xs ys refl live)
      (λ c2 zs on short e2. text_loop-append fuel f g time c2 c1 zs ys rest on waits short k e2) e
