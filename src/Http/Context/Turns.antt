-- ===== src/Http/Context/Turns.antt =====
-- Single rounds of the parser, and the one that takes a body.
use simple_http_server.Common.{
  ℕ, suc, ◌+◌, ◌-◌, ◌≤◌, ◌≡◌, arith, ◌∙◌, sym, ap, true, false, ◌++◌, length, take, drop,
  length-append, take-append_le, take-take, take_of_length-le,
}
use simple_http_server.Common.Bytes.{Bytes}
use simple_http_server.Common.Outcome.{returned, pos}
use simple_http_server.Net.Buffer.{Buffer, retrieve_until}
use simple_http_server.Net.Buffer.View.{contents, length-contents}
use simple_http_server.Net.Buffer.Laws.{Holds, retrieve_until-Holds}
use simple_http_server.Http.Context.{HttpContext, got_all, Turn, set_body, turn_in, parse_loop}
use simple_http_server.Http.Context.Lines.{drop-length}

pub loop_more :
    (fuel time : ℕ) (c : HttpContext) (b : Buffer) (t : Turn)
    → turn_in c.state time c b ≡ returned t
    → t.has_more ≡ true
    → parse_loop (suc fuel) time c b ≡ parse_loop fuel time t.context t.buffer
unfolding parse_loop
loop_more fuel time c b t e h = rw (e, parse_loop) (rw h)

pub loop_done :
    (fuel time : ℕ) (c : HttpContext) (b : Buffer) (t : Turn)
    → turn_in c.state time c b ≡ returned t
    → t.has_more ≡ false
    → parse_loop (suc fuel) time c b ≡ returned (t.ok, t.context, t.buffer)
unfolding parse_loop
loop_done fuel time c b t e h = rw (e, parse_loop) (rw h)

-- All the body is in the buffer: it is taken as it stands.
pub set_body-Holds :
    (body rest : Bytes) (c : HttpContext) (b : Buffer)
    → Holds (body ++ rest) b
    → (b' : Buffer) × (set_body (pos (length body)) c b
        ≡ returned (record {
          has_more = false;
          ok = true;
          context = record { state = got_all; request = record (c.request) { body = body } };
          buffer = b';
        }))
      × Holds rest b'
unfolding set_body
set_body-Holds body rest c b v =
    let n = length body in
    let held = length-contents v.valid in
    let total : length (contents b) ≡ n + length rest =
      omega (arith, ap length v.holds, length-append body rest) in
    let text : take n (drop b.reader_index b.buffer) ≡ body =
      sym
        (take-take n (b.writer_index - b.reader_index) (drop b.reader_index b.buffer) (omega arith))
      ∙ ap (take n) v.holds
      ∙ take-append_le n body rest (omega arith)
      ∙ take_of_length-le n body (omega arith) in
    let gone : drop n (contents b) ≡ rest = ap (drop n) v.holds ∙ drop-length body rest in
    let inside : b.reader_index + n ≤ length b.buffer =
      omega (arith, v.valid.within, v.valid.ordered) in
    (
      retrieve_until (b.reader_index + n) b,
      ground (arith, text),
      rw gone at (retrieve_until-Holds n b v.valid (omega arith)),
    )
