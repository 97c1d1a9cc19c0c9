-- ===== src/Http/Session/Pieces.antt =====
-- A request that comes in in several reads is answered once, when its last piece is there.
use simple_http_server.Common.{
  ℕ, ◌+◌, ◌^◌, ◌<◌, ◌≤◌, ◌≡◌, ◌≢◌, refl, sym, ap, subst, ◌∙◌, arith, ◌==◌, true, false, List, [],
  ◌∷◌, ◌++◌, Option, some, length, append-nil, append_assoc,
}
use simple_http_server.Common.Bytes.{Bytes}
use simple_http_server.Common.Outcome.{Outcome, returned, faulted, running, ◌>>=◌}
use simple_http_server.Net.Buffer.{Buffer, ReadResult, got, WriteResult, offered, read_fd, absorb}
use simple_http_server.Net.Buffer.View.{IsValid, contents}
use simple_http_server.Net.Buffer.Laws.{Holds, Fits}
use simple_http_server.Net.Buffer.Io.{absorb-Holds}
use simple_http_server.Net.Connection.{TcpConnection}
use simple_http_server.Http.Request.{HttpRequest}
use simple_http_server.Http.Response.{HttpResponse, new_response}
use simple_http_server.Http.Response.Render.{render}
use simple_http_server.Http.Context.{
  ParseState, expect_request_line, expect_headers, expect_body, got_all, HttpContext, fresh, reset,
  is_got_all, parse_request,
}
use simple_http_server.Http.Context.Text.{parse_text, text_loop}
use simple_http_server.Http.Context.Agreement.{Agrees, parse_request-Agrees}
use simple_http_server.Http.Context.RoundTrip.{complete}
use simple_http_server.Http.Context.Pieces.{Awaits, Awaits-Advances}
use simple_http_server.Http.Server.{Callback, Call, wants_close, respond, on_message}
use simple_http_server.Http.Server.Serve.{answer, on_request-answer}
use simple_http_server.Http.Session.{Session, perform, http_message, read_event}

-- What one read of the kernel brings, and the poller's time for it.
pub record Piece : Type 0 where
  pub time : ℕ
  pub bytes : Bytes

abbrev pub gives : Bytes → ℕ → ReadResult
gives bytes n = got bytes

abbrev pub reads : Callback → (Bytes → WriteResult) → List Piece → Session → Outcome Session
reads callback write [] s = returned s
reads callback write (p ∷ ps) s =
    read_event callback write (gives p.bytes) p.time s >>= reads callback write ps

abbrev pub joined : List Piece → Bytes
joined [] = []
joined (p ∷ ps) = p.bytes ++ joined ps

abbrev pub Then : (Session → Type 0) → Outcome Session → Type 0
Then P (returned s) = P s
Then P (faulted e) = Unit
Then P running = Unit

-- Each read brings something, no more than it offers room for, and the address space suffices.
abbrev pub HasRoom : Callback → (Bytes → WriteResult) → List Piece → Session → Type 0
HasRoom callback write [] s = Unit
HasRoom callback write (p ∷ ps) s =
    (p.bytes ≢ [])
    × (length p.bytes ≤ offered s.conn.input)
    × Fits (offered s.conn.input) s.conn.input
    × Then (HasRoom callback write ps) (read_event callback write (gives p.bytes) p.time s)

-- There is a piece, and behind each but the last more than `n` bytes are still to come.
abbrev pub CutsBefore : ℕ → List Piece → Type 0
CutsBefore n [] = ⊥
CutsBefore n (p ∷ []) = Unit
CutsBefore n (p ∷ q ∷ ps) = (n < length (joined (q ∷ ps))) × CutsBefore n (q ∷ ps)

not_over : (s : ParseState) → s ≢ got_all → is_got_all s ≡ false
not_over expect_request_line h = refl
not_over expect_headers h = refl
not_over expect_body h = refl
not_over got_all h = absurd (h refl)

-- The parser waits: nothing is sent.
on_message-waits :
    (callback : Callback) (time : ℕ) (c c1 : HttpContext) (b b1 : Buffer)
    → parse_request time c b ≡ returned (true, c1, b1)
    → c1.state ≢ got_all
    → on_message callback time (some c) b ≡ returned (some c1, b1, [])
unfolding on_message respond
on_message-waits callback time c c1 b b1 e live =
    ap (λ o. o >>= respond callback) e ∙ rw (not_over c1.state live)

-- The request is complete: the response is sent.
on_message_complete :
    (callback : Callback) (time : ℕ) (c : HttpContext) (b b1 : Buffer) (r : HttpRequest)
    (response : HttpResponse)
    → parse_request time c b ≡ returned (true, record { state = got_all; request = r }, b1)
    → callback r (new_response (wants_close r)) ≡ returned response
    → length (render response) < 2 ^ 31
    → on_message callback time (some c) b ≡ returned (some fresh, b1, answer response)
unfolding on_message respond reset
on_message_complete callback time c b b1 r response e answered small =
    ap (λ o. o >>= respond callback) e ∙ rw (on_request-answer callback r response answered small)

read_event_lem :
    (callback : Callback) (write : Bytes → WriteResult) (time : ℕ) (bytes : Bytes) (s : Session)
    → bytes ≢ []
    → read_event callback write (gives bytes) time s
      ≡ http_message callback write time
          (record s { conn = record (s.conn) { input = absorb bytes s.conn.input } })
unfolding read_event read_fd
read_event_lem callback write time [] s h = absurd (h refl)
read_event_lem callback write time (x ∷ bytes) s h =
    let some_bytes : (length (x ∷ bytes) == 0) ≡ false = ground arith in rw (some_bytes, read_event)

http_message_lem :
    (callback : Callback) (write : Bytes → WriteResult) (time : ℕ) (s : Session)
    (r : Option HttpContext × Buffer × List Call)
    → on_message callback time s.context s.conn.input ≡ returned r
    → http_message callback write time s
      ≡ returned
          (record { conn = perform write r.2 (record (s.conn) { input = r.1 }); context = r.0 })
unfolding http_message
http_message_lem callback write time s r e = rw e

-- All the pieces are read: the calls of the answer have been made on the connection, and nothing
-- else; the parser starts afresh and the tail is left in the input buffer.
abbrev pub Answered :
    (Bytes → WriteResult) → HttpResponse → Bytes → TcpConnection → Outcome Session → Type 0
Answered write response tail c o =
    (b : Buffer) × (o
      ≡ returned (record {
        conn = perform write (answer response) (record c { input = b });
        context = some fresh;
      }))
    × Holds tail b

-- A callback that answers the request, whenever it was received.
abbrev pub Answers : Callback → (ℕ → HttpRequest) → HttpResponse → Type 0
Answers callback r response =
    (time : ℕ) → callback (r time) (new_response (wants_close (r time))) ≡ returned response

pub last_piece :
    (callback : Callback) (write : Bytes → WriteResult) (r : ℕ → HttpRequest) (tail : Bytes)
    (response : HttpResponse) (time : ℕ) (bytes : Bytes) (conn : TcpConnection) (c : HttpContext)
    → IsValid conn.input
    → Awaits r tail (bytes ++ []) c (contents conn.input)
    → Answers callback r response
    → length (render response) < 2 ^ 31
    → bytes ≢ []
    → length bytes ≤ offered conn.input
    → Fits (offered conn.input) conn.input
    → Answered write response tail conn
        (read_event callback write (gives bytes) time (record { conn = conn; context = some c }))
last_piece callback write r tail response time bytes conn c v a answers small h room fits =
    let b = conn.input in
    let xs = contents b ++ bytes in
    let held = absorb-Holds bytes b v (omega arith) in
    let (s, e) = a time in
    let whole : parse_text time c xs ≡ complete (r s) tail =
      unfold parse_text in
      subst
        (λ ys.
          text_loop (length (contents b ++ ys) + 2) time c (contents b ++ ys) ≡ complete (r s) tail)
        (append-nil bytes) e in
    let (b', parsed, left) =
      subst (λ p. Agrees p (parse_request time c (absorb bytes b))) whole
        (parse_request-Agrees time c xs (absorb bytes b) held) in
    (
      b',
      read_event_lem callback write time bytes (record { conn = conn; context = some c }) h
          ∙ http_message_lem callback write time
              (record { conn = record conn { input = absorb bytes b }; context = some c })
              (some fresh, b', answer response)
              (on_message_complete callback time c (absorb bytes b) b' (r s) response parsed
                (answers s) small),
      left,
    )

-- A piece behind which more is to come than the body and the tail: the parser waits for the rest,
-- and nothing but the input buffer has changed.
pub record Carried (r : ℕ → HttpRequest) (tail missing : Bytes) (conn : TcpConnection)
    (o : Outcome Session) : Type 0 where
  pub context : HttpContext
  pub input : Buffer
  pub carried :
      o ≡ returned (record { conn = record conn { input = input }; context = some context })
  pub valid : IsValid input
  pub live : context.state ≢ got_all
  pub awaits : Awaits r tail missing context (contents input)

pub middle_piece :
    (callback : Callback) (write : Bytes → WriteResult) (r : ℕ → HttpRequest) (body tail : Bytes)
    (time : ℕ) (bytes missing : Bytes) (conn : TcpConnection) (c : HttpContext)
    → IsValid conn.input
    → c.state ≢ got_all
    → Awaits r tail (bytes ++ missing) c (contents conn.input)
    → ((t : ℕ) → (r t).body ≡ body)
    → length body + length tail < length missing
    → bytes ≢ []
    → length bytes ≤ offered conn.input
    → Fits (offered conn.input) conn.input
    → Carried r tail missing conn
        (read_event callback write (gives bytes) time (record { conn = conn; context = some c }))
unfolding perform
middle_piece callback write r body tail time bytes missing conn c v live a sized short h room fits =
    let b = conn.input in
    let xs = contents b ++ bytes in
    let b1 = absorb bytes b in
    let held = absorb-Holds bytes b v (omega arith) in
    let a1 : Awaits r tail missing c xs = λ t.
      subst (λ ys. (s : ℕ) × (text_loop (length ys + 2) t c ys ≡ complete (r s) tail))
        (sym (append_assoc (contents b) bytes missing)) (a t) in
    let w = Awaits-Advances r body tail xs missing c time sized live short a1 in
    let (b2, parsed, left) =
      subst (λ p. Agrees p (parse_request time c b1)) (w.waits).stopped
        (unfold parse_text in parse_request-Agrees time c xs b1 held) in
    record {
      context = (w.waits).context;
      input = b2;
      carried =
          read_event_lem callback write time bytes (record { conn = conn; context = some c }) h
          ∙ http_message_lem callback write time
              (record { conn = record conn { input = b1 }; context = some c })
              (some (w.waits).context, b2, [])
              (on_message-waits callback time c (w.waits).context b1 b2 parsed (w.waits).live);
      valid = left.valid;
      live = (w.waits).live;
      awaits = rw (left.holds) w.awaits;
    }
