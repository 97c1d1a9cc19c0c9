-- ===== src/Http/Session/Ready.antt =====
-- A session that has been established always has its context, and its reads end.
use simple_http_server.Common.{
  ℕ, ◌≤◌, ◌≡◌, ◌≢◌, refl, ◌∙◌, subst, true, List, [], ◌∷◌, ◌==◌, Option, some, none, length, inl,
  inr, Bool-cases,
}
use simple_http_server.Common.Bytes.{Bytes}
use simple_http_server.Common.Outcome.{Outcome, returned, faulted, running, ◌>>=◌, Settles, Ends}
use simple_http_server.Net.Buffer.{
  Buffer, ReadResult, got, read_error, WriteResult, offered, read_fd,
}
use simple_http_server.Net.Buffer.View.{IsValid}
use simple_http_server.Net.Buffer.Laws.{Fits}
use simple_http_server.Net.Buffer.Io.{Received, received}
use simple_http_server.Net.Connection.{TcpConnection, connect_established, handle_close}
use simple_http_server.Net.Connection
use simple_http_server.Net.Connection.Input.{send-input, shutdown-input, handle_write-input}
use simple_http_server.Http.Request.{HttpRequest}
use simple_http_server.Http.Response.{HttpResponse}
use simple_http_server.Http.Context.{HttpContext, got_all}
use simple_http_server.Http.Server.{Callback, Call, on_connection}
use simple_http_server.Http.Server.Ready.{IsReady, on_message-Ends}
use simple_http_server.Http.Session.{
  Session, perform, establish, http_message, close_event, after_read, read_event, write_event,
}

pub perform-input :
    (write : Bytes → WriteResult) (calls : List Call) (c : TcpConnection)
    → (perform write calls c).input ≡ c.input
unfolding perform
perform-input write [] c = refl
perform-input write (Call.send bytes ∷ calls) c =
    perform-input write calls (Connection.send write true bytes c) ∙ send-input write bytes c
perform-input write (Call.shutdown ∷ calls) c =
    perform-input write calls (Connection.shutdown write true c) ∙ shutdown-input write c

-- The parser is there, so that the `any_cast` of `onMessage` finds it; it is not at its end, and
-- the input buffer is valid.
abbrev pub HasContext : Session → Type 0
HasContext s = (c : HttpContext) × (s.context ≡ some c) × (c.state ≢ got_all) × IsValid s.conn.input

-- `readv` keeps to the room that this session offers it, and the address space suffices.
pub record Reading (readv : ℕ → ReadResult) (s : Session) : Type 0 where
  pub bounded :
      (bytes : Bytes)
      → readv (offered s.conn.input) ≡ got bytes
      → length bytes ≤ offered s.conn.input
  pub fits : Fits (offered s.conn.input) s.conn.input

-- What happens to a session, from the moment it is established: reads that return, writes, and
-- calls of the user.
pub data Life (callback : Callback) : Session → Type 0 where
  established : (c : TcpConnection) → IsValid c.input → Life callback (establish c)
  read :
      {s s1 : Session}
      → (write : Bytes → WriteResult) → (readv : ℕ → ReadResult) → (time : ℕ) → Reading readv s
      → read_event callback write readv time s ≡ returned s1
      → Life callback s
      → Life callback s1
  can_write :
      {s : Session}
      → (write : Bytes → WriteResult) → Life callback s
      → Life callback (write_event write s)
  user_calls :
      {s : Session}
      → (write : Bytes → WriteResult) → (made : List Call) → Life callback s
      → Life callback (record s { conn = perform write made s.conn })

made_calls :
    (write : Bytes → WriteResult) (c : TcpConnection)
    (o : Outcome (Option HttpContext × Buffer × List Call))
    → Ends IsReady o
    → Ends HasContext (
        o >>= λ r.
        returned (record { conn = perform write r.2 (record c { input = r.1 }); context = r.0 }))
made_calls write c (returned (none, b, calls)) h = absurd h
made_calls write c (returned (some p, b, calls)) h =
    (p, refl, h.0, rw (perform-input write calls (record c { input = b })) h.1)
made_calls write c (faulted e) h = tt
made_calls write c running h = absurd h

after_got :
    (callback : Callback) (write : Bytes → WriteResult) (time : ℕ) (bytes : Bytes) (c : HttpContext)
    (s : Session) (r : ReadResult × Option ℕ × Buffer)
    → ((q : HttpRequest) (p : HttpResponse) → Settles (callback q p))
    → s.context ≡ some c
    → c.state ≢ got_all
    → IsValid r.2
    → Ends HasContext (after_read callback write time s r (got bytes))
unfolding http_message close_event handle_close on_connection
after_got callback write time bytes c s r settles e live v = elim (Bool-cases (length bytes == 0)) [
  | inl over ↦ rw over (c, e, live, v)
  | inr some_bytes ↦
      rw (some_bytes, e)
        (made_calls write (record (s.conn) { input = r.2 }) _
          (on_message-Ends callback time c r.2 settles live v))
]

after_any :
    (callback : Callback) (write : Bytes → WriteResult) (time : ℕ) (c : HttpContext) (s : Session)
    (x : ReadResult) (r : ReadResult × Option ℕ × Buffer)
    → ((q : HttpRequest) (p : HttpResponse) → Settles (callback q p))
    → s.context ≡ some c
    → c.state ≢ got_all
    → IsValid s.conn.input
    → Received s.conn.input x r
    → Ends HasContext (after_read callback write time s r r.0)
after_any callback write time c s (got bytes) r settles e live v x =
    rw (x.0) (after_got callback write time bytes c s r settles e live x.2.valid)
after_any callback write time c s (read_error n) r settles e live v x = rw x (c, e, live, v)

read_event-HasContext :
    (callback : Callback) (write : Bytes → WriteResult) (readv : ℕ → ReadResult) (time : ℕ)
    (s : Session)
    → ((q : HttpRequest) (p : HttpResponse) → Settles (callback q p))
    → Reading readv s
    → HasContext s
    → Ends HasContext (read_event callback write readv time s)
unfolding read_event
read_event-HasContext callback write readv time s settles room (c, e, live, v) =
    after_any callback write time c s (readv (offered s.conn.input)) (read_fd readv s.conn.input)
      settles e live v
      (received readv s.conn.input (readv (offered s.conn.input)) refl room.bounded v room.fits)

Life-HasContext :
    (callback : Callback) (s : Session)
    → ((q : HttpRequest) (p : HttpResponse) → Settles (callback q p))
    → Life callback s
    → HasContext s
unfolding establish on_connection connect_established write_event
Life-HasContext callback _ settles (established c v) = (_, refl, (λ k. cc), v)
Life-HasContext callback _ settles (read {s = s} {s1 = s1} write readv time room e l) =
    subst (Ends HasContext) e (
      read_event-HasContext callback write readv time s settles room
        (Life-HasContext callback s settles l))
Life-HasContext callback _ settles (can_write {s = s} write l) =
    let (c, e, live, v) = Life-HasContext callback s settles l in
    (c, e, live, rw (handle_write-input write s.conn) v)
Life-HasContext callback _ settles (user_calls {s = s} write made l) =
    let (c, e, live, v) = Life-HasContext callback s settles l in
    (c, e, live, rw (perform-input write made s.conn) v)

-- Whatever a session has gone through since it was established: reads that returned, writes, calls
-- of `send` and `shutdown`; with a callback that always ends. Its context is there, so that the
-- `any_cast` of `onMessage` never gives a null pointer, the parser is not at its end and the input
-- buffer is valid. And the next read, of a `readv` that keeps to the room offered, with address
-- space left, is not caught in a loop: it stops with a fault, or returns a session with all that.
pub Life-reads :
    (callback : Callback) (s : Session) (write : Bytes → WriteResult) (readv : ℕ → ReadResult)
    (time : ℕ)
    → ((q : HttpRequest) (p : HttpResponse) → Settles (callback q p))
    → Life callback s
    → Reading readv s
    → HasContext s × Ends HasContext (read_event callback write readv time s)
Life-reads callback s write readv time settles l room =
    let has = Life-HasContext callback s settles l in
    (has, read_event-HasContext callback write readv time s settles room has)
