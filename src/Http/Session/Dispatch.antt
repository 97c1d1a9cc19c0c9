-- ===== src/Http/Session/Dispatch.antt =====
-- The parts of `handleEventWithGuard` on a session, and how often each closes it.
use simple_http_server.Common.{
  ℕ, ◌≡◌, refl, Bool, true, false, ◌==◌, List, [], ◌∷◌, ◌++◌, Option, inl, inr, Bool-cases, length,
  if◌then◌else◌,
}
use simple_http_server.Common.Bytes.{Bytes}
use simple_http_server.Common.Outcome.{Outcome, returned, faulted, running, ◌>>=◌}
use simple_http_server.Net.Buffer.{Buffer, ReadResult, got, read_error, WriteResult, read_fd}
use simple_http_server.Net.Channel.{added, Event, close, error, read}
use simple_http_server.Net.Connection.{
  TcpConnection, disconnected, new_connection, connect_established, handle_close,
}
use simple_http_server.Net.Connection
use simple_http_server.Net.Connection.Closing.{
  closings, IsOpenOrClosed, send-IsOpenOrClosed, shutdown-IsOpenOrClosed, handle_close-IsClosed,
  handle_write-IsOpenOrClosed,
}
use simple_http_server.Http.Context.{HttpContext}
use simple_http_server.Http.Server.{Callback, Call}
use simple_http_server.Http.Session.{
  Session, perform, establish, http_message, close_event, with_input, after_read, write_event,
  on_event, dispatch, with_revents, handle_events,
}
use simple_http_server.Http.Session
use simple_http_server.Http.Session.Pieces.{Then}

abbrev pub Fine : Session → Type 0
Fine s = IsOpenOrClosed s.conn

bind-Then :
    (P Q : Session → Type 0) (o : Outcome Session) (f : Session → Outcome Session)
    → Then P o
    → ((s : Session) → P s → Then Q (f s))
    → Then Q (o >>= f)
bind-Then P Q (returned s) f h k = k s h
bind-Then P Q (faulted e) f h k = tt
bind-Then P Q running f h k = tt

pub perform-IsOpenOrClosed :
    (write : Bytes → WriteResult) (calls : List Call) (c : TcpConnection)
    → IsOpenOrClosed c
    → IsOpenOrClosed (perform write calls c)
unfolding perform
perform-IsOpenOrClosed write [] c h = h
perform-IsOpenOrClosed write (Call.send bytes ∷ calls) c h =
    perform-IsOpenOrClosed write calls (Connection.send write true bytes c)
      (send-IsOpenOrClosed write bytes c h)
perform-IsOpenOrClosed write (Call.shutdown ∷ calls) c h =
    perform-IsOpenOrClosed write calls (Connection.shutdown write true c)
      (shutdown-IsOpenOrClosed write c h)

made_calls :
    (write : Bytes → WriteResult) (c : TcpConnection)
    (o : Outcome (Option HttpContext × Buffer × List Call))
    → closings c.notes ≡ 0
    → Then Fine (
        o >>= λ r.
        returned (record { conn = perform write r.2 (record c { input = r.1 }); context = r.0 }))
made_calls write c (returned (context, b, calls)) n =
    perform-IsOpenOrClosed write calls (record c { input = b }) (inl n)
made_calls write c (faulted e) n = tt
made_calls write c running n = tt

-- A read, on a connection that is watched and has not been closed.
after_read-Fine :
    (callback : Callback) (write : Bytes → WriteResult) (time : ℕ) (s : Session)
    (r : ReadResult × Option ℕ × Buffer) (x : ReadResult)
    → closings s.conn.notes ≡ 0
    → s.conn.watch.channel.index ≡ added
    → Then Fine (after_read callback write time s r x)
unfolding http_message close_event
after_read-Fine callback write time s r (read_error e) n i = inl n
after_read-Fine callback write time s r (got bytes) n i = elim (Bool-cases (length bytes == 0)) [
  | inl over ↦ rw over (inr (handle_close-IsClosed (with_input s r).conn n i))
  | inr some_bytes ↦ rw some_bytes (made_calls write (with_input s r).conn _ n)
]

-- The four parts of `handleEventWithGuard`, the last first.
module _ (callback : Callback) (write : Bytes → WriteResult) (readv : ℕ → ReadResult)
    (time : ℕ) where
  write_part :
      (w : Bool) (s : Session)
      → Fine s
      → Then Fine (dispatch callback write readv time (if w then Event.write ∷ [] else []) s)
  unfolding dispatch on_event write_event
  write_part true s h = handle_write-IsOpenOrClosed write s.conn h
  write_part false s h = h

  read_part :
      (r w : Bool) (s : Session)
      → closings s.conn.notes ≡ 0
      → s.conn.watch.channel.index ≡ added
      → Then Fine (
          dispatch callback write readv time
            ((if r then read ∷ [] else []) ++ (if w then Event.write ∷ [] else []))
            s)
  unfolding dispatch on_event
  read_part true w s n i =
      bind-Then Fine Fine (Session.read_event callback write readv time s) _
        (unfold Session.read_event in
          after_read-Fine callback write time s (read_fd readv s.conn.input)
            ((read_fd readv s.conn.input).0) n i)
        (λ t h. write_part w t h)
  read_part false w s n i = write_part w s (inl n)

  error_part :
      (e : Bool) (es : List Event) (s : Session)
      → Then Fine (dispatch callback write readv time es s)
      → Then Fine (dispatch callback write readv time ((if e then error ∷ [] else []) ++ es) s)
  unfolding dispatch on_event
  error_part true es s h = h
  error_part false es s h = h

  -- Where the close callback is called, the read callback is not.
  pub close_part :
      (c e r w : Bool) (s : Session)
      → closings s.conn.notes ≡ 0
      → s.conn.watch.channel.index ≡ added
      → (c ≡ true → r ≡ false)
      → Then Fine (
          dispatch callback write readv time
            ((if c then close ∷ [] else [])
              ++ ((if e then error ∷ [] else [])
                  ++ ((if r then read ∷ [] else []) ++ (if w then Event.write ∷ [] else []))))
            s)
  unfolding dispatch on_event close_event
  close_part true e r w s n i apart = rw (apart refl) (
      error_part e (if w then Event.write ∷ [] else []) (close_event s)
        (write_part w (close_event s) (inr (handle_close-IsClosed s.conn n i))))
  close_part false e r w s n i apart =
      error_part e ((if r then read ∷ [] else []) ++ (if w then Event.write ∷ [] else [])) s
        (read_part r w s n i)
