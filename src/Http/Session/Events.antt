-- ===== src/Http/Session/Events.antt =====
-- A session through the events of its loop, and how often it is closed.
use simple_http_server.Common.{
  ℕ, ◌≤◌, ◌≡◌, refl, sym, arith, ◌∙◌, subst, Bool, true, false, not, ◌&&◌, List, inl, inr,
  Bool-cases,
}
use simple_http_server.Common.Bytes.{Bytes}
use simple_http_server.Common.Outcome.{returned}
use simple_http_server.Net.Buffer.{ReadResult, WriteResult}
use simple_http_server.Net.Channel.{
  Channel, added, deleted, has_any, epoll_hup, epoll_in, epoll_err, epoll_out, read_event,
  handle_event, handle_event_with_guard, set_revents,
}
use simple_http_server.Net.Poller.{EPollPoller}
use simple_http_server.Net.Connection.{disconnected, new_connection, connect_established}
use simple_http_server.Net.Connection.Closing.{closings}
use simple_http_server.Http.Server.{Callback, Call}
use simple_http_server.Http.Session.{
  Session, perform, establish, dispatch, with_revents, handle_events,
}
use simple_http_server.Http.Session.Dispatch.{Fine, perform-IsOpenOrClosed, close_part}
use simple_http_server.Http.Session.Pieces.{Then}

-- What the kernel reports of a session: it is watched, and where it hangs up with nothing to read
-- there is no urgent data either.
pub record Reports (revents : ℕ) (s : Session) : Type 0 where
  pub watched : s.conn.watch.channel.index ≡ added
  pub urgent :
      has_any revents epoll_hup ≡ true
      → has_any revents epoll_in ≡ false
      → has_any revents read_event ≡ false

-- A conjunction that holds.
both : (a b f : Bool) → ((a && not b) && f) ≡ true → (a ≡ true) × (b ≡ false)
both a b f e = ground (arith, e)

none_called : (b f : Bool) → b ≡ false → (b && f) ≡ false
none_called b f e = rw e

-- The object tied to the channel exists.
alive : (ch : Channel) → handle_event true ch ≡ handle_event_with_guard ch
unfolding handle_event
alive ch = elim (Bool-cases ch.tied) [ inl e ↦ rw e refl | inr e ↦ rw e refl ]

handle_events-Fine :
    (callback : Callback) (write : Bytes → WriteResult) (readv : ℕ → ReadResult) (time revents : ℕ)
    (s : Session)
    → Reports revents s
    → closings s.conn.notes ≡ 0
    → Then Fine (handle_events callback write readv time revents s)
unfolding handle_events handle_event_with_guard set_revents
handle_events-Fine callback write readv time revents s k n =
    let ch = s.conn.watch.channel in
    let t = with_revents revents s in
    let guarded =
      close_part callback write readv time
        ((has_any revents epoll_hup && not (has_any revents epoll_in)) && ch.has_close_callback)
        (has_any revents epoll_err && ch.has_error_callback)
        (has_any revents read_event && ch.has_read_callback)
        (has_any revents epoll_out && ch.has_write_callback) t n k.watched
        (λ e. let (hup, no_in) = both _ _ _ e in none_called _ _ (k.urgent hup no_in)) in
    subst (λ es. Then Fine (dispatch callback write readv time es t))
      (sym (alive t.conn.watch.channel)) guarded

-- A session in the rounds of its loop, from the moment it is established: the handling of the
-- events that the poller has found, where it returns, and calls of the user.
pub data Rounds (callback : Callback) : Session → Type 0 where
  established :
      (address fd : ℕ)
      → (poller : EPollPoller) → Rounds callback (establish (new_connection address fd poller))
  handled :
      {s s1 : Session}
      → (write : Bytes → WriteResult) → (readv : ℕ → ReadResult) → (time revents : ℕ)
      → Reports revents s
      → handle_events callback write readv time revents s ≡ returned s1
      → Rounds callback s
      → Rounds callback s1
  user_calls :
      {s : Session}
      → (write : Bytes → WriteResult) → (made : List Call) → Rounds callback s
      → Rounds callback (record s { conn = perform write made s.conn })

Rounds-Fine : (callback : Callback) (s : Session) → Rounds callback s → Fine s
unfolding establish connect_established new_connection
Rounds-Fine callback _ (established address fd poller) = inl refl
Rounds-Fine callback _ (handled {s = s} {s1 = s1} write readv time revents k e r) =
    elim (Rounds-Fine callback s r) [
      | inl n ↦ subst (Then Fine) e (handle_events-Fine callback write readv time revents s k n)
      | inr over ↦ absurd (two_indices (sym k.watched ∙ over.unwatched))
    ]
  where
    two_indices : added ≡ deleted → ⊥
    two_indices e = cc
Rounds-Fine callback _ (user_calls {s = s} write made r) =
    perform-IsOpenOrClosed write made s.conn (Rounds-Fine callback s r)

-- Whatever rounds of its loop a session has gone through since it was established, with any
-- callback, and any calls of `send` and `shutdown` in the loop's thread, where the kernel reports
-- only what is watched and no urgent data with a hang-up that has nothing to read: the close
-- callback has been called once at most; and once it has been called, the kernel watches the
-- connection no more, and its state is `kDisconnected`.
pub Rounds-closings :
    (callback : Callback) (s : Session)
    → Rounds callback s
    → (closings s.conn.notes ≤ 1)
      × (closings s.conn.notes ≡ 1
          → (s.conn.watch.channel.index ≡ deleted) × (s.conn.state ≡ disconnected))
Rounds-closings callback s r = elim (Rounds-Fine callback s r) [
  | inl n ↦ (omega (arith, n), λ e. absurd (omega (arith, n, e)))
  | inr k ↦ (omega (arith, k.once), λ e. (k.unwatched, k.status))
]
