-- ===== src/Http/Session.antt =====
-- An HTTP connection as a whole: the TcpConnection of mymuduo/net with the callbacks that
-- mymuduo/http/HttpServer.cpp sets, in the connection's own loop thread. `handle_read` takes bytes
-- in, `on_message` parses them, and the calls that it lists are made on the same connection.
pub mod Pieces
pub mod Reads
pub mod Dispatch
pub mod Events
pub mod Conversation
pub mod Ready
use simple_http_server.Common.{
  ℕ, true, false, List, [], ◌∷◌, Option, none, ◌==◌, length, if◌then◌else◌,
}
use simple_http_server.Common.Bytes.{Bytes}
use simple_http_server.Common.Outcome.{Outcome, returned, ◌>>=◌}
use simple_http_server.Net.Buffer.{Buffer, ReadResult, got, read_error, WriteResult, read_fd}
use simple_http_server.Net.Channel.{Event, close, error, read, handle_event, set_revents}
use simple_http_server.Net.Connection.{
  TcpConnection, connect_established, handle_close, handle_write,
}
use simple_http_server.Net.Connection
use simple_http_server.Http.Context.{HttpContext}
use simple_http_server.Http.Server.{Callback, Call, send, shutdown, on_connection, on_message}

-- The context of the connection is what its `std::any` holds.
pub record Session : Type 0 where
  pub conn : TcpConnection
  pub context : Option HttpContext

-- The calls on the connection, in their order.
unfoldable pub perform : (Bytes → WriteResult) → List Call → TcpConnection → TcpConnection
perform write [] c = c
perform write (send bytes ∷ calls) c = perform write calls (Connection.send write true bytes c)
perform write (shutdown ∷ calls) c = perform write calls (Connection.shutdown write true c)

-- `connectEstablished`, which calls `HttpServer::onConnection`.
unfoldable pub establish : TcpConnection → Session
unfolding connect_established on_connection
establish c = record { conn = connect_established c; context = on_connection true none }

-- The message callback: `HttpServer::onMessage` on the input buffer of the connection.
unfoldable pub http_message : Callback → (Bytes → WriteResult) → ℕ → Session → Outcome Session
unfolding on_message perform
http_message callback write time s = on_message callback time s.context s.conn.input >>= λ r.
    returned (record { conn = perform write r.2 (record (s.conn) { input = r.1 }); context = r.0 })

-- `handleClose`, whose connection callback finds the connection closed.
unfoldable pub close_event : Session → Session
unfolding handle_close on_connection
close_event s = record { conn = handle_close s.conn; context = on_connection false s.context }

abbrev pub with_input : Session → ReadResult × Option ℕ × Buffer → Session
with_input s r = record s { conn = record (s.conn) { input = r.2 } }

abbrev pub after_read :
    Callback
    → (Bytes → WriteResult)
    → ℕ
    → Session
    → ReadResult × Option ℕ × Buffer
    → ReadResult
    → Outcome Session
after_read callback write time s r (read_error e) = returned s
after_read callback write time s r (got bytes) =
    if length bytes == 0
    then returned (close_event (with_input s r))
    else http_message callback write time (with_input s r)

-- `TcpConnection::handleRead` with that message callback; `time` is the poller's.
unfoldable pub read_event :
    Callback → (Bytes → WriteResult) → (ℕ → ReadResult) → ℕ → Session → Outcome Session
unfolding http_message close_event
read_event callback write readv time s =
    let r = read_fd readv s.conn.input in after_read callback write time s r r.0

unfoldable pub write_event : (Bytes → WriteResult) → Session → Session
unfolding handle_write
write_event write s = record s { conn = handle_write write s.conn }

-- What the callbacks do that the constructor of TcpConnection has set on the channel. On an error
-- `handleError` reads the socket's error and logs it.
unfoldable pub on_event :
    Callback → (Bytes → WriteResult) → (ℕ → ReadResult) → ℕ → Event → Session → Outcome Session
unfolding read_event write_event close_event
on_event callback write readv time close s = returned (close_event s)
on_event callback write readv time error s = returned s
on_event callback write readv time read s = read_event callback write readv time s
on_event callback write readv time Event.write s = returned (write_event write s)

unfoldable pub dispatch :
    Callback → (Bytes → WriteResult) → (ℕ → ReadResult) → ℕ → List Event → Session → Outcome Session
unfolding on_event
dispatch callback write readv time [] s = returned s
dispatch callback write readv time (e ∷ es) s =
    on_event callback write readv time e s >>= dispatch callback write readv time es

abbrev pub with_revents : ℕ → Session → Session
with_revents revents s = record s {
  conn = record (s.conn) {
    watch = record (s.conn.watch) { channel = set_revents revents s.conn.watch.channel };
  };
}

-- `Channel::handleEvent` with the events that the poller has found; the connection is alive.
unfoldable pub handle_events :
    Callback → (Bytes → WriteResult) → (ℕ → ReadResult) → ℕ → ℕ → Session → Outcome Session
unfolding dispatch handle_event set_revents
handle_events callback write readv time revents s =
    let t = with_revents revents s in
    dispatch callback write readv time (handle_event true t.conn.watch.channel) t
