-- ===== src/Http/EventTests.antt =====
-- A session that is hung up on, and a send that comes too late.
use simple_http_server.Common.{ℕ, ◌≤◌, ◌≡◌, refl, arith, min, length}
use simple_http_server.Common.Bytes.{Bytes, codes}
use simple_http_server.Common.Outcome.{returned}
use simple_http_server.Net.Buffer.{ReadResult, read_error, WriteResult, wrote, init, readable_bytes}
use simple_http_server.Net.Channel.{
  added, deleted, handle_event, handle_event_with_guard, set_revents, has_any, tie, is_writing,
}
use simple_http_server.Net.Poller.{new_poller, enable_reading, disable_all, update_channel}
use simple_http_server.Net.Connection.{
  TcpConnection, disconnected, new_connection, connect_established, handle_close, send_in_loop,
}
use simple_http_server.Net.Connection.Closing.{closings, IsClosed}
use simple_http_server.Net.Connection.Late.{send_in_loop-closed}
use simple_http_server.Http.Server.{default_http_callback}
use simple_http_server.Http.Session.{
  Session, establish, close_event, on_event, dispatch, with_revents, handle_events,
}
use simple_http_server.Http.Session.Events.{Reports, established, handled, Rounds-closings}

abbrev fresh_session : Session
fresh_session = establish (new_connection 1 5 new_poller)

abbrev takes_two : Bytes → WriteResult
takes_two bytes = wrote (min 2 (length bytes))

abbrev reset_by_peer : ℕ → ReadResult
reset_by_peer n = read_error 104

-- `EPOLLHUP` alone.
abbrev hung_up : Session
hung_up = close_event (with_revents 16 fresh_session)

hung_up-Reports : Reports 16 fresh_session
unfolding establish connect_established new_connection tie enable_reading update_channel has_any
hung_up-Reports = record { watched = refl; urgent = λ e f. refl }

hung_up-handled :
    handle_events default_http_callback takes_two reset_by_peer 7 16 fresh_session
    ≡ returned hung_up
unfolding handle_events dispatch on_event establish connect_established new_connection tie
    enable_reading update_channel has_any handle_event handle_event_with_guard set_revents
hung_up-handled = refl

Rounds-closings_example :
    (closings hung_up.conn.notes ≤ 1)
    × (closings hung_up.conn.notes ≡ 1
        → (hung_up.conn.watch.channel.index ≡ deleted) × (hung_up.conn.state ≡ disconnected))
Rounds-closings_example = Rounds-closings default_http_callback hung_up (
    handled takes_two reset_by_peer 7 16 hung_up-Reports hung_up-handled
      (established 1 5 new_poller))

abbrev gone : TcpConnection
gone = handle_close (connect_established (new_connection 1 5 new_poller))

gone-IsClosed : IsClosed gone
unfolding handle_close connect_established new_connection tie enable_reading disable_all
    update_channel is_writing
gone-IsClosed = record { once = refl; unwatched = refl; idle = refl; status = refl }

gone-empty : readable_bytes gone.output ≡ 0
unfolding handle_close connect_established new_connection init readable_bytes
gone-empty = refl

send_in_loop-closed_example :
    ((send_in_loop takes_two (codes "hello") gone).watch.channel.index ≡ added)
    × (closings (handle_close (send_in_loop takes_two (codes "hello") gone)).notes ≡ 2)
send_in_loop-closed_example =
    send_in_loop-closed takes_two (codes "hello") 2 gone gone-IsClosed gone-empty refl (omega arith)
      (omega arith)
