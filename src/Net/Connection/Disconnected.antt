-- ===== src/Net/Connection/Disconnected.antt =====
-- The start of a connection, and what `sendInLoop` does once it is closed.
use simple_http_server.Common.{
  ℕ, not, ◌&&◌, ltb, ◌≡◌, refl, arith, true, false, [], Bool-cases, inl, inr, length,
}
use simple_http_server.Common.Bytes.{Bytes}
use simple_http_server.Net.Buffer.{WriteResult, sub_size, init, initial_size}
use simple_http_server.Net.Buffer.View.{init-IsValid}
use simple_http_server.Net.Channel.{is_writing, is_reading, has_any, tie}
use simple_http_server.Net.Poller.{EPollPoller, Watched}
use simple_http_server.Net.Poller.Watching.{Waits, enable_reading-Waits}
use simple_http_server.Net.Connection.{
  TcpConnection, State, connected, new_connection, connect_established, send_in_loop, Attempt,
  finish_send,
}
use simple_http_server.Net.Connection.Parts.{IsSound}

tied : Watched → Watched
tied w = record w { channel = tie w.channel }

-- A connection that has just been established is open, waits for reading, and has sent nothing.
pub connect_established-IsSound :
    (address fd : ℕ) (poller : EPollPoller)
    → let c = connect_established (new_connection address fd poller) in
      IsSound [] c × (c.state ≡ connected) × Waits c.watch true false
unfolding connect_established new_connection has_any is_reading is_writing
connect_established-IsSound address fd poller =
    let w : Watched = (record (new_connection address fd poller) { state = connected }).watch in
    let on =
      enable_reading-Waits {w = tied w} {r = false} {v = false}
        (unfold tied in record { mask = omega arith; reads = refl; writes = refl }) in
    let v = init-IsValid initial_size (omega arith) in
    (
      record {
        valid = v;
        mask = unfold tied in on.mask;
        in_order = unfold init in refl;
        awaited = λ _. unfold init in refl;
        last = λ e. cc;
      },
      refl,
      unfold tied in on,
    )

finish_send-state :
    (bytes : Bytes) (a : Attempt) (c : TcpConnection) (state : State)
    → finish_send bytes a (record c { state = state })
      ≡ record (finish_send bytes a c) { state = state }
unfolding finish_send
finish_send-state bytes a c state =
    elim (Bool-cases (not a.fault_error && ltb 0 (sub_size (length bytes) a.nwrote))) [
      | inl e ↦ rw e
      | inr e ↦ rw e
    ]

-- `sendInLoop` does the same in every state of the connection: what it writes, buffers, notes and
-- waits for does not depend on the state, and it leaves the state alone. So a send that was queued
-- before the connection was closed still writes to it, although the log says that it is given up.
pub send_in_loop-state :
    (write : Bytes → WriteResult) (bytes : Bytes) (c : TcpConnection) (state : State)
    → send_in_loop write bytes (record c { state = state })
      ≡ record (send_in_loop write bytes c) { state = state }
unfolding send_in_loop
send_in_loop-state write bytes c state = finish_send-state bytes _ c state
