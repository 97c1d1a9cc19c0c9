-- ===== src/Net/Connection/Late.antt =====
-- A send that was queued from another thread while the connection was open, and is run behind its
-- end.
use simple_http_server.Common.{ℕ, ◌^◌, ◌<◌, ◌≡◌, refl, arith, true, ltb, ◌∷◌, [], length}
use simple_http_server.Common.Bytes.{Bytes}
use simple_http_server.Net.Buffer.{WriteResult, wrote, readable_bytes, sub_size}
use simple_http_server.Net.Channel.{added}
use simple_http_server.Net.Poller.{enable_writing, update_channel}
use simple_http_server.Net.Connection.{
  TcpConnection, connection_changed, closed, attempt_of, writes_at_once, buffer_rest, attempted,
  finish_send, send_in_loop, handle_close,
}
use simple_http_server.Net.Connection.Closing.{
  closings, closings-append, IsClosed, send_in_loop-closings,
}

rewatched :
    (write : Bytes → WriteResult) (bytes : Bytes) (n : ℕ) (c : TcpConnection)
    → IsClosed c
    → readable_bytes c.output ≡ 0
    → write bytes ≡ wrote n
    → n < length bytes
    → length bytes < 2 ^ 64
    → (send_in_loop write bytes c).watch.channel.index ≡ added
unfolding send_in_loop finish_send attempt_of buffer_rest attempted enable_writing update_channel
rewatched write bytes n c k empty e short small =
    let at_once : writes_at_once c ≡ true = ground (arith, k.idle, empty) in
    let more : ltb 0 (sub_size (length bytes) n) ≡ true = ground (arith, short, small) in
    rw (at_once, e) (rw more (rw (k.idle) (rw (k.unwatched) refl)))

-- A closed connection whose output buffer is empty, and a send that was queued before: where the
-- kernel takes fewer bytes than it is handed, and they are fewer than 2 ^ 64, the kernel watches the
-- connection again, and if it then hangs up the close callback is called a second time.
pub send_in_loop-closed :
    (write : Bytes → WriteResult) (bytes : Bytes) (n : ℕ) (c : TcpConnection)
    → IsClosed c
    → readable_bytes c.output ≡ 0
    → write bytes ≡ wrote n
    → n < length bytes
    → length bytes < 2 ^ 64
    → ((send_in_loop write bytes c).watch.channel.index ≡ added)
      × (closings (handle_close (send_in_loop write bytes c)).notes ≡ 2)
unfolding handle_close
send_in_loop-closed write bytes n c k empty e short small = (
  rewatched write bytes n c k empty e short small,
  omega (
    arith,
    closings-append (send_in_loop write bytes c).notes (connection_changed ∷ closed ∷ []),
    send_in_loop-closings write bytes c,
    k.once,
  ),
)
