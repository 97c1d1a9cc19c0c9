-- ===== src/Net/Connection/Setters.antt =====
-- The callbacks that a user sets on a connection, and what is called because of them.
use simple_http_server.Common.{ℕ, ◌+◌, ◌^◌, ◌<◌, ◌≡◌, arith, true, ◌∷◌, [], ◌++◌, length}
use simple_http_server.Common.Bytes.{Bytes}
use simple_http_server.Net.Buffer.{readable_bytes, add_size}
use simple_http_server.Net.Connection.{TcpConnection, high_water_mark, buffer_rest}

unfoldable pub set_write_complete_callback : TcpConnection → TcpConnection
set_write_complete_callback c = record c { has_write_complete_callback = true }

unfoldable pub set_high_water_mark_callback : ℕ → TcpConnection → TcpConnection
set_high_water_mark_callback mark c = record c {
  has_high_water_mark_callback = true;
  high_water = mark;
}

-- With a high-water mark set: the callback is called with the number of bytes that wait where a
-- rest takes them from below the mark to it or above.
buffer_rest-high_water :
    (mark : ℕ) (rest : Bytes) (c : TcpConnection)
    → readable_bytes c.output < mark
    → mark < readable_bytes c.output + length rest + 1
    → readable_bytes c.output + length rest < 2 ^ 64
    → (buffer_rest rest (set_high_water_mark_callback mark c)).notes
      ≡ c.notes ++ high_water_mark (readable_bytes c.output + length rest) ∷ []
unfolding buffer_rest set_high_water_mark_callback
buffer_rest-high_water mark rest c below above fits =
    let total : add_size (readable_bytes c.output) (length rest)
        ≡ readable_bytes c.output + length rest =
      omega (arith, fits) in
    ground (arith, total, below, above)
