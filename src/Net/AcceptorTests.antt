-- ===== src/Net/AcceptorTests.antt =====
-- An acceptor in a poller, and what it does with descriptors.
use simple_http_server.Common.{Bool, ◌≡◌, refl, false, [], ◌∷◌}
use simple_http_server.Common.Outcome.{pos}
use simple_http_server.Net.Poller.{new_poller}
use simple_http_server.Net.Socket.{
  SocketAddress, SocketCall, setsockopt, reuse_addr, reuse_port, gives, fails, Kernel, calls,
  log_fatal, open_socket, create_nonblocking, set_reuse_addr, set_reuse_port, bind_address,
}
use simple_http_server.Net.Acceptor.{
  new_acceptor, set_new_connection_callback, got, accept_error, new_connection_callback, close,
  log_error, log_limit, handle_read,
}

accepts_or_closes :
    let a = new_acceptor 64 3 new_poller in
    (handle_read (got 9) (set_new_connection_callback a) ≡ new_connection_callback 9 ∷ [])
    × (handle_read (got 9) a ≡ close 9 ∷ [])
    × (handle_read (accept_error 24) a ≡ log_error ∷ log_limit ∷ [])
unfolding handle_read set_new_connection_callback new_acceptor
accepts_or_closes = (refl, refl, refl)

-- A kernel that finds the address in use.
abbrev in_use : Kernel
in_use (SocketCall.socket) = gives 3
in_use (SocketCall.bind fd a) = fails 98
in_use _ = gives 0

abbrev port_80 : SocketAddress
port_80 = record { address = 0; port = 80 }

-- The address is in use: `bind` has failed, and `returns` is whether the logger comes back.
bind_fails :
    (returns : Bool)
    → (open_socket returns in_use port_80 false).1
      ≡ calls SocketCall.socket
        ∷ calls (setsockopt (pos 3) reuse_addr 1)
        ∷ calls (setsockopt (pos 3) reuse_port 1)
        ∷ calls (SocketCall.bind (pos 3) port_80)
        ∷ log_fatal
        ∷ []
unfolding open_socket create_nonblocking set_reuse_addr set_reuse_port bind_address
bind_fails returns = refl
