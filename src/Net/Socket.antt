-- ===== src/Net/Socket.antt =====
-- mymuduo/net/Socket.h and Socket.cpp, and the socket that the constructor of Acceptor.cpp opens.
-- The kernel is a function from calls to their results; the calls are listed, with what is logged.
-- Whether the logger returns behind a `LOG_FATAL` is a parameter, `returns`: a function that logs one
-- also says whether its caller goes on.
use simple_http_server.Common.{
  ℕ, zero, Bool, true, List, [], ◌∷◌, ◌++◌, Option, none, some, if◌then◌else◌,
}
use simple_http_server.Common.Outcome.{ℤ, pos, negsuc}

-- `sockaddr_in`: an address and a port.
pub record SocketAddress : Type 0 where
  pub address : ℕ
  pub port : ℕ

pub data SocketOption : Type 0 where
  tcp_nodelay reuse_addr reuse_port keep_alive : SocketOption

pub data SocketCall : Type 0 where
  socket : SocketCall
  bind : ℤ → SocketAddress → SocketCall
  listen : ℤ → ℕ → SocketCall
  accept4 : ℤ → SocketCall
  shutdown_wr : ℤ → SocketCall
  setsockopt : ℤ → SocketOption → ℕ → SocketCall
  getsockopt_error : ℤ → SocketCall
  close : ℤ → SocketCall

-- What a call returns: a number, or -1 with this `errno`.
pub data SocketResult : Type 0 where
  gives : ℕ → SocketResult
  fails : ℕ → SocketResult

abbrev pub Kernel : Type 0
Kernel = SocketCall → SocketResult

pub data Entry : Type 0 where
  calls : SocketCall → Entry
  log_info log_error log_fatal : Entry

-- The descriptor is -1 where no socket was to be had.
pub record Socket : Type 0 where
  pub fd : ℤ

abbrev pub result_of : SocketResult → ℤ
result_of (gives n) = pos n
result_of (fails e) = negsuc 0

abbrev pub log_if_failed : SocketResult → Entry → List Entry
log_if_failed (gives n) entry = []
log_if_failed (fails e) entry = entry ∷ []

-- A result that is not 0 is a failure for `bind` and `listen`.
abbrev pub log_unless_zero : Bool → SocketResult → Bool × List Entry
log_unless_zero returns (gives zero) = (true, [])
log_unless_zero returns _ = (returns, log_fatal ∷ [])

-- The destructor.
unfoldable pub destroy : Socket → List Entry
destroy s = calls (close s.fd) ∷ []

unfoldable pub bind_address : Bool → Kernel → SocketAddress → Socket → Bool × List Entry
bind_address returns kernel a s =
    let (goes_on, logged) = log_unless_zero returns (kernel (bind s.fd a)) in
    (goes_on, calls (bind s.fd a) ∷ logged)

unfoldable pub start_listening : Bool → Kernel → Socket → Bool × List Entry
start_listening returns kernel s =
    let (goes_on, logged) = log_unless_zero returns (kernel (listen s.fd 1024)) in
    (goes_on, calls (listen s.fd 1024) ∷ logged)

-- `peer` is what `accept4` writes into its argument; the address given is set only on success.
abbrev pub accepted : SocketResult → SocketAddress → SocketAddress → ℤ × SocketAddress
accepted (gives n) peer old = (pos n, peer)
accepted (fails e) peer old = (negsuc 0, old)

unfoldable pub accept :
    Kernel → SocketAddress → SocketAddress → Socket → (ℤ × SocketAddress) × List Entry
accept kernel peer old s = (accepted (kernel (accept4 s.fd)) peer old, calls (accept4 s.fd) ∷ [])

unfoldable pub shutdown_write : Kernel → Socket → List Entry
shutdown_write kernel s =
    calls (shutdown_wr s.fd) ∷ log_if_failed (kernel (shutdown_wr s.fd)) log_error

abbrev pub optval : Bool → ℕ
optval on = if on then 1 else 0

unfoldable pub set_tcp_no_delay : Bool → Socket → List Entry
set_tcp_no_delay on s = calls (setsockopt s.fd tcp_nodelay (optval on)) ∷ []

unfoldable pub set_reuse_addr : Bool → Socket → List Entry
set_reuse_addr on s = calls (setsockopt s.fd reuse_addr (optval on)) ∷ []

unfoldable pub set_reuse_port : Bool → Socket → List Entry
set_reuse_port on s = calls (setsockopt s.fd reuse_port (optval on)) ∷ []

unfoldable pub set_keep_alive : Bool → Socket → List Entry
set_keep_alive on s = calls (setsockopt s.fd keep_alive (optval on)) ∷ []

-- `createNonblocking` of Acceptor.cpp, which logs a failure and returns -1 all the same.
unfoldable pub create_nonblocking : Kernel → ℤ × List Entry
create_nonblocking kernel =
    (result_of (kernel socket), calls socket ∷ log_if_failed (kernel socket) log_info)

-- The constructor of Acceptor, as far as its socket is concerned; there is a socket only where the
-- constructor comes to its end.
unfoldable pub open_socket : Bool → Kernel → SocketAddress → Bool → Option Socket × List Entry
unfolding create_nonblocking set_reuse_addr set_reuse_port bind_address
open_socket returns kernel a reuseport =
    let (fd, created) = create_nonblocking kernel in
    let s : Socket = record { fd = fd } in
    let (goes_on, bound) = bind_address returns kernel a s in
    (
      if goes_on then some s else none,
      created ++ (set_reuse_addr true s ++ (set_reuse_port true s ++ bound)),
    )

-- `TcpConnection::handleError`: the error that is logged. Where `getsockopt` succeeds, its result
-- stands for the error that it has written.
unfoldable pub handle_error : Kernel → Socket → ℕ × List Entry
handle_error kernel s = elim (kernel (getsockopt_error s.fd)) [
  | gives e ↦ (e, calls (getsockopt_error s.fd) ∷ log_error ∷ [])
  | fails e ↦ (e, calls (getsockopt_error s.fd) ∷ log_error ∷ [])
]
