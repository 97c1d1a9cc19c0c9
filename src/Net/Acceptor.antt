-- ===== src/Net/Acceptor.antt =====
-- mymuduo/net/Acceptor.h and Acceptor.cpp, with the calls of Socket.cpp that it makes: the listening
-- descriptor, and what becomes of each descriptor that `accept` gives.
pub mod Listening
use simple_http_server.Common.{
  ℕ, Bool, true, false, List, [], ◌∷◌, ◌++◌, Option, none, some, ◌==◌, if◌then◌else◌,
}
use simple_http_server.Common.Outcome.{Outcome, returned, ◌>>=◌}
use simple_http_server.Net.Channel.{Channel, new_channel}
use simple_http_server.Net.Poller.{EPollPoller, Watched, enable_reading, disable_all, remove}
use simple_http_server.Net.TcpServer.{TcpServer, Connection, new_connection}

pub record Acceptor : Type 0 where
  pub watch : Watched
  pub has_new_connection_callback : Bool
  pub listenning : Bool

-- The poller is that of the base loop.
unfoldable pub new_acceptor : ℕ → ℕ → EPollPoller → Acceptor
unfolding new_channel
new_acceptor address fd p = record {
  watch = record {
    channel = record (new_channel address fd) { has_read_callback = true };
    poller = p;
  };
  has_new_connection_callback = false;
  listenning = false;
}

unfoldable pub set_new_connection_callback : Acceptor → Acceptor
set_new_connection_callback a = record a { has_new_connection_callback = true }

unfoldable pub listen : Acceptor → Acceptor
unfolding enable_reading
listen a = record a { listenning = true; watch = enable_reading a.watch }

-- The destructor.
unfoldable pub destroy : Acceptor → Watched
unfolding disable_all remove
destroy a = remove (disable_all a.watch)

-- What `accept4` returns: a descriptor, or -1 with this `errno`.
pub data AcceptResult : Type 0 where
  got : ℕ → AcceptResult
  accept_error : ℕ → AcceptResult

abbrev pub emfile : ℕ
emfile = 24

-- What `handleRead` does with it.
pub data Act : Type 0 where
  new_connection_callback close : ℕ → Act
  log_error log_limit : Act

unfoldable pub handle_read : AcceptResult → Acceptor → List Act
handle_read (got fd) a =
    if a.has_new_connection_callback then new_connection_callback fd ∷ [] else close fd ∷ []
handle_read (accept_error e) a = if e == emfile then log_error ∷ log_limit ∷ [] else log_error ∷ []

-- The callback that the constructor of TcpServer sets is `newConnection`.
unfoldable pub perform : List Act → TcpServer → Outcome (List Connection × TcpServer)
unfolding new_connection
perform [] s = returned ([], s)
perform (new_connection_callback fd ∷ acts) s = do
  (c, s1) ← new_connection fd s
  (cs, s2) ← perform acts s1
  returned (c ∷ cs, s2)
perform (_ ∷ acts) s = perform acts s
