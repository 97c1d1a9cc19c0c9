-- ===== src/Net/Acceptor/Listening.antt =====
-- The listening descriptor in the poller of the base loop, from the constructor to the destructor.
use simple_http_server.Common.{ℕ, ◌≡◌, some}
use simple_http_server.Net.Channel.{read_event}
use simple_http_server.Net.Poller.{EPollPoller}
use simple_http_server.Net.Poller.Protocol.{watched_events}
use simple_http_server.Net.Poller.Lifetime.{IsUnknown, enable_reading-watched, remove-IsUnknown}
use simple_http_server.Net.Acceptor.{new_acceptor, listen, destroy}

-- In a poller that neither watches the descriptor nor has a channel for it, whatever else it
-- watches: behind `listen` the kernel watches it for reading, and behind the destructor the kernel
-- does not watch it any more and the poller has no channel for it.
pub destroy-listen :
    (address fd : ℕ) (p : EPollPoller)
    → IsUnknown fd p
    → let a = new_acceptor address fd p in
      (watched_events fd (listen a).watch.poller.ctls ≡ some read_event)
      × IsUnknown fd (destroy (listen a)).poller
unfolding new_acceptor listen destroy
destroy-listen address fd p u =
    (enable_reading-watched address fd p u, remove-IsUnknown address fd p u)
