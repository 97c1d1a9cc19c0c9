-- ===== src/Net/Poller/Lifetime.antt =====
-- A channel from its making to its removal, as Acceptor, EventLoop and TimerQueue have one each: it
-- is made to wait for reading, and in the end waits for nothing and is removed.
use simple_http_server.Common.{ℕ, ◌≡◌, true, none, some}
use simple_http_server.Net.Channel.{new_channel, read_event}
use simple_http_server.Net.Poller.{EPollPoller, Watched, find, enable_reading, disable_all, remove}
use simple_http_server.Net.Poller.Protocol.{
  IsConsistent, Accepted, watched_events, then_, start, sets, removes, Acts-IsConsistent,
}

abbrev pub with_read_callback : ℕ → ℕ → EPollPoller → Watched
with_read_callback address fd p = record {
  channel = record (new_channel address fd) { has_read_callback = true };
  poller = p;
}

-- A descriptor that the poller neither watches nor has a channel for.
pub record IsUnknown (fd : ℕ) (p : EPollPoller) : Type 0 where
  pub accepted : Accepted fd p.ctls
  pub unwatched : watched_events fd p.ctls ≡ none
  pub unmapped : find fd p.channels ≡ none

pub IsConsistent-fresh :
    (address fd : ℕ) (p : EPollPoller)
    → IsUnknown fd p
    → IsConsistent (with_read_callback address fd p).channel p
unfolding new_channel
IsConsistent-fresh address fd p u = record {
  accepted = u.accepted;
  watched = u.unwatched;
  entry = u.unmapped;
}

-- In a poller that does not know the descriptor, whatever else it watches: once the channel waits
-- for reading, the kernel watches the descriptor for that.
pub enable_reading-watched :
    (address fd : ℕ) (p : EPollPoller)
    → IsUnknown fd p
    → watched_events fd (enable_reading (with_read_callback address fd p)).poller.ctls
      ≡ some read_event
unfolding new_channel enable_reading
enable_reading-watched address fd p u =
    let w = with_read_callback address fd p in
    (Acts-IsConsistent w (enable_reading w) (IsConsistent-fresh address fd p u)
      (then_ start (sets 3))).watched

-- Behind the removal the kernel does not watch it any more, and the poller does not know it.
pub remove-IsUnknown :
    (address fd : ℕ) (p : EPollPoller)
    → IsUnknown fd p
    → IsUnknown fd (remove (disable_all (enable_reading (with_read_callback address fd p)))).poller
unfolding new_channel enable_reading disable_all remove
remove-IsUnknown address fd p u =
    let w = with_read_callback address fd p in
    let s =
      Acts-IsConsistent w (remove (disable_all (enable_reading w)))
        (IsConsistent-fresh address fd p u)
        (then_ (then_ (then_ start (sets 3)) (sets 0)) removes) in
    record { accepted = s.accepted; unwatched = s.watched; unmapped = s.entry }
