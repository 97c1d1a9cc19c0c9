-- ===== src/Net/EventLoop/Channels.antt =====
-- The constructors and destructors of mymuduo/net/EventLoop.cpp and TimerQueue.cpp, as to the
-- channels of the eventfd and of the timerfd in the poller of the loop.
use simple_http_server.Common.{ℕ, ◌≡◌, Bool, true, false, Option, none, some}
use simple_http_server.Net.Channel.{Channel, read_event}
use simple_http_server.Net.Poller
use simple_http_server.Net.Poller.{EPollPoller, Watched, enable_reading, disable_all, remove}
use simple_http_server.Net.Poller.Protocol.{watched_events}
use simple_http_server.Net.Poller.Lifetime.{
  with_read_callback, IsUnknown, enable_reading-watched, remove-IsUnknown,
}

-- `t_loopInThisThread`, which is `none` where it is null, in the constructor of a loop: whether a
-- fatal error is logged, since the thread has a loop already, and what the variable is then.
unfoldable pub claim_thread : ℕ → Option ℕ → Bool × Option ℕ
claim_thread loop none = (false, some loop)
claim_thread loop (some other) = (true, some other)

-- The destructor sets it to null.
unfoldable pub release_thread : Option ℕ → Option ℕ
release_thread slot = none

-- The loop's own calls are those of its poller.
abbrev pub update_channel : Channel → EPollPoller → Channel × EPollPoller
update_channel c p = Poller.update_channel c p

abbrev pub remove_channel : Channel → EPollPoller → Channel × EPollPoller
remove_channel c p = Poller.remove_channel c p

abbrev pub has_channel : Channel → EPollPoller → Bool
has_channel c p = Poller.has_channel c p

unfoldable pub new_wakeup_channel : ℕ → ℕ → EPollPoller → Watched
unfolding enable_reading
new_wakeup_channel address fd p = enable_reading (with_read_callback address fd p)

unfoldable pub delete_wakeup_channel : Watched → Watched
unfolding disable_all remove
delete_wakeup_channel w = remove (disable_all w)

unfoldable pub new_timerfd_channel : ℕ → ℕ → EPollPoller → Watched
unfolding enable_reading
new_timerfd_channel address fd p = enable_reading (with_read_callback address fd p)

unfoldable pub delete_timerfd_channel : Watched → Watched
unfolding disable_all remove
delete_timerfd_channel w = remove (disable_all w)

-- In a poller that does not know the eventfd: the constructor of the loop has the kernel watch it
-- for reading, and behind the destructor neither the kernel nor the poller knows it.
pub delete-new_wakeup :
    (address fd : ℕ) (p : EPollPoller)
    → IsUnknown fd p
    → (watched_events fd (new_wakeup_channel address fd p).poller.ctls ≡ some read_event)
      × IsUnknown fd (delete_wakeup_channel (new_wakeup_channel address fd p)).poller
unfolding new_wakeup_channel delete_wakeup_channel
delete-new_wakeup address fd p u =
    (enable_reading-watched address fd p u, remove-IsUnknown address fd p u)

-- The same of the timerfd, by the constructor and the destructor of the queue of timers.
pub delete-new_timerfd :
    (address fd : ℕ) (p : EPollPoller)
    → IsUnknown fd p
    → (watched_events fd (new_timerfd_channel address fd p).poller.ctls ≡ some read_event)
      × IsUnknown fd (delete_timerfd_channel (new_timerfd_channel address fd p)).poller
unfolding new_timerfd_channel delete_timerfd_channel
delete-new_timerfd address fd p u =
    (enable_reading-watched address fd p u, remove-IsUnknown address fd p u)
