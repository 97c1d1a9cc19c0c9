-- ===== src/Net/Channel.antt =====
-- mymuduo/net/Channel.h and Channel.cpp: a file descriptor, the events it waits for, and which
-- callbacks an event calls. `epoll`'s constants are those of Linux. A callback is called if one is
-- set; the calls are listed. What `update` does is in Net/Poller.
pub mod Masks
use Prim.Native.Nat.{bit_and, bit_or}
use simple_http_server.Common.{
  ℕ, ◌-◌, Bool, true, false, not, ◌&&◌, ◌||◌, List, [], ◌∷◌, ◌++◌, ◌==◌, if◌then◌else◌,
}

abbrev pub epoll_in : ℕ
epoll_in = 1

abbrev pub epoll_pri : ℕ
epoll_pri = 2

abbrev pub epoll_out : ℕ
epoll_out = 4

abbrev pub epoll_err : ℕ
epoll_err = 8

abbrev pub epoll_hup : ℕ
epoll_hup = 16

abbrev pub none_event : ℕ
none_event = 0

-- `EPOLLIN | EPOLLPRI`
abbrev pub read_event : ℕ
read_event = 3

abbrev pub write_event : ℕ
write_event = 4

-- `kNew`, `kAdded` and `kDeleted` of EPollPoller.cpp.
pub data Index : Type 0 where
  new added deleted : Index

pub record Channel : Type 0 where
  pub address : ℕ
  pub fd : ℕ
  pub events : ℕ
  pub revents : ℕ
  pub index : Index
  pub tied : Bool
  pub has_read_callback : Bool
  pub has_write_callback : Bool
  pub has_close_callback : Bool
  pub has_error_callback : Bool

unfoldable pub new_channel : ℕ → ℕ → Channel
new_channel address fd = record {
  address = address;
  fd = fd;
  events = 0;
  revents = 0;
  index = new;
  tied = false;
  has_read_callback = false;
  has_write_callback = false;
  has_close_callback = false;
  has_error_callback = false;
}

unfoldable pub tie : Channel → Channel
tie c = record c { tied = true }

unfoldable pub set_revents : ℕ → Channel → Channel
set_revents revents c = record c { revents = revents }

-- `events & mask` as a condition.
unfoldable pub has_any : ℕ → ℕ → Bool
has_any events mask = not (bit_and events mask == 0)

-- `events |= mask`, and `events &= ~mask` on 32 bits.
unfoldable pub with_mask : ℕ → ℕ → ℕ
with_mask events mask = bit_or events mask

unfoldable pub without_mask : ℕ → ℕ → ℕ
without_mask events mask = bit_and events (4294967295 - mask)

unfoldable pub is_none_event : Channel → Bool
is_none_event c = c.events == none_event

unfoldable pub is_writing : Channel → Bool
unfolding has_any
is_writing c = has_any c.events write_event

unfoldable pub is_reading : Channel → Bool
unfolding has_any
is_reading c = has_any c.events read_event

pub data Event : Type 0 where
  close error read write : Event

-- One callback, if the condition holds and the callback is set.
abbrev pub called : Bool → Bool → Event → List Event
called condition is_set event = if condition && is_set then event ∷ [] else []

unfoldable pub handle_event_with_guard : Channel → List Event
unfolding has_any
handle_event_with_guard c =
    called (has_any c.revents epoll_hup && not (has_any c.revents epoll_in)) c.has_close_callback
      close
    ++ (called (has_any c.revents epoll_err) c.has_error_callback error
        ++ (called (has_any c.revents read_event) c.has_read_callback read
            ++ called (has_any c.revents epoll_out) c.has_write_callback write))

-- `alive`: the object tied to the channel still exists.
unfoldable pub handle_event : Bool → Channel → List Event
unfolding handle_event_with_guard
handle_event alive c =
    if c.tied then (if alive then handle_event_with_guard c else []) else handle_event_with_guard c
