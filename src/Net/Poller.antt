-- ===== src/Net/Poller.antt =====
-- mymuduo/net/Poller.h, Poller.cpp and EPollPoller.cpp: which channels the kernel watches.
-- The calls of `epoll_ctl` are listed, the latest first; what the kernel makes of them is in the
-- child Protocol. That a failed call is logged is not modelled.
pub mod Protocol
pub mod Watching
pub mod Lifetime
use simple_http_server.Common.{
  ℕ, ◌+◌, ◌*◌, Bool, true, false, ◌&&◌, List, [], ◌∷◌, ◌++◌, Option, none, some, ◌==◌,
  if◌then◌else◌, length, map,
}
use simple_http_server.Net.Channel.{
  Channel, Index, new, added, deleted, is_none_event, with_mask, without_mask, read_event,
  write_event, none_event, set_revents,
}

pub data Operation : Type 0 where
  add mod_ del : Operation

pub record Ctl : Type 0 where
  pub operation : Operation
  pub fd : ℕ
  pub events : ℕ

-- `channels_` maps a descriptor to the address of its channel.
pub record EPollPoller : Type 0 where
  pub channels : List (ℕ × ℕ)
  pub event_list_size : ℕ
  pub ctls : List Ctl

unfoldable pub new_poller : EPollPoller
new_poller = record { channels = []; event_list_size = 16; ctls = [] }

unfoldable pub find : ℕ → List (ℕ × ℕ) → Option ℕ
find fd [] = none
find fd ((k, a) ∷ m) = if k == fd then some a else find fd m

unfoldable pub put : ℕ → ℕ → List (ℕ × ℕ) → List (ℕ × ℕ)
put fd a [] = (fd, a) ∷ []
put fd a ((k, b) ∷ m) = if k == fd then (k, a) ∷ m else (k, b) ∷ put fd a m

-- Every entry of the key goes; a map has one at most.
unfoldable pub erase : ℕ → List (ℕ × ℕ) → List (ℕ × ℕ)
erase fd [] = []
erase fd ((k, b) ∷ m) = if k == fd then erase fd m else (k, b) ∷ erase fd m

-- `EPollPoller::update`
unfoldable pub update : Operation → Channel → EPollPoller → EPollPoller
update operation c p = record p {
  ctls = record { operation = operation; fd = c.fd; events = c.events } ∷ p.ctls;
}

abbrev pub with_index : Index → Channel → Channel
with_index index c = record c { index = index }

unfoldable pub update_channel_at : Index → Channel → EPollPoller → Channel × EPollPoller
unfolding update put is_none_event
update_channel_at new c p =
    (with_index added c, update add c (record p { channels = put c.fd c.address p.channels }))
update_channel_at deleted c p = (with_index added c, update add c p)
update_channel_at added c p =
    if is_none_event c then (with_index deleted c, update del c p) else (c, update mod_ c p)

unfoldable pub update_channel : Channel → EPollPoller → Channel × EPollPoller
unfolding update_channel_at
update_channel c p = update_channel_at c.index c p

abbrev pub is_added : Index → Bool
is_added added = true
is_added _ = false

unfoldable pub remove_channel : Channel → EPollPoller → Channel × EPollPoller
unfolding update erase
remove_channel c p =
    let q = record p { channels = erase c.fd p.channels } in
    (with_index new c, if is_added c.index then update del c q else q)

unfoldable pub has_channel : Channel → EPollPoller → Bool
unfolding find
has_channel c p = elim (find c.fd p.channels) [ none ↦ false | some a ↦ a == c.address ]

-- A channel with the poller that watches it: what `Channel::update` and `Channel::remove` change.
pub record Watched : Type 0 where
  pub channel : Channel
  pub poller : EPollPoller

abbrev pub updated : Channel → EPollPoller → Watched
updated c p = let (c', p') = update_channel c p in record { channel = c'; poller = p' }

abbrev pub with_events : ℕ → Watched → Watched
with_events events w = updated (record (w.channel) { events = events }) w.poller

unfoldable pub enable_reading : Watched → Watched
unfolding update_channel with_mask
enable_reading w = with_events (with_mask w.channel.events read_event) w

unfoldable pub disable_reading : Watched → Watched
unfolding update_channel without_mask
disable_reading w = with_events (without_mask w.channel.events read_event) w

unfoldable pub enable_writing : Watched → Watched
unfolding update_channel with_mask
enable_writing w = with_events (with_mask w.channel.events write_event) w

unfoldable pub disable_writing : Watched → Watched
unfolding update_channel without_mask
disable_writing w = with_events (without_mask w.channel.events write_event) w

unfoldable pub disable_all : Watched → Watched
unfolding update_channel
disable_all w = with_events none_event w

unfoldable pub remove : Watched → Watched
unfolding remove_channel
remove w = let (c', p') = remove_channel w.channel w.poller in record { channel = c'; poller = p' }

-- What `epoll_wait` returns: channels with their events, a time out, or an error.
pub data WaitResult : Type 0 where
  ready : List (ℕ × ℕ) → WaitResult
  timed_out : WaitResult
  wait_error : ℕ → WaitResult

-- Each entry is a channel with the events that it is given.
abbrev pub fill_active_channels : List (ℕ × ℕ) → List (ℕ × ℕ) → List (ℕ × ℕ)
fill_active_channels found active = active ++ found

-- The channels that are ready, with the events that `set_revents` gives them, are put behind the
-- active ones; a full event list is doubled.
unfoldable pub poll : (ℕ → WaitResult) → EPollPoller → List (ℕ × ℕ) → List (ℕ × ℕ) × EPollPoller
poll wait p active = elim (wait p.event_list_size) [
  | timed_out ↦ (active, p)
  | wait_error e ↦ (active, p)
  | ready found ↦ (
    fill_active_channels found active,
    if length found == p.event_list_size
        then record p { event_list_size = p.event_list_size * 2 }
        else p,
  )
]
