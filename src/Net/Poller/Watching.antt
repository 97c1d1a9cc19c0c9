-- ===== src/Net/Poller/Watching.antt =====
-- The interests of a channel behind the operations of Channel.h.
use simple_http_server.Common.{Bool, ◌∙◌, ℕ, ◌≡◌, refl, arith, true, false}
use simple_http_server.Net.Channel.{
  Channel, Index, new, added, deleted, is_writing, is_reading, has_any, with_mask, without_mask,
  read_event, write_event,
}
use simple_http_server.Net.Channel.Masks.{IsMask, IsMask-Switches}
use simple_http_server.Net.Poller.{
  EPollPoller, Watched, with_events, update_channel_at, update_channel, enable_reading,
  enable_writing, disable_writing, disable_all,
}

events-update_channel_at :
    (i : Index) (c : Channel) (p : EPollPoller) → (update_channel_at i c p).0.events ≡ c.events
unfolding update_channel_at
events-update_channel_at new c p = refl
events-update_channel_at deleted c p = refl
events-update_channel_at added c p = ground arith

pub events-with_events : (e : ℕ) (w : Watched) → (with_events e w).channel.events ≡ e
unfolding update_channel
events-with_events e w =
    events-update_channel_at w.channel.index (record (w.channel) { events = e }) w.poller

-- The channel waits for reading and writing as these say.
pub record Waits (w : Watched) (reading writing : Bool) : Type 0 where
  pub mask : IsMask w.channel.events
  pub reads : is_reading w.channel ≡ reading
  pub writes : is_writing w.channel ≡ writing

pub enable_writing-Waits :
    {w : Watched} {r v : Bool} → Waits w r v → Waits (enable_writing w) r true
unfolding enable_writing is_reading is_writing
enable_writing-Waits {w} s =
    let t = (IsMask-Switches w.channel.events s.mask).writing_on in
    let e = events-with_events (with_mask w.channel.events write_event) w in
    record { mask = rw e (t.mask_again); reads = rw e (t.that ∙ s.reads); writes = rw e (t.this) }

pub disable_writing-Waits :
    {w : Watched} {r v : Bool} → Waits w r v → Waits (disable_writing w) r false
unfolding disable_writing is_reading is_writing
disable_writing-Waits {w} s =
    let t = (IsMask-Switches w.channel.events s.mask).writing_off in
    let e = events-with_events (without_mask w.channel.events write_event) w in
    record { mask = rw e (t.mask_again); reads = rw e (t.that ∙ s.reads); writes = rw e (t.this) }

pub enable_reading-Waits :
    {w : Watched} {r v : Bool} → Waits w r v → Waits (enable_reading w) true v
unfolding enable_reading is_reading is_writing
enable_reading-Waits {w} s =
    let t = (IsMask-Switches w.channel.events s.mask).reading_on in
    let e = events-with_events (with_mask w.channel.events read_event) w in
    record { mask = rw e (t.mask_again); reads = rw e (t.this); writes = rw e (t.that ∙ s.writes) }

pub disable_all-Waits : (w : Watched) → Waits (disable_all w) false false
unfolding disable_all is_reading is_writing has_any
disable_all-Waits w =
    let e = events-with_events 0 w in
    record { mask = rw e (omega arith); reads = rw e; writes = rw e }
