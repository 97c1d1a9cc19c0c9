-- ===== src/Net/Poller/Protocol.antt =====
-- What the kernel watches, read from the calls of `epoll_ctl`; and that it has no reason, of those
-- that `epoll_ctl` documents, to refuse one: `add` wants a descriptor that is not watched, and
-- `mod_` and `del` want one that is.
use simple_http_server.Common.{
  ℕ, ◌≡◌, ◌≢◌, refl, ◌∙◌, arith, List, [], ◌∷◌, Option, none, some, ◌==◌, if◌then◌else◌, inl, inr,
  Bool-cases,
}
use simple_http_server.Net.Channel.{Channel, Index, new, added, deleted, is_none_event}
use simple_http_server.Net.Poller.{
  Operation, add, mod_, del, Ctl, EPollPoller, find, put, erase, update, update_channel_at,
  update_channel, remove_channel, is_added, Watched, with_events, remove,
}

-- The events that the kernel reports for a descriptor.
abbrev pub after_ctl : Operation → ℕ → Option ℕ
after_ctl add events = some events
after_ctl mod_ events = some events
after_ctl del events = none

abbrev pub watched_events : ℕ → List Ctl → Option ℕ
watched_events fd [] = none
watched_events fd (t ∷ ts) =
    if t.fd == fd then after_ctl t.operation t.events else watched_events fd ts

abbrev pub Allowed : Operation → Option ℕ → Type 0
Allowed add w = w ≡ none
Allowed mod_ w = w ≢ none
Allowed del w = w ≢ none

-- Every call for this descriptor is one that the kernel takes.
abbrev pub Accepted : ℕ → List Ctl → Type 0
Accepted fd [] = Unit {0}
Accepted fd (t ∷ ts) = (t.fd ≡ fd → Allowed t.operation (watched_events fd ts)) × Accepted fd ts

abbrev pub expected_events : Index → ℕ → Option ℕ
expected_events added events = some events
expected_events _ events = none

abbrev pub expected_entry : Index → ℕ → Option ℕ
expected_entry new address = none
expected_entry _ address = some address

-- The kernel watches exactly the channels that are added, for exactly their events, and the map
-- holds exactly those that are not new.
pub record IsConsistent (c : Channel) (p : EPollPoller) : Type 0 where
  pub accepted : Accepted c.fd p.ctls
  pub watched : watched_events c.fd p.ctls ≡ expected_events c.index c.events
  pub entry : find c.fd p.channels ≡ expected_entry c.index c.address

find-put :
    (fd k a : ℕ) (m : List (ℕ × ℕ)) → find k (put fd a m) ≡ (if fd == k then some a else find k m)
unfolding find put
find-put fd k a [] = refl
find-put fd k a ((j, b) ∷ m) = ground (arith, find-put fd k a m)

find-erase :
    (fd k : ℕ) (m : List (ℕ × ℕ)) → find k (erase fd m) ≡ (if fd == k then none else find k m)
unfolding find erase
find-erase fd k [] = ground arith
find-erase fd k ((j, b) ∷ m) = ground (arith, find-erase fd k m)

-- One more call for this descriptor.
told :
    (o : Operation) (c : Channel) (p : EPollPoller) (w : Option ℕ)
    → Accepted c.fd p.ctls
    → watched_events c.fd p.ctls ≡ w
    → Allowed o w
    → Accepted c.fd (update o c p).ctls
      × (watched_events c.fd (update o c p).ctls ≡ after_ctl o c.events)
unfolding update
told o c p w acc e h = ((λ _. rw e h, acc), ground arith)

update_channel-IsConsistent :
    (i : Index) (c : Channel) (old : ℕ) (p : EPollPoller)
    → c.index ≡ i
    → Accepted c.fd p.ctls
    → watched_events c.fd p.ctls ≡ expected_events i old
    → find c.fd p.channels ≡ expected_entry i c.address
    → IsConsistent (update_channel_at i c p).0 (update_channel_at i c p).1
unfolding update_channel_at
update_channel-IsConsistent new c old p e acc w n =
    let q = record p { channels = put c.fd c.address p.channels } in
    let t = told add c q none acc w refl in
    record {
      accepted = t.0;
      watched = t.1;
      entry = find-put c.fd c.fd c.address p.channels ∙ ground arith;
    }
update_channel-IsConsistent added c old p e acc w n = elim (Bool-cases (is_none_event c)) [
  | inl off ↦
      let t = told del c p (some old) acc w (λ h. cc) in
      rw off (record { accepted = t.0; watched = t.1; entry = n })
  | inr on ↦
      let t = told mod_ c p (some old) acc w (λ h. cc) in
      rw on (record { accepted = t.0; watched = rw e (t.1); entry = rw e n })
]
update_channel-IsConsistent deleted c old p e acc w n =
    let t = told add c p none acc w refl in record { accepted = t.0; watched = t.1; entry = n }

with_events-IsConsistent :
    (events : ℕ) (w : Watched)
    → IsConsistent w.channel w.poller
    → IsConsistent (with_events events w).channel (with_events events w).poller
unfolding update_channel
with_events-IsConsistent events w s =
    update_channel-IsConsistent w.channel.index (record (w.channel) { events = events })
      w.channel.events w.poller refl s.accepted s.watched s.entry

remove-IsConsistent :
    (i : Index) (c : Channel) (p : EPollPoller)
    → c.index ≡ i
    → IsConsistent c p
    → IsConsistent (remove_channel c p).0 (remove_channel c p).1
unfolding remove_channel
remove-IsConsistent added c p e s =
    let q = record p { channels = erase c.fd p.channels } in
    let t = told del c q (some c.events) s.accepted (rw e at s.watched) (λ h. cc) in
    rw e (record {
      accepted = t.0;
      watched = t.1;
      entry = find-erase c.fd c.fd p.channels ∙ ground arith;
    })
remove-IsConsistent new c p e s = rw e (record {
  accepted = s.accepted;
  watched = rw e at s.watched;
  entry = find-erase c.fd c.fd p.channels ∙ ground arith;
})
remove-IsConsistent deleted c p e s = rw e (record {
  accepted = s.accepted;
  watched = rw e at s.watched;
  entry = find-erase c.fd c.fd p.channels ∙ ground arith;
})

-- What a component does with its channel, or others do in the same poller with another one.
pub data Act (w : Watched) : Watched → Type 0 where
  sets : (events : ℕ) → Act w (with_events events w)
  removes : Act w (remove w)
  others :
      (d : Channel)
      → d.fd ≢ w.channel.fd
      → Act w (record w { poller = (update_channel d w.poller).1 })
  others_remove :
      (d : Channel)
      → d.fd ≢ w.channel.fd
      → Act w (record w { poller = (remove_channel d w.poller).1 })

others-IsConsistent :
    (i : Index) (c d : Channel) (p : EPollPoller)
    → d.fd ≢ c.fd
    → IsConsistent c p
    → IsConsistent c (update_channel_at i d p).1
unfolding update_channel_at
others-IsConsistent new c d p h s = record {
  accepted = (λ e. absurd (h e), s.accepted);
  watched = ground arith;
  entry = ground (arith, find-put d.fd c.fd d.address p.channels);
}
others-IsConsistent added c d p h s = elim (Bool-cases (is_none_event d)) [
  | inl off ↦ rw off (record {
    accepted = (λ e. absurd (h e), s.accepted);
    watched = ground arith;
    entry = s.entry;
  })
  | inr on ↦ rw on (record {
    accepted = (λ e. absurd (h e), s.accepted);
    watched = ground arith;
    entry = s.entry;
  })
]
others-IsConsistent deleted c d p h s = record {
  accepted = (λ e. absurd (h e), s.accepted);
  watched = ground arith;
  entry = s.entry;
}

others_remove-IsConsistent :
    (c d : Channel) (p : EPollPoller)
    → d.fd ≢ c.fd
    → IsConsistent c p
    → IsConsistent c (remove_channel d p).1
unfolding remove_channel
others_remove-IsConsistent c d p h s =
    let gone : find c.fd (erase d.fd p.channels) ≡ expected_entry c.index c.address =
      ground (arith, find-erase d.fd c.fd p.channels) in
    elim (Bool-cases (is_added d.index)) [
      | inl on ↦ rw on (record {
        accepted = (λ e. absurd (h e), s.accepted);
        watched = ground arith;
        entry = gone;
      })
      | inr off ↦ rw off (record { accepted = s.accepted; watched = s.watched; entry = gone })
    ]

Act-IsConsistent :
    {v w : Watched} → Act v w → IsConsistent v.channel v.poller → IsConsistent w.channel w.poller
unfolding update_channel remove
Act-IsConsistent {v} (sets events) s = with_events-IsConsistent events v s
Act-IsConsistent {v} removes s = remove-IsConsistent v.channel.index v.channel v.poller refl s
Act-IsConsistent {v} (others d h) s = others-IsConsistent d.index v.channel d v.poller h s
Act-IsConsistent {v} (others_remove d h) s = others_remove-IsConsistent v.channel d v.poller h s

pub data Acts (v : Watched) : Watched → Type 0 where
  start : Acts v v
  then_ : {u w : Watched} → Acts v u → Act u w → Acts v w

-- From a consistent channel and poller, through any sequence of changes of the channel's mask,
-- removals of it, and changes and removals of channels with other descriptors in the same poller:
-- every `epoll_ctl` for the channel's descriptor is one that the kernel takes, the kernel watches
-- it exactly while its index is `added`, for exactly the events of its mask, and the map of the
-- poller holds its address exactly while its index is not `new`.
pub Acts-IsConsistent :
    (v w : Watched) → IsConsistent v.channel v.poller → Acts v w → IsConsistent w.channel w.poller
Acts-IsConsistent v w s start = s
Acts-IsConsistent v w s (then_ {u = u} r a) = Act-IsConsistent a (Acts-IsConsistent v u s r)
