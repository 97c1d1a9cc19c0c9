-- ===== src/Net/TimerQueue/Later.antt =====
-- What a loop does to its timers, one call after another, where new timers get addresses that are
-- free and sequence numbers above those given before.
use simple_http_server.Common.{
  ℕ, ◌<◌, ◌≡◌, refl, sym, subst, ◌∙◌, arith, true, false, not, ◌&&◌, List, [], ◌∷◌, ◌++◌, none, inl,
  inr, Bool-cases, if_cases,
}
use simple_http_server.Net.TimerQueue.{
  Timer, TimerQueue, active_timer, same_pair, restart, contains, erase_pair, insert,
  add_timer_in_loop, cancel_in_loop, split_expired, erase_all, get_expired, restart_all, reset,
  run_timers, handle_read,
}
use simple_http_server.Net.TimerQueue.Free.{IsFree}
use simple_http_server.Net.TimerQueue.Listed.{
  listed, contains-erase_other, listed-IsFree, IsDistinct, split_expired-append,
}
use simple_http_server.Net.TimerQueue.Live.{
  IsMatched, IsApart, IsLive, IsLive-as, insert-IsLive, add-IsLive, cancel-IsLive,
}

-- What the callbacks of the timers that have expired do to the queue, all together. `low` is the
-- greatest sequence number that has been given before.
pub data Calls (low : ℕ) (expired : List Timer) (q : TimerQueue) : TimerQueue → Type 0 where
  returns : Calls low expired q q
  adds :
      {u : TimerQueue} (t : Timer)
      → Calls low expired q u
      → low < t.sequence
      → IsFree t.address u.timers
      → IsFree t.address expired
      → Calls low expired q (add_timer_in_loop t u)
  cancels :
      {u : TimerQueue} (id : ℕ × ℕ)
      → Calls low expired q u
      → Calls low expired q (cancel_in_loop id u)

-- What `handleRead` takes out, and the queue that the callbacks see.
abbrev pub taken : ℕ → TimerQueue → List Timer
taken now q = (get_expired now (record q { alarm = none })).0

abbrev pub calling : ℕ → TimerQueue → TimerQueue
calling now q = record ((get_expired now (record q { alarm = none })).1) {
  calling_expired_timers = true;
  canceling_timers = [];
}

pub data Later (low : ℕ) (q : TimerQueue) : TimerQueue → Type 0 where
  at_once : Later low q q
  adding :
      {u : TimerQueue} (t : Timer)
      → Later low q u
      → low < t.sequence
      → IsFree t.address u.timers
      → Later low q (add_timer_in_loop t u)
  cancelling : {u : TimerQueue} (id : ℕ × ℕ) → Later low q u → Later low q (cancel_in_loop id u)
  firing :
      {u : TimerQueue} (run : Timer → TimerQueue → TimerQueue) (now : ℕ)
      → Later low q u
      → Calls low (taken now u) (calling now u) (run_timers run (taken now u) (calling now u))
      → Later low q (handle_read run now u)

IsFree-behind : (a : ℕ) (xs ys : List Timer) → IsFree a (xs ++ ys) → IsFree a xs × IsFree a ys
IsFree-behind a [] ys h = (tt, h)
IsFree-behind a (x ∷ xs) ys h =
    let (front, back) = IsFree-behind a xs ys h.1 in ((h.0, front), back)

IsDistinct-parts :
    (xs ys : List Timer) → IsDistinct (xs ++ ys) → IsDistinct xs × IsDistinct ys × IsApart xs ys
IsDistinct-parts [] ys d = (tt, d, tt)
IsDistinct-parts (x ∷ xs) ys d =
    let (front, back) = IsFree-behind x.address xs ys d.0 in
    let (dx, dy, apart) = IsDistinct-parts xs ys d.1 in ((front, dx), dy, (back, apart))

-- The timers behind one that is taken out stay active.
still_behind :
    (x : Timer) (ts : List Timer) (active : List (ℕ × ℕ))
    → IsFree x.address ts
    → IsMatched (x ∷ ts) active
    → IsMatched ts (erase_pair (active_timer x) active)
unfolding listed
still_behind x ts active free m id e = elim (Bool-cases (same_pair id (active_timer x))) [
  | inl same ↦
      let at : x.address ≡ id.0 = ground (arith, same) in
      let gone : listed id ts ≡ false = listed-IsFree id ts (subst (λ a. IsFree a ts) at free) in
      absurd (let k : false ≡ true = sym gone ∙ e in cc)
  | inr other ↦
      contains-erase_other id (active_timer x) active other ∙ m id (ground (arith, e, other))
]

IsMatched-erase_all :
    (xs ys : List Timer) (active : List (ℕ × ℕ))
    → IsDistinct (xs ++ ys)
    → IsMatched (xs ++ ys) active
    → IsMatched ys (erase_all xs active)
unfolding erase_all
IsMatched-erase_all [] ys active d m = m
IsMatched-erase_all (x ∷ xs) ys active d m =
    IsMatched-erase_all xs ys (erase_pair (active_timer x) active) d.1
      (still_behind x (xs ++ ys) active d.0 m)

pub get_expired-IsLive :
    (now : ℕ) (q : TimerQueue) → IsLive [] q → IsLive (get_expired now q).0 (get_expired now q).1
unfolding get_expired
get_expired-IsLive now q s =
    let (expired, left) = split_expired now q.timers in
    let all = sym (split_expired-append now q.timers) in
    let (de, dl, apart) = IsDistinct-parts expired left (subst IsDistinct all s.distinct) in
    record {
      matched =
          IsMatched-erase_all expired left q.active_timers (subst IsDistinct all s.distinct)
            (subst (λ ts. IsMatched ts q.active_timers) all s.matched);
      distinct = dl;
      distinct_expired = de;
      apart = apart;
    }

pub Calls-IsLive :
    {low : ℕ} {ts : List Timer} {q u : TimerQueue} → Calls low ts q u → IsLive ts q → IsLive ts u
Calls-IsLive returns s = s
Calls-IsLive {ts = ts} (adds {u = u} t c h free apart) s =
    add-IsLive ts t u free apart (Calls-IsLive c s)
Calls-IsLive {ts = ts} (cancels {u = u} id c) s = cancel-IsLive ts id u (Calls-IsLive c s)

pub restart-same :
    (now : ℕ) (t : Timer)
    → ((restart now t).address ≡ t.address) × ((restart now t).sequence ≡ t.sequence)
unfolding restart
restart-same now t = elim (Bool-cases t.repeat) [
  | inl e ↦ ground (arith, e)
  | inr e ↦ ground (arith, e)
]

-- One timer fewer is still to be restarted.
tail-IsLive : (t : Timer) (ts : List Timer) (q : TimerQueue) → IsLive (t ∷ ts) q → IsLive ts q
tail-IsLive t ts q s = record {
  matched = s.matched;
  distinct = s.distinct;
  distinct_expired = s.distinct_expired.1;
  apart = s.apart.1;
}

restart_all-IsLive :
    (now : ℕ) (ts : List Timer) (q : TimerQueue) → IsLive ts q → IsLive [] (restart_all now ts q)
unfolding restart_all
restart_all-IsLive now [] q s = s
restart_all-IsLive now (t ∷ ts) q s =
    let same = (restart-same now t).0 in
    if_cases (IsLive []) (t.repeat && not (contains (active_timer t) q.canceling_timers)) _ _
      (λ _. restart_all-IsLive now ts (insert (restart now t) q).1 (
        insert-IsLive ts (restart now t) q (subst (λ a. IsFree a q.timers) (sym same) s.apart.0)
          (subst (λ a. IsFree a ts) (sym same) s.distinct_expired.0) (tail-IsLive t ts q s)))
      (λ _. restart_all-IsLive now ts q (tail-IsLive t ts q s))

handle_read-IsLive :
    {low : ℕ} (run : Timer → TimerQueue → TimerQueue) (now : ℕ) (q : TimerQueue)
    → Calls low (taken now q) (calling now q) (run_timers run (taken now q) (calling now q))
    → IsLive [] q
    → IsLive [] (handle_read run now q)
unfolding handle_read reset
handle_read-IsLive run now q c s =
    let disarmed = record q { alarm = none } in
    let g = get_expired-IsLive now disarmed (IsLive-as [] q disarmed refl refl s) in
    let called = Calls-IsLive c (IsLive-as (taken now q) _ (calling now q) refl refl g) in
    IsLive-as [] (restart_all now (taken now q) _) _ refl refl
      (restart_all-IsLive now (taken now q) _ (IsLive-as (taken now q) _ _ refl refl called))

pub Later-IsLive : {low : ℕ} {q u : TimerQueue} → Later low q u → IsLive [] q → IsLive [] u
Later-IsLive at_once s = s
Later-IsLive (adding {u = u} t r h free) s = add-IsLive [] t u free tt (Later-IsLive r s)
Later-IsLive (cancelling {u = u} id r) s = cancel-IsLive [] id u (Later-IsLive r s)
Later-IsLive (firing {u = u} run now r c) s = handle_read-IsLive run now u c (Later-IsLive r s)
