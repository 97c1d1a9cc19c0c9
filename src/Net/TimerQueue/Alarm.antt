-- ===== src/Net/TimerQueue/Alarm.antt =====
-- The timers of a loop through what the loop does to them, one call after another.
use simple_http_server.Common.{
  ℕ, ◌<◌, ◌≡◌, sym, subst, arith, true, false, not, ◌&&◌, List, [], ◌∷◌, ◌++◌, Option, none, some,
  inl, inr, Bool-cases, ltb,
}
use simple_http_server.Net.TimerQueue.{
  Timer, TimerQueue, new_queue, active_timer, restart, contains, insert_timer, erase_timer,
  is_earliest, insert, add_timer_in_loop, cancel_in_loop, split_expired, get_expired, restart_all,
  set_alarm, reset, run_timers, handle_read,
}
use simple_http_server.Net.TimerQueue.Armed.{
  From, IsOrdered, From-insert, From-erase, From-trans, IsInOrder, Covers, insert-IsInOrder,
  add-IsInOrder, cancel-IsInOrder, split_expired-Splits,
}

-- What a callback may do to the queue: add timers that expire at a valid time, and cancel timers.
pub data Calls (q : TimerQueue) : TimerQueue → Type 0 where
  returns : Calls q q
  adds :
      {u : TimerQueue} (t : Timer) → Calls q u → 0 < t.expiration → Calls q (add_timer_in_loop t u)
  cancels : {u : TimerQueue} (id : ℕ × ℕ) → Calls q u → Calls q (cancel_in_loop id u)

-- What the loop does: such calls, and `handleRead` once the timerfd has gone off.
pub data Run : TimerQueue → Type 0 where
  fresh : Run new_queue
  adding : {q : TimerQueue} (t : Timer) → Run q → 0 < t.expiration → Run (add_timer_in_loop t q)
  cancelling : {q : TimerQueue} (id : ℕ × ℕ) → Run q → Run (cancel_in_loop id q)
  firing :
      {q : TimerQueue} (run : Timer → TimerQueue → TimerQueue) (now : ℕ)
      → Run q
      → 0 < now
      → ((t : Timer) (u : TimerQueue) → Calls u (run t u))
      → Run (handle_read run now q)

Calls-IsInOrder : (q u : TimerQueue) → IsInOrder q → Calls q u → IsInOrder u
Calls-IsInOrder q u s returns = s
Calls-IsInOrder q u s (adds {u = w} t c h) = add-IsInOrder t w h (Calls-IsInOrder q w s c)
Calls-IsInOrder q u s (cancels {u = w} id c) = cancel-IsInOrder id w (Calls-IsInOrder q w s c)

run_timers-IsInOrder :
    (run : Timer → TimerQueue → TimerQueue) (ts : List Timer) (q : TimerQueue)
    → ((t : Timer) (u : TimerQueue) → Calls u (run t u))
    → IsInOrder q
    → IsInOrder (run_timers run ts q)
unfolding run_timers
run_timers-IsInOrder run [] q h s = s
run_timers-IsInOrder run (t ∷ ts) q h s =
    run_timers-IsInOrder run ts (run t q) h (Calls-IsInOrder q (run t q) s (h t q))

restart-positive :
    (now : ℕ) (t : Timer) → 0 < now → t.repeat ≡ true → 0 < (restart now t).expiration
unfolding restart
restart-positive now t h e = rw (e, restart) (omega arith)

restart_all-IsInOrder :
    (now : ℕ) (ts : List Timer) (q : TimerQueue)
    → 0 < now
    → IsInOrder q
    → IsInOrder (restart_all now ts q)
unfolding restart_all
restart_all-IsInOrder now [] q h s = s
restart_all-IsInOrder now (t ∷ ts) q h s =
    elim (Bool-cases (t.repeat && not (contains (active_timer t) q.canceling_timers))) [
      | inl e ↦
          rw (e, restart_all)
            (restart_all-IsInOrder now ts (insert (restart now t) q).1 h
              (insert-IsInOrder (restart now t) q (restart-positive now t h (ground (arith, e))) s))
      | inr e ↦ rw (e, restart_all) (restart_all-IsInOrder now ts q h s)
    ]

set_alarm-Covers :
    (ts : List Timer) (alarm : Option ℕ) → IsOrdered ts → From 1 ts → Covers (set_alarm ts alarm) ts
set_alarm-Covers [] alarm o p = tt
set_alarm-Covers (t ∷ ts) alarm o p =
    let valid : ltb 0 t.expiration ≡ true = ground arith in rw valid (omega arith, o.0)

From-behind : (a : ℕ) (xs ys : List Timer) → From a (xs ++ ys) → From a ys
From-behind a [] ys h = h
From-behind a (x ∷ xs) ys h = From-behind a xs ys h.1

IsOrdered-behind : (xs ys : List Timer) → IsOrdered (xs ++ ys) → IsOrdered ys
IsOrdered-behind [] ys h = h
IsOrdered-behind (x ∷ xs) ys h = IsOrdered-behind xs ys h.1

-- What `handleRead` leaves is in order, and the timerfd is set for it.
pub record IsArmed (q : TimerQueue) : Type 0 where
  pub in_order : IsInOrder q
  pub covered : Covers q.alarm q.timers

reset-IsArmed :
    (expired : List Timer) (now : ℕ) (q : TimerQueue)
    → 0 < now
    → IsInOrder q
    → IsArmed (reset expired now q)
unfolding reset
reset-IsArmed expired now q h s =
    let r = restart_all-IsInOrder now expired q h s in
    record {
      in_order = record { ordered = r.ordered; positive = r.positive };
      covered = set_alarm-Covers (restart_all now expired q).timers _ r.ordered r.positive;
    }

get_expired-IsInOrder : (now : ℕ) (q : TimerQueue) → IsInOrder q → IsInOrder (get_expired now q).1
unfolding get_expired
get_expired-IsInOrder now q s =
    let (expired, left) = split_expired now q.timers in
    let p = split_expired-Splits now q.timers s.ordered in
    record {
      ordered = IsOrdered-behind expired left (subst IsOrdered (sym p.all) s.ordered);
      positive = From-behind 1 expired left (subst (From 1) (sym p.all) s.positive);
    }

handle_read-IsArmed :
    (run : Timer → TimerQueue → TimerQueue) (now : ℕ) (q : TimerQueue)
    → 0 < now
    → ((t : Timer) (u : TimerQueue) → Calls u (run t u))
    → IsInOrder q
    → IsArmed (handle_read run now q)
unfolding handle_read
handle_read-IsArmed run now q h calls s =
    let disarmed : IsInOrder (record q { alarm = none }) = record {
      ordered = s.ordered;
      positive = s.positive;
    } in
    let (expired, q1) = get_expired now (record q { alarm = none }) in
    let g = get_expired-IsInOrder now (record q { alarm = none }) disarmed in
    let calling : TimerQueue = record q1 { calling_expired_timers = true; canceling_timers = [] } in
    let c : IsInOrder calling = record { ordered = g.ordered; positive = g.positive } in
    let r = run_timers-IsInOrder run expired calling calls c in
    reset-IsArmed expired now
      (record (run_timers run expired calling) { calling_expired_timers = false }) h
      (record { ordered = r.ordered; positive = r.positive })

earliest_of :
    (t : Timer) (ts : List Timer) → is_earliest t ts ≡ true → IsOrdered ts → From t.expiration ts
earliest_of t [] e o = tt
earliest_of t (u ∷ us) e o =
    (ground (arith, e), From-trans t.expiration u.expiration us (ground (arith, e)) o.0)

Covers-From : (a : ℕ) (ts : List Timer) → From a ts → Covers (some a) ts
Covers-From a [] h = tt
Covers-From a (t ∷ ts) h = h

later_of :
    (t : Timer) (ts : List Timer) (alarm : Option ℕ)
    → is_earliest t ts ≡ false
    → Covers alarm ts
    → Covers alarm (insert_timer t ts)
unfolding insert_timer
later_of t [] alarm e k = cc
later_of t (u ∷ us) none e k = absurd k
later_of t (u ∷ us) (some a) e k =
    Covers-From a (insert_timer t (u ∷ us)) (From-insert a t (u ∷ us) (ground (arith, e, k.0)) k)

Covers-erase :
    (i : ℕ) (ts : List Timer) (alarm : Option ℕ) → Covers alarm ts → Covers alarm (erase_timer i ts)
unfolding erase_timer
Covers-erase i [] alarm k = tt
Covers-erase i (u ∷ us) none k = absurd k
Covers-erase i (u ∷ us) (some a) k =
    Covers-From a (erase_timer i (u ∷ us)) (From-erase a i (u ∷ us) k)

add-IsArmed :
    (t : Timer) (q : TimerQueue) → 0 < t.expiration → IsArmed q → IsArmed (add_timer_in_loop t q)
unfolding add_timer_in_loop insert
add-IsArmed t q h s = record {
  in_order = add-IsInOrder t q h s.in_order;
  covered = elim (Bool-cases (is_earliest t q.timers)) [
    | inl e ↦
        rw (e, add_timer_in_loop)
          (Covers-From t.expiration (insert_timer t q.timers) (
            From-insert t.expiration t q.timers (omega arith)
              (earliest_of t q.timers e s.in_order.ordered)))
    | inr e ↦ rw (e, add_timer_in_loop) (later_of t q.timers q.alarm e s.covered)
  ];
}

cancel-IsArmed : (id : ℕ × ℕ) (q : TimerQueue) → IsArmed q → IsArmed (cancel_in_loop id q)
unfolding cancel_in_loop
cancel-IsArmed id q s = record {
  in_order = cancel-IsInOrder id q s.in_order;
  covered = elim (Bool-cases (contains id q.active_timers)) [
    | inl e ↦ rw (e, cancel_in_loop) (Covers-erase id.0 q.timers q.alarm s.covered)
    | inr e ↦
        rw (e, cancel_in_loop)
          (elim (Bool-cases q.calling_expired_timers) [
            | inl f ↦ rw f s.covered
            | inr f ↦ rw f s.covered
          ])
  ];
}

-- Whatever timers with a valid expiration are added, whatever is cancelled, and whenever the
-- timerfd goes off, whose callbacks may add and cancel timers too: the timers stay in the order of
-- expiration, and while there are any the timerfd is set to the expiration of the first, or to an
-- earlier one. So every timer is waited for.
pub Run-IsArmed : {q : TimerQueue} → Run q → IsArmed q
Run-IsArmed fresh = record { in_order = record { ordered = tt; positive = tt }; covered = tt }
Run-IsArmed (adding {q} t r h) = add-IsArmed t q h (Run-IsArmed r)
Run-IsArmed (cancelling {q} id r) = cancel-IsArmed id q (Run-IsArmed r)
Run-IsArmed (firing {q} run now r h calls) =
    handle_read-IsArmed run now q h calls (Run-IsArmed r).in_order
