-- ===== src/Net/TimerQueue/Within.antt =====
-- A timer that is cancelled by a callback, its own or another's, is not restarted.
use simple_http_server.Common.{
  ℕ, ◌≤◌, ◌≡◌, ◌⊎◌, refl, sym, ◌∙◌, arith, true, false, not, ◌&&◌, List, [], ◌∷◌, none, inl, inr,
  Bool-cases, if_cases,
}
use simple_http_server.Net.TimerQueue.{
  Timer, TimerQueue, new_queue, active_timer, same_pair, contains, is_earliest, insert,
  add_timer_in_loop, cancel_in_loop, restart, restart_all, reset, run_timers, handle_read,
}
use simple_http_server.Net.TimerQueue.Listed.{listed, contains-insert, listed-erase_same}
use simple_http_server.Net.TimerQueue.Live.{IsLive, IsLive-as}
use simple_http_server.Net.TimerQueue.Later.{
  Calls, returns, adds, cancels, taken, calling, Later, restart-same, get_expired-IsLive,
  Calls-IsLive, Later-IsLive,
}
use simple_http_server.Net.TimerQueue.Cancelled.{
  false_unless, listed-insert_other, same_pair_later, listed-add, listed-cancel, listed-get_expired,
  listed-restart_all, listed-Later,
}
use simple_http_server.Net.TimerQueue.Ascending.{contains_same}
use simple_http_server.Net.TimerQueue.Calling.{IsCalling, Calls-IsCalling, calling-IsCalling}
use simple_http_server.Net.TimerQueue.Order.{Later-IsSorted}

-- The timer is not in the queue; and it has not expired, or is among those that are not to be
-- restarted.
record IsDropped (id : ℕ × ℕ) (expired : List Timer) (q : TimerQueue) : Type 0 where
  unlisted : listed id q.timers ≡ false
  barred : (listed id expired ≡ false) ⊎ (contains id q.canceling_timers ≡ true)

cancel-IsDropped :
    (id : ℕ × ℕ) (ts : List Timer) (q : TimerQueue)
    → IsLive ts q
    → IsCalling ts q
    → IsDropped id ts (cancel_in_loop id q)
unfolding cancel_in_loop
cancel-IsDropped id ts q live s =
    if_cases (IsDropped id ts) (contains id q.active_timers) _ _
      (λ e. record {
        unlisted = listed-erase_same id q.timers live.distinct;
        barred = inl (unexpired e);
      })
      (λ e.
        let gone : listed id q.timers ≡ false = false_unless (live.matched id) e in
        rw (s.flagged) (record {
          unlisted = gone;
          barred = inr (contains-insert id id q.canceling_timers ∙ ground arith);
        }))
  where
    unexpired : contains id q.active_timers ≡ true → listed id ts ≡ false
    unexpired e = elim (Bool-cases (listed id ts)) [
      | inl k ↦ absurd (let m : false ≡ true = sym (s.inactive id k) ∙ e in cc)
      | inr k ↦ k
    ]

later_cancel-IsDropped :
    (id j : ℕ × ℕ) (ts : List Timer) (q : TimerQueue)
    → IsDropped id ts q
    → IsDropped id ts (cancel_in_loop j q)
later_cancel-IsDropped id j ts q s = record {
  unlisted = listed-cancel id j q s.unlisted;
  barred = elim s.barred [ inl e ↦ inl e | inr e ↦ inr (kept e) ];
}
  where
    kept :
        contains id q.canceling_timers ≡ true
        → contains id (cancel_in_loop j q).canceling_timers ≡ true
    kept e =
        unfold cancel_in_loop in
        if_cases (λ (u : TimerQueue). contains id u.canceling_timers ≡ true)
          (contains j q.active_timers) _ _ (λ _. e)
          (λ _.
            if_cases (λ (u : TimerQueue). contains id u.canceling_timers ≡ true)
              q.calling_expired_timers _ _
              (λ _. contains-insert id j q.canceling_timers ∙ ground (arith, e)) (λ _. e))

later_add-IsDropped :
    (id : ℕ × ℕ) (t : Timer) (ts : List Timer) (q : TimerQueue)
    → same_pair id (active_timer t) ≡ false
    → IsDropped id ts q
    → IsDropped id ts (add_timer_in_loop t q)
later_add-IsDropped id t ts q n s = record {
  unlisted = listed-add id t q n s.unlisted;
  barred =
      unfold add_timer_in_loop in
      unfold insert in
      if_cases
        (λ (u : TimerQueue). (listed id ts ≡ false) ⊎ (contains id u.canceling_timers ≡ true))
        (is_earliest t q.timers) _ _ (λ _. s.barred) (λ _. s.barred);
}

Calls-IsDropped :
    {low : ℕ} {ts : List Timer} {q u : TimerQueue} (id : ℕ × ℕ)
    → id.1 ≤ low
    → Calls low ts q u
    → IsDropped id ts q
    → IsDropped id ts u
Calls-IsDropped id h returns s = s
Calls-IsDropped {low} {ts} id h (adds {u = u} t c k free apart) s =
    later_add-IsDropped id t ts u (same_pair_later id low t h k) (Calls-IsDropped id h c s)
Calls-IsDropped {ts = ts} id h (cancels {u = u} j c) s =
    later_cancel-IsDropped id j ts u (Calls-IsDropped id h c s)

-- A timer that is among those not to be restarted is not.
listed-barred :
    (id : ℕ × ℕ) (now : ℕ) (ts : List Timer) (q : TimerQueue)
    → contains id q.canceling_timers ≡ true
    → listed id q.timers ≡ false
    → listed id (restart_all now ts q).timers ≡ false
unfolding restart_all insert
listed-barred id now [] q b e = e
listed-barred id now (t ∷ ts) q b e =
    if_cases (λ (u : TimerQueue). listed id u.timers ≡ false)
      (t.repeat && not (contains (active_timer t) q.canceling_timers)) _ _
      (λ k.
        listed-barred id now ts (insert (restart now t) q).1 b
          (listed-insert_other id (restart now t) q.timers (other k) e))
      (λ _. listed-barred id now ts q b e)
  where
    other :
        (t.repeat && not (contains (active_timer t) q.canceling_timers)) ≡ true
        → same_pair id (active_timer (restart now t)) ≡ false
    other k = elim (Bool-cases (same_pair id (active_timer (restart now t)))) [
      | inl same ↦
          let (address, sequence) = restart-same now t in
          let again : same_pair id (active_timer t) ≡ true = rw (address, sequence) at same in
          let found = contains_same id (active_timer t) q.canceling_timers again in
          ground (arith, k, b, found)
      | inr n ↦ n
    ]

IsDropped-restart_all :
    (id : ℕ × ℕ) (now : ℕ) (ts : List Timer) (q : TimerQueue)
    → IsDropped id ts q
    → listed id (restart_all now ts q).timers ≡ false
IsDropped-restart_all id now ts q s = elim s.barred [
  | inl e ↦ listed-restart_all id now ts q e s.unlisted
  | inr e ↦ listed-barred id now ts q e s.unlisted
]

-- From a new queue, through any adding, cancelling and firing, where a new timer gets a free address
-- and a sequence number above those given before: the timerfd goes off at `now`, and while the
-- callbacks of the expired timers are called, one of them cancels a timer: its own, one that has
-- expired with it, one that is still to expire, or one that is gone; no later timer has its
-- sequence number. Then the timer is not restarted: through whatever follows, `handleRead` at no
-- time takes it out to be run.
pub cancelled_within-Later :
    {low : ℕ} {q v u : TimerQueue} (id : ℕ × ℕ) (run : Timer → TimerQueue → TimerQueue)
    (now later : ℕ)
    → Later 0 new_queue q
    → id.1 ≤ low
    → Calls 0 (taken now q) (calling now q) v
    → Calls low (taken now q) (cancel_in_loop id v) (run_timers run (taken now q) (calling now q))
    → Later low (handle_read run now q) u
    → listed id (taken later u) ≡ false
unfolding listed handle_read reset
cancelled_within-Later {low} {q} {v} {u} id run now later before h first second after =
    let live : IsLive [] q = Later-IsLive before (record {
      matched = λ j e. absurd (let k : false ≡ true = e in cc);
      distinct = tt;
      distinct_expired = tt;
      apart = tt;
    }) in
    let disarmed = record q { alarm = none } in
    let live_calling =
      IsLive-as (taken now q) _ (calling now q) refl refl
        (get_expired-IsLive now disarmed (IsLive-as [] q disarmed refl refl live)) in
    let start = calling-IsCalling now q (Later-IsSorted before tt) in
    let dropped =
      cancel-IsDropped id (taken now q) v (Calls-IsLive first live_calling)
        (Calls-IsCalling first start) in
    let kept = Calls-IsDropped id h second dropped in
    let end =
      IsDropped-restart_all id now (taken now q)
        (record (run_timers run (taken now q) (calling now q)) { calling_expired_timers = false })
        (record { unlisted = kept.unlisted; barred = kept.barred }) in
    (listed-get_expired id later (record u { alarm = none }) (listed-Later id h after end)).0
