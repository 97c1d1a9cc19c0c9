-- ===== src/Net/TimerQueue/Cancelled.antt =====
-- A timer that has been cancelled is not run any more.
use simple_http_server.Common.{
  ℕ, ◌≤◌, ◌<◌, ◌≡◌, refl, sym, ap, ap₂, ◌∙◌, arith, Bool, true, false, not, ◌&&◌, ◌||◌, List, [],
  ◌∷◌, none, if_cases,
}
use simple_http_server.Net.TimerQueue.{
  Timer, TimerQueue, active_timer, same_pair, new_queue, restart, contains, insert_timer,
  erase_timer, is_earliest, insert, add_timer_in_loop, cancel_in_loop, split_expired, get_expired,
  restart_all, reset, handle_read,
}
use simple_http_server.Net.TimerQueue.Listed.{
  listed, listed-insert, listed-erase, listed-append, listed-erase_same, split_expired-append,
}
use simple_http_server.Net.TimerQueue.Live.{IsLive}
use simple_http_server.Net.TimerQueue.Later.{
  Calls, returns, adds, cancels, taken, Later, at_once, adding, cancelling, firing, restart-same,
  Later-IsLive,
}

pub false_unless : {a b : Bool} → (a ≡ true → b ≡ true) → b ≡ false → a ≡ false
false_unless {a = false} h e = refl
false_unless {a = true} h e = absurd (let k : false ≡ true = sym e ∙ h refl in cc)

pub listed-insert_other :
    (id : ℕ × ℕ) (t : Timer) (us : List Timer)
    → same_pair id (active_timer t) ≡ false
    → listed id us ≡ false
    → listed id (insert_timer t us) ≡ false
listed-insert_other id t us n e = false_unless (listed-insert id t us) (ground (arith, n, e))

pub listed-erase_none :
    (id : ℕ × ℕ) (a : ℕ) (us : List Timer)
    → listed id us ≡ false
    → listed id (erase_timer a us) ≡ false
listed-erase_none id a us e = false_unless (listed-erase id a us) e

-- A timer with a greater sequence number is another one.
pub same_pair_later :
    (id : ℕ × ℕ) (low : ℕ) (t : Timer)
    → id.1 ≤ low
    → low < t.sequence
    → same_pair id (active_timer t) ≡ false
same_pair_later id low t h k = ground arith

pub listed-add :
    (id : ℕ × ℕ) (t : Timer) (q : TimerQueue)
    → same_pair id (active_timer t) ≡ false
    → listed id q.timers ≡ false
    → listed id (add_timer_in_loop t q).timers ≡ false
unfolding add_timer_in_loop insert
listed-add id t q n e =
    let i = listed-insert_other id t q.timers n e in
    if_cases (λ (u : TimerQueue). listed id u.timers ≡ false) (is_earliest t q.timers) _ _ (λ _. i)
      (λ _. i)

pub listed-cancel :
    (id j : ℕ × ℕ) (q : TimerQueue)
    → listed id q.timers ≡ false
    → listed id (cancel_in_loop j q).timers ≡ false
unfolding cancel_in_loop
listed-cancel id j q e =
    if_cases (λ (u : TimerQueue). listed id u.timers ≡ false) (contains j q.active_timers) _ _
      (λ _. listed-erase_none id j.0 q.timers e)
      (λ _.
        if_cases (λ (u : TimerQueue). listed id u.timers ≡ false) q.calling_expired_timers _ _
          (λ _. e) (λ _. e))

-- Behind its own cancelling a timer is in the queue no more.
pub listed-cancel_same :
    (id : ℕ × ℕ) (q : TimerQueue) → IsLive [] q → listed id (cancel_in_loop id q).timers ≡ false
unfolding cancel_in_loop
listed-cancel_same id q s =
    if_cases (λ (u : TimerQueue). listed id u.timers ≡ false) (contains id q.active_timers) _ _
      (λ _. listed-erase_same id q.timers s.distinct)
      (λ n.
        let e = false_unless (s.matched id) n in
        if_cases (λ (u : TimerQueue). listed id u.timers ≡ false) q.calling_expired_timers _ _
          (λ _. e) (λ _. e))

pub listed-Calls :
    {low : ℕ} {ts : List Timer} {q u : TimerQueue} (id : ℕ × ℕ)
    → id.1 ≤ low
    → Calls low ts q u
    → listed id q.timers ≡ false
    → listed id u.timers ≡ false
listed-Calls id h returns e = e
listed-Calls {low} id h (adds {u = u} t c k free apart) e =
    listed-add id t u (same_pair_later id low t h k) (listed-Calls id h c e)
listed-Calls id h (cancels {u = u} j c) e = listed-cancel id j u (listed-Calls id h c e)

-- Neither those taken out nor those left have a timer that the queue has not.
pub listed-get_expired :
    (id : ℕ × ℕ) (now : ℕ) (q : TimerQueue)
    → listed id q.timers ≡ false
    → (listed id (get_expired now q).0 ≡ false) × (listed id (get_expired now q).1.timers ≡ false)
unfolding get_expired
listed-get_expired id now q e =
    let (expired, left) = split_expired now q.timers in
    let both : (listed id expired || listed id left) ≡ false =
      sym (listed-append id expired left)
      ∙ ap (listed id) (split_expired-append now q.timers)
      ∙ e in
    (ground (arith, both), ground (arith, both))

pub listed-restart_all :
    (id : ℕ × ℕ) (now : ℕ) (ts : List Timer) (q : TimerQueue)
    → listed id ts ≡ false
    → listed id q.timers ≡ false
    → listed id (restart_all now ts q).timers ≡ false
unfolding restart_all listed insert
listed-restart_all id now [] q h e = e
listed-restart_all id now (t ∷ ts) q h e =
    let (address, sequence) = restart-same now t in
    let same : active_timer (restart now t) ≡ active_timer t =
      ap₂ (λ (a s : ℕ). (a, s)) address sequence in
    let other : same_pair id (active_timer (restart now t)) ≡ false =
      ap (same_pair id) same ∙ ground (arith, h) in
    if_cases (λ (u : TimerQueue). listed id u.timers ≡ false)
      (t.repeat && not (contains (active_timer t) q.canceling_timers)) _ _
      (λ _.
        listed-restart_all id now ts (insert (restart now t) q).1 (ground (arith, h))
          (listed-insert_other id (restart now t) q.timers other e))
      (λ _. listed-restart_all id now ts q (ground (arith, h)) e)

pub listed-Later :
    {low : ℕ} {q u : TimerQueue} (id : ℕ × ℕ)
    → id.1 ≤ low
    → Later low q u
    → listed id q.timers ≡ false
    → listed id u.timers ≡ false
unfolding handle_read reset
listed-Later id h at_once e = e
listed-Later {low} id h (adding {u = u} t r k free) e =
    listed-add id t u (same_pair_later id low t h k) (listed-Later id h r e)
listed-Later id h (cancelling {u = u} j r) e = listed-cancel id j u (listed-Later id h r e)
listed-Later id h (firing {u = u} run now r c) e =
    let (out, in_) =
      listed-get_expired id now (record u { alarm = none }) (listed-Later id h r e) in
    listed-restart_all id now (taken now u) _ out (listed-Calls id h c in_)

-- From a new queue, through any adding, cancelling and firing, where a new timer gets a free address
-- and a sequence number above all before: a timer is cancelled outside the callbacks, whatever state
-- it is in, and no later timer has its sequence number. Then, through whatever follows, `handleRead`
-- at no time takes this timer out to be run.
pub cancelled-Later :
    {low : ℕ} {q u : TimerQueue} (id : ℕ × ℕ) (now : ℕ)
    → Later 0 new_queue q
    → id.1 ≤ low
    → Later low (cancel_in_loop id q) u
    → listed id (taken now u) ≡ false
unfolding listed
cancelled-Later {low} {q} {u} id now before h after =
    let live : IsLive [] q = Later-IsLive before (record {
      matched = λ j e. absurd (let k : false ≡ true = e in cc);
      distinct = tt;
      distinct_expired = tt;
      apart = tt;
    }) in
    (listed-get_expired id now (record u { alarm = none })
      (listed-Later id h after (listed-cancel_same id q live))).0
