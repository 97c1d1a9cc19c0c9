-- ===== src/Net/TimerQueue/Order.antt =====
-- The set of active timers stays in ascending order through whatever a loop does to its timers.
use simple_http_server.Common.{ℕ, not, ◌&&◌, List, [], ◌∷◌, none, if_cases}
use simple_http_server.Net.TimerQueue.{
  Timer, TimerQueue, active_timer, contains, restart, is_earliest, insert, add_timer_in_loop,
  cancel_in_loop, get_expired, restart_all, reset, handle_read,
}
use simple_http_server.Net.TimerQueue.Later.{
  Calls, returns, adds, cancels, taken, Later, at_once, adding, cancelling, firing,
}
use simple_http_server.Net.TimerQueue.Ascending.{
  IsAscending, IsAscending-insert, IsAscending-erase, IsAscending-erase_all,
}

abbrev pub IsSorted : TimerQueue → Type 0
IsSorted q = IsAscending q.active_timers

add-IsSorted : (t : Timer) (q : TimerQueue) → IsSorted q → IsSorted (add_timer_in_loop t q)
unfolding add_timer_in_loop insert
add-IsSorted t q s =
    let i = IsAscending-insert (active_timer t) q.active_timers s in
    if_cases IsSorted (is_earliest t q.timers) _ _ (λ _. i) (λ _. i)

cancel-IsSorted : (id : ℕ × ℕ) (q : TimerQueue) → IsSorted q → IsSorted (cancel_in_loop id q)
unfolding cancel_in_loop
cancel-IsSorted id q s =
    if_cases IsSorted (contains id q.active_timers) _ _
      (λ _. IsAscending-erase id q.active_timers s)
      (λ _. if_cases IsSorted q.calling_expired_timers _ _ (λ _. s) (λ _. s))

Calls-IsSorted :
    {low : ℕ} {ts : List Timer} {q u : TimerQueue} → Calls low ts q u → IsSorted q → IsSorted u
Calls-IsSorted returns s = s
Calls-IsSorted (adds {u = u} t c h free apart) s = add-IsSorted t u (Calls-IsSorted c s)
Calls-IsSorted (cancels {u = u} id c) s = cancel-IsSorted id u (Calls-IsSorted c s)

restart_all-IsSorted :
    (now : ℕ) (ts : List Timer) (q : TimerQueue) → IsSorted q → IsSorted (restart_all now ts q)
unfolding restart_all insert
restart_all-IsSorted now [] q s = s
restart_all-IsSorted now (t ∷ ts) q s =
    if_cases IsSorted (t.repeat && not (contains (active_timer t) q.canceling_timers)) _ _
      (λ _.
        restart_all-IsSorted now ts (insert (restart now t) q).1
          (IsAscending-insert (active_timer (restart now t)) q.active_timers s))
      (λ _. restart_all-IsSorted now ts q s)

pub get_expired-IsSorted : (now : ℕ) (q : TimerQueue) → IsSorted q → IsSorted (get_expired now q).1
unfolding get_expired
get_expired-IsSorted now q s = IsAscending-erase_all (get_expired now q).0 q.active_timers s

pub Later-IsSorted : {low : ℕ} {q u : TimerQueue} → Later low q u → IsSorted q → IsSorted u
unfolding handle_read reset
Later-IsSorted at_once s = s
Later-IsSorted (adding {u = u} t r h free) s = add-IsSorted t u (Later-IsSorted r s)
Later-IsSorted (cancelling {u = u} id r) s = cancel-IsSorted id u (Later-IsSorted r s)
Later-IsSorted (firing {u = u} run now r c) s =
    restart_all-IsSorted now (taken now u) _
      (Calls-IsSorted c (get_expired-IsSorted now (record u { alarm = none }) (Later-IsSorted r s)))
