-- ===== src/Net/TimerTests.antt =====
-- The calls of timers at concrete values.
use simple_http_server.Common.{◌+◌, ◌*◌, ◌^◌, ◌≤◌, ◌<◌, ◌≡◌, ◌⊎◌, refl, arith, false, true, length}
use simple_http_server.Common.Outcome.{faulted, bad_access}
use simple_http_server.Net.TimerQueue.{
  Timer, TimerQueue, new_queue, add_timer_in_loop, cancel_in_loop, get_expired, run_timers,
  handle_read,
}
use simple_http_server.Net.TimerQueue.Listed.{listed}
use simple_http_server.Net.TimerQueue.Later.{returns, adds, taken, Later, at_once, adding, firing}
use simple_http_server.Net.TimerQueue.Cancelled.{cancelled-Later}
use simple_http_server.Net.TimerQueue.Within.{cancelled_within-Later}
use simple_http_server.Net.TimerQueue.Clock.{
  how_much_time_from_now, IsSettable, how_much_time_from_now-IsSettable,
}
use simple_http_server.Net.TimerQueue.Calls.{Seconds, new_timed_loop, run_after}

how_much_time_from_now-IsSettable_example :
    let t = how_much_time_from_now 2500000 1000000 in
    let nanoseconds = t.tv_sec * 10 ^ 9 + t.tv_nsec in
    IsSettable t
    × (((1000000 + 100 ≤ 2500000) × (1000000 * 1000 + nanoseconds ≡ 2500000 * 1000))
        ⊎ ((2500000 < 1000000 + 100) × (nanoseconds ≡ 100 * 1000)))
how_much_time_from_now-IsSettable_example = how_much_time_from_now-IsSettable 2500000 1000000

abbrev every_two : Timer
every_two = record { address = 64; sequence = 1; expiration = 7; interval = 2; repeat = true }

abbrev one_running : TimerQueue
one_running = add_timer_in_loop every_two new_queue

abbrev five : Seconds
five = record { microseconds = 5; positive = true }

-- A loop as it is constructed has no queue of timers.
no_timers : run_after true 32 0 five (new_timed_loop 0) ≡ faulted bad_access
unfolding run_after
no_timers = refl

-- Two timers; one is cancelled, and the callback of the other adds a third.
abbrev cancelled_one : Timer
cancelled_one = record { address = 96; sequence = 2; expiration = 6; interval = 0; repeat = false }

abbrev third : Timer
third = record { address = 96; sequence = 3; expiration = 20; interval = 0; repeat = false }

abbrev both_added : TimerQueue
both_added = add_timer_in_loop cancelled_one one_running

abbrev adds_third : Timer → TimerQueue → TimerQueue
adds_third t q = add_timer_in_loop third q

abbrev fired : TimerQueue
fired = handle_read adds_third 8 (cancel_in_loop (96, 2) both_added)

both_added-Later : Later 0 new_queue both_added
unfolding add_timer_in_loop
both_added-Later =
    adding cancelled_one (adding every_two at_once (omega arith) tt) (omega arith)
      (λ e. omega (arith, e), tt)

fired-Later : Later 2 (cancel_in_loop (96, 2) both_added) fired
unfolding add_timer_in_loop cancel_in_loop get_expired run_timers
fired-Later =
    firing adds_third 8 at_once (adds third returns (omega arith) tt (λ e. omega (arith, e), tt))

cancelled-Later_example : listed (96, 2) (taken 30 fired) ≡ false
cancelled-Later_example = cancelled-Later (96, 2) 30 both_added-Later (omega arith) fired-Later

-- The third and the repeated timer are run instead.
two_taken : length (taken 30 fired) ≡ 2
unfolding add_timer_in_loop cancel_in_loop get_expired handle_read
two_taken = refl

-- A repeated timer that cancels itself.
abbrev cancels_itself : Timer → TimerQueue → TimerQueue
cancels_itself t q = cancel_in_loop (t.address, t.sequence) q

one_running-Later : Later 0 new_queue one_running
one_running-Later = adding every_two at_once (omega arith) tt

cancelled_within-Later_example :
    listed (64, 1) (taken 30 (handle_read cancels_itself 8 one_running)) ≡ false
unfolding add_timer_in_loop get_expired run_timers
cancelled_within-Later_example =
    cancelled_within-Later {low = 1} (64, 1) cancels_itself 8 30 one_running-Later (omega arith)
      returns returns at_once

-- It would be restarted otherwise.
restarted_else : length (taken 30 (handle_read (λ t q. q) 8 one_running)) ≡ 1
unfolding add_timer_in_loop get_expired handle_read
restarted_else = refl
