-- ===== src/Net/TimerQueue/Calls.antt =====
-- mymuduo/net/TimerQueue.cpp, Timer.h, TimerId.h, EventLoop.cpp and utils/Timestamp.h: the calls by
-- which any thread makes and cancels timers.
-- A `double` of seconds is the number of microseconds that `addTime` makes of it, and whether it is
-- above 0.0. The address of a new timer is a parameter.
use simple_http_server.Common.{ℕ, ◌+◌, Bool, false, Option, none, some, if◌then◌else◌}
use simple_http_server.Common.Outcome.{Outcome, returned, faulted, bad_access}
use simple_http_server.Utils.Atomic.{increment_and_get}
use simple_http_server.Net.EventLoop.{EventLoop, new_loop, queue_in_loop}
use simple_http_server.Net.TimerQueue.{
  Timer, active_timer, TimerQueue, add_timer_in_loop, cancel_in_loop,
}

pub record Seconds : Type 0 where
  pub microseconds : ℕ
  pub positive : Bool

unfoldable pub add_time : ℕ → Seconds → ℕ
add_time timestamp s = timestamp + s.microseconds

-- `Timer(cb, when, interval)`, with the counter of timers behind it.
unfoldable pub new_timer : ℕ → ℕ → Seconds → ℕ → Timer × ℕ
unfolding increment_and_get
new_timer address when interval created =
    let (sequence, created1) = increment_and_get 64 created in
    (
      record {
        address = address;
        sequence = sequence;
        expiration = when;
        interval = interval.microseconds;
        repeat = interval.positive;
      },
      created1,
    )

-- The functors that these calls give to the loop.
pub data TimerCall : Type 0 where
  adds : Timer → TimerCall
  cancels : ℕ × ℕ → TimerCall

unfoldable pub run_call : TimerCall → TimerQueue → TimerQueue
unfolding add_timer_in_loop cancel_in_loop
run_call (adds t) q = add_timer_in_loop t q
run_call (cancels id) q = cancel_in_loop id q

-- A loop with its `timerQueue_`, which is null where it is `none`; the counter is `s_numCreated_`.
pub record TimedLoop : Type 0 where
  pub loop : EventLoop TimerCall
  pub timer_queue : Option TimerQueue
  pub num_created : ℕ

-- The constructor of EventLoop leaves `timerQueue_` null, and nothing sets it later: in the program
-- every one of these calls reads through null.
abbrev pub new_timed_loop : ℕ → TimedLoop
new_timed_loop created = record { loop = new_loop; timer_queue = none; num_created = created }

-- `runInLoop` with the queue at hand.
unfoldable pub run_timer_call : Bool → TimerCall → TimerQueue → TimedLoop → TimedLoop
unfolding run_call queue_in_loop
run_timer_call in_loop_thread f q l =
    if in_loop_thread
    then record l { timer_queue = some (run_call f q) }
    else record l { loop = queue_in_loop false f l.loop }

abbrev pub add_timer_to :
    Bool → Timer × ℕ → Option TimerQueue → TimedLoop → Outcome ((ℕ × ℕ) × TimedLoop)
add_timer_to in_loop_thread made none l = faulted bad_access
add_timer_to in_loop_thread (t, created) (some q) l =
    returned (
      active_timer t,
      run_timer_call in_loop_thread (adds t) q (record l { num_created = created }),
    )

-- Returns also the `TimerId`, which is the pointer and the sequence number.
unfoldable pub add_timer : Bool → ℕ → ℕ → Seconds → TimedLoop → Outcome ((ℕ × ℕ) × TimedLoop)
unfolding run_timer_call new_timer
add_timer in_loop_thread address when interval l =
    add_timer_to in_loop_thread (new_timer address when interval l.num_created) l.timer_queue l

abbrev pub cancel_in : Bool → ℕ × ℕ → Option TimerQueue → TimedLoop → Outcome TimedLoop
cancel_in in_loop_thread id none l = faulted bad_access
cancel_in in_loop_thread id (some q) l = returned (run_timer_call in_loop_thread (cancels id) q l)

unfoldable pub cancel : Bool → ℕ × ℕ → TimedLoop → Outcome TimedLoop
unfolding run_timer_call
cancel in_loop_thread id l = cancel_in in_loop_thread id l.timer_queue l

abbrev pub no_interval : Seconds
no_interval = record { microseconds = 0; positive = false }

unfoldable pub run_at : Bool → ℕ → ℕ → TimedLoop → Outcome ((ℕ × ℕ) × TimedLoop)
unfolding add_timer
run_at in_loop_thread address time l = add_timer in_loop_thread address time no_interval l

-- `now` is what `Timestamp::now()` gives.
unfoldable pub run_after : Bool → ℕ → ℕ → Seconds → TimedLoop → Outcome ((ℕ × ℕ) × TimedLoop)
unfolding run_at add_time
run_after in_loop_thread address now delay l = run_at in_loop_thread address (add_time now delay) l

unfoldable pub run_every : Bool → ℕ → ℕ → Seconds → TimedLoop → Outcome ((ℕ × ℕ) × TimedLoop)
unfolding add_timer add_time
run_every in_loop_thread address now interval l =
    add_timer in_loop_thread address (add_time now interval) interval l
