-- ===== src/Net/TimerQueue.antt =====
-- mymuduo/net/TimerQueue.cpp, Timer.h and Timer.cpp: the timers of a loop, in the order of their
-- expiration. An entry of `timers_` is the timer that its pointer leads to, which keeps its
-- expiration while it is in the set; `address` is the pointer. An interval is the number of
-- microseconds that `addTime` adds. `alarm` is the expiration that `timerfd_` was last set to, and
-- `none` once it has gone off.
pub mod Armed
pub mod Alarm
pub mod Clock
pub mod Calls
pub mod Free
pub mod Listed
pub mod Live
pub mod Later
pub mod Cancelled
pub mod Ascending
pub mod Order
pub mod Calling
pub mod Within
use simple_http_server.Common.{
  ℕ, ◌+◌, Bool, true, false, not, ◌&&◌, ◌||◌, List, [], ◌∷◌, ◌++◌, Option, none, some, ltb, leb,
  ◌==◌, if◌then◌else◌,
}

pub record Timer : Type 0 where
  pub address : ℕ
  pub sequence : ℕ
  pub expiration : ℕ
  pub interval : ℕ
  pub repeat : Bool

-- `operator<` of the pairs in `timers_` and in `activeTimers_`.
unfoldable pub pair_less : ℕ × ℕ → ℕ × ℕ → Bool
pair_less (a, b) (c, d) = ltb a c || (a == c && ltb b d)

abbrev pub entry : Timer → ℕ × ℕ
entry t = (t.expiration, t.address)

abbrev pub active_timer : Timer → ℕ × ℕ
active_timer t = (t.address, t.sequence)

-- `restart` with a timestamp; an invalid one is 0.
unfoldable pub restart : ℕ → Timer → Timer
restart now t =
    if t.repeat then record t { expiration = now + t.interval } else record t { expiration = 0 }

pub record TimerQueue : Type 0 where
  pub timers : List Timer
  pub active_timers : List (ℕ × ℕ)
  pub calling_expired_timers : Bool
  pub canceling_timers : List (ℕ × ℕ)
  pub alarm : Option ℕ

abbrev pub new_queue : TimerQueue
new_queue = record {
  timers = [];
  active_timers = [];
  calling_expired_timers = false;
  canceling_timers = [];
  alarm = none;
}

-- `std::set`: insertion, search and removal.
unfoldable pub insert_pair : ℕ × ℕ → List (ℕ × ℕ) → List (ℕ × ℕ)
unfolding pair_less
insert_pair x [] = x ∷ []
insert_pair x (y ∷ ys) =
    if pair_less x y then x ∷ y ∷ ys else if pair_less y x then y ∷ insert_pair x ys else y ∷ ys

abbrev pub same_pair : ℕ × ℕ → ℕ × ℕ → Bool
same_pair (a, b) (c, d) = a == c && b == d

unfoldable pub contains : ℕ × ℕ → List (ℕ × ℕ) → Bool
contains x [] = false
contains x (y ∷ ys) = same_pair x y || contains x ys

unfoldable pub erase_pair : ℕ × ℕ → List (ℕ × ℕ) → List (ℕ × ℕ)
erase_pair x [] = []
erase_pair x (y ∷ ys) = if same_pair x y then ys else y ∷ erase_pair x ys

unfoldable pub insert_timer : Timer → List Timer → List Timer
unfolding pair_less
insert_timer t [] = t ∷ []
insert_timer t (u ∷ us) =
    if pair_less (entry t) (entry u)
    then t ∷ u ∷ us
    else if pair_less (entry u) (entry t)
    then u ∷ insert_timer t us
    else u ∷ us

-- The entry with the pointer, whose expiration is read through it.
unfoldable pub erase_timer : ℕ → List Timer → List Timer
erase_timer address [] = []
erase_timer address (u ∷ us) = if u.address == address then us else u ∷ erase_timer address us

abbrev pub is_earliest : Timer → List Timer → Bool
is_earliest t [] = true
is_earliest t (u ∷ us) = ltb t.expiration u.expiration

-- `insert`: whether the earliest expiration has changed, and the queue.
unfoldable pub insert : Timer → TimerQueue → Bool × TimerQueue
unfolding insert_timer insert_pair
insert t q = (
  is_earliest t q.timers,
  record q {
    timers = insert_timer t q.timers;
    active_timers = insert_pair (active_timer t) q.active_timers;
  },
)

unfoldable pub add_timer_in_loop : Timer → TimerQueue → TimerQueue
unfolding insert
add_timer_in_loop t q =
    let (earliest_changed, q1) = insert t q in
    if earliest_changed then record q1 { alarm = some t.expiration } else q1

unfoldable pub cancel_in_loop : ℕ × ℕ → TimerQueue → TimerQueue
unfolding contains erase_timer erase_pair insert_pair
cancel_in_loop id q =
    if contains id q.active_timers
    then record q {
      timers = erase_timer id.0 q.timers;
      active_timers = erase_pair id q.active_timers;
    }
    else if q.calling_expired_timers
    then record q { canceling_timers = insert_pair id q.canceling_timers }
    else q

-- The timers before the sentry, whose pointer is above every other, and those behind it.
unfoldable pub split_expired : ℕ → List Timer → List Timer × List Timer
split_expired now [] = ([], [])
split_expired now (t ∷ ts) =
    let (expired, left) = split_expired now ts in
    if leb t.expiration now then (t ∷ expired, left) else ([], t ∷ ts)

unfoldable pub erase_all : List Timer → List (ℕ × ℕ) → List (ℕ × ℕ)
unfolding erase_pair
erase_all [] active = active
erase_all (t ∷ ts) active = erase_all ts (erase_pair (active_timer t) active)

unfoldable pub get_expired : ℕ → TimerQueue → List Timer × TimerQueue
unfolding split_expired erase_all
get_expired now q =
    let (expired, left) = split_expired now q.timers in
    (expired, record q { timers = left; active_timers = erase_all expired q.active_timers })

unfoldable pub restart_all : ℕ → List Timer → TimerQueue → TimerQueue
unfolding restart insert contains
restart_all now [] q = q
restart_all now (t ∷ ts) q =
    if t.repeat && not (contains (active_timer t) q.canceling_timers)
    then restart_all now ts (insert (restart now t) q).1
    else restart_all now ts q

-- The timerfd is set to the earliest expiration, if that is a valid one.
abbrev pub set_alarm : List Timer → Option ℕ → Option ℕ
set_alarm [] alarm = alarm
set_alarm (t ∷ ts) alarm = if ltb 0 t.expiration then some t.expiration else alarm

unfoldable pub reset : List Timer → ℕ → TimerQueue → TimerQueue
unfolding restart_all
reset expired now q =
    let q1 = restart_all now expired q in record q1 { alarm = set_alarm q1.timers q1.alarm }

-- `run` is what the callback of a timer does to the queue.
unfoldable pub run_timers : (Timer → TimerQueue → TimerQueue) → List Timer → TimerQueue → TimerQueue
run_timers run [] q = q
run_timers run (t ∷ ts) q = run_timers run ts (run t q)

unfoldable pub handle_read : (Timer → TimerQueue → TimerQueue) → ℕ → TimerQueue → TimerQueue
unfolding get_expired run_timers reset
handle_read run now q =
    let (expired, q1) = get_expired now (record q { alarm = none }) in
    let q2 =
      run_timers run expired (record q1 { calling_expired_timers = true; canceling_timers = [] }) in
    reset expired now (record q2 { calling_expired_timers = false })
