-- ===== src/Net/TimerQueue/Clock.antt =====
-- mymuduo/net/TimerQueue.cpp and utils/Timestamp.h: the time that the timerfd is set to. A timestamp
-- is its number, which is not negative.
use simple_http_server.Common.{
  ℕ, ◌+◌, ◌-◌, ◌*◌, ◌/◌, ◌%◌, ◌^◌, ◌≤◌, ◌<◌, ◌≡◌, ◌⊎◌, inl, inr, Bool-cases, arith, ltb,
  if◌then◌else◌,
}

abbrev pub micro_seconds_per_second : ℕ
micro_seconds_per_second = 1000 * 1000

pub record Timespec : Type 0 where
  pub tv_sec : ℕ
  pub tv_nsec : ℕ

-- The difference may be negative, and is then below 100 too.
abbrev pub microseconds_to : ℕ → ℕ → ℕ
microseconds_to when now = if ltb when (now + 100) then 100 else when - now

unfoldable pub how_much_time_from_now : ℕ → ℕ → Timespec
how_much_time_from_now when now = record {
  tv_sec = microseconds_to when now / micro_seconds_per_second;
  tv_nsec = microseconds_to when now % micro_seconds_per_second * 1000;
}

-- What `timerfd_settime` takes: a part of a second below a second. A zero time would disarm it.
pub record IsSettable (t : Timespec) : Type 0 where
  pub below_second : t.tv_nsec < 10 ^ 9
  pub arms : 0 < t.tv_sec + t.tv_nsec

in_nanoseconds : (us : ℕ) → us / 1000000 * 10 ^ 9 + us % 1000000 * 1000 ≡ us * 1000
in_nanoseconds us = omega arith

-- For every expiration and every reading of the clock, one after the expiration too,
-- `howMuchTimeFromNow` gives a time that `timerfd_settime` takes and that does not disarm it: the
-- time to the expiration to the microsecond, and 100 microseconds where that is less.
pub how_much_time_from_now-IsSettable :
    (when now : ℕ)
    → let t = how_much_time_from_now when now in
      let nanoseconds = t.tv_sec * 10 ^ 9 + t.tv_nsec in
      IsSettable t
      × (((now + 100 ≤ when) × (now * 1000 + nanoseconds ≡ when * 1000))
          ⊎ ((when < now + 100) × (nanoseconds ≡ 100 * 1000)))
unfolding how_much_time_from_now
how_much_time_from_now-IsSettable when now =
    let us = microseconds_to when now in
    let total : us / 1000000 * 10 ^ 9 + us % 1000000 * 1000 ≡ us * 1000 = in_nanoseconds us in
    let least : 100 ≤ us = ground arith in
    (
      record { below_second = omega arith; arms = omega (arith, total, least) },
      elim (Bool-cases (ltb when (now + 100))) [
        | inl late ↦
            let same : us ≡ 100 = ground (arith, late) in
            inr (ground (arith, late), omega (arith, total, same))
        | inr early ↦
            let exact : now + us ≡ when = ground (arith, early) in
            inl (ground (arith, early), omega (arith, total, exact))
      ],
    )
