-- ===== src/Net/TimerQueue/Calling.antt =====
-- While the callbacks of the expired timers are called, none of these is active.
use simple_http_server.Common.{
  ℕ, ◌≡◌, refl, sym, subst, ◌∙◌, arith, true, false, List, inl, inr, Bool-cases, if_cases,
}
use simple_http_server.Net.TimerQueue.{
  Timer, TimerQueue, active_timer, same_pair, contains, is_earliest, insert, add_timer_in_loop,
  cancel_in_loop, get_expired,
}
use simple_http_server.Net.TimerQueue.Free.{IsFree}
use simple_http_server.Net.TimerQueue.Listed.{listed, listed-IsFree, contains-insert}
use simple_http_server.Net.TimerQueue.Later.{Calls, returns, adds, cancels, taken, calling}
use simple_http_server.Net.TimerQueue.Ascending.{contains-erase_none, listed-erase_all}
use simple_http_server.Net.TimerQueue.Order.{IsSorted}

-- No timer that has expired is active, while the callbacks are called.
pub record IsCalling (expired : List Timer) (q : TimerQueue) : Type 0 where
  pub flagged : q.calling_expired_timers ≡ true
  pub inactive : (id : ℕ × ℕ) → listed id expired ≡ true → contains id q.active_timers ≡ false

-- An expired timer and a new one at a free address are two.
apart_from :
    (id : ℕ × ℕ) (t : Timer) (ts : List Timer)
    → IsFree t.address ts
    → listed id ts ≡ true
    → same_pair id (active_timer t) ≡ false
apart_from id t ts free e = elim (Bool-cases (same_pair id (active_timer t))) [
  | inl same ↦
      let at : t.address ≡ id.0 = ground (arith, same) in
      let gone : listed id ts ≡ false = listed-IsFree id ts (subst (λ a. IsFree a ts) at free) in
      absurd (let k : false ≡ true = sym gone ∙ e in cc)
  | inr other ↦ other
]

add-IsCalling :
    (ts : List Timer) (t : Timer) (q : TimerQueue)
    → IsFree t.address ts
    → IsCalling ts q
    → IsCalling ts (add_timer_in_loop t q)
unfolding add_timer_in_loop insert
add-IsCalling ts t q free s =
    let inactive = λ (id : ℕ × ℕ) (e : listed id ts ≡ true).
      contains-insert id (active_timer t) q.active_timers
      ∙ ground (arith, apart_from id t ts free e, s.inactive id e) in
    if_cases (IsCalling ts) (is_earliest t q.timers) _ _
      (λ _. record { flagged = s.flagged; inactive = inactive })
      (λ _. record { flagged = s.flagged; inactive = inactive })

cancel-IsCalling :
    (ts : List Timer) (id : ℕ × ℕ) (q : TimerQueue)
    → IsCalling ts q
    → IsCalling ts (cancel_in_loop id q)
unfolding cancel_in_loop
cancel-IsCalling ts id q s =
    if_cases (IsCalling ts) (contains id q.active_timers) _ _
      (λ _. record {
        flagged = s.flagged;
        inactive = λ j e. contains-erase_none j id q.active_timers (s.inactive j e);
      })
      (λ _.
        if_cases (IsCalling ts) q.calling_expired_timers _ _
          (λ _. record { flagged = s.flagged; inactive = s.inactive }) (λ _. s))

pub Calls-IsCalling :
    {low : ℕ} {ts : List Timer} {q u : TimerQueue}
    → Calls low ts q u
    → IsCalling ts q
    → IsCalling ts u
Calls-IsCalling returns s = s
Calls-IsCalling {ts = ts} (adds {u = u} t c h free apart) s =
    add-IsCalling ts t u apart (Calls-IsCalling c s)
Calls-IsCalling {ts = ts} (cancels {u = u} id c) s = cancel-IsCalling ts id u (Calls-IsCalling c s)

pub calling-IsCalling :
    (now : ℕ) (q : TimerQueue) → IsSorted q → IsCalling (taken now q) (calling now q)
unfolding get_expired
calling-IsCalling now q s = record {
  flagged = refl;
  inactive = λ id e. listed-erase_all id (taken now q) q.active_timers s e;
}
