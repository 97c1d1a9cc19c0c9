-- ===== src/Net/TimerQueue/Live.antt =====
-- The timers of a queue and its set of active timers, through what a loop does to them.
use simple_http_server.Common.{
  ℕ, ◌≡◌, refl, sym, ap, ◌∙◌, arith, true, false, List, [], ◌∷◌, inl, inr, Bool-cases, if_cases,
}
use simple_http_server.Net.TimerQueue.{
  Timer, TimerQueue, active_timer, same_pair, contains, insert_pair, erase_pair, insert_timer,
  erase_timer, is_earliest, insert, add_timer_in_loop, cancel_in_loop,
}
use simple_http_server.Net.TimerQueue.Free.{IsFree}
use simple_http_server.Net.TimerQueue.Listed.{
  listed, listed-insert, contains-insert, contains-erase_other, listed-erase, IsFree-insert,
  IsFree-erase, IsDistinct, IsDistinct-insert, IsDistinct-erase, listed-erase_same,
}

-- Every timer of the list is active.
abbrev pub IsMatched : List Timer → List (ℕ × ℕ) → Type 0
IsMatched ts active = (id : ℕ × ℕ) → listed id ts ≡ true → contains id active ≡ true

-- The timers that have expired and are still to be run or restarted keep their addresses.
abbrev pub IsApart : List Timer → List Timer → Type 0
IsApart [] us = Unit {0}
IsApart (t ∷ ts) us = IsFree t.address us × IsApart ts us

pub record IsLive (expired : List Timer) (q : TimerQueue) : Type 0 where
  pub matched : IsMatched q.timers q.active_timers
  pub distinct : IsDistinct q.timers
  pub distinct_expired : IsDistinct expired
  pub apart : IsApart expired q.timers

-- `IsLive` looks at the timers and the active ones only.
pub IsLive-as :
    (ts : List Timer) (q u : TimerQueue)
    → u.timers ≡ q.timers
    → u.active_timers ≡ q.active_timers
    → IsLive ts q
    → IsLive ts u
IsLive-as ts q u e f s = record {
  matched = rw (e, f) (s.matched);
  distinct = rw e (s.distinct);
  distinct_expired = s.distinct_expired;
  apart = rw e (s.apart);
}

IsMatched-insert :
    (t : Timer) (ts : List Timer) (active : List (ℕ × ℕ))
    → IsMatched ts active
    → IsMatched (insert_timer t ts) (insert_pair (active_timer t) active)
IsMatched-insert t ts active m id e =
    contains-insert id (active_timer t) active ∙ ground (arith, listed-insert id t ts e, m id)

IsApart-insert :
    (ts : List Timer) (t : Timer) (us : List Timer)
    → IsFree t.address ts
    → IsApart ts us
    → IsApart ts (insert_timer t us)
IsApart-insert [] t us h a = tt
IsApart-insert (u ∷ ts) t us h a =
    (IsFree-insert u.address t us (λ e. h.0 (sym e)) a.0, IsApart-insert ts t us h.1 a.1)

IsApart-erase :
    (ts : List Timer) (i : ℕ) (us : List Timer) → IsApart ts us → IsApart ts (erase_timer i us)
IsApart-erase [] i us a = tt
IsApart-erase (t ∷ ts) i us a = (IsFree-erase t.address i us a.0, IsApart-erase ts i us a.1)

-- A timer is inserted at an address that no other has.
pub insert-IsLive :
    (ts : List Timer) (t : Timer) (q : TimerQueue)
    → IsFree t.address q.timers
    → IsFree t.address ts
    → IsLive ts q
    → IsLive ts (insert t q).1
unfolding insert
insert-IsLive ts t q free apart s = record {
  matched = IsMatched-insert t q.timers q.active_timers s.matched;
  distinct = IsDistinct-insert t q.timers free s.distinct;
  distinct_expired = s.distinct_expired;
  apart = IsApart-insert ts t q.timers apart s.apart;
}

pub add-IsLive :
    (ts : List Timer) (t : Timer) (q : TimerQueue)
    → IsFree t.address q.timers
    → IsFree t.address ts
    → IsLive ts q
    → IsLive ts (add_timer_in_loop t q)
unfolding add_timer_in_loop insert
add-IsLive ts t q free apart s =
    let i = insert-IsLive ts t q free apart s in
    if_cases (IsLive ts) (is_earliest t q.timers) _ _
      (λ _. IsLive-as ts (insert t q).1 _ refl refl i) (λ _. i)

-- Another timer than the one erased is still active.
still_active :
    (id j : ℕ × ℕ) (us : List Timer) (active : List (ℕ × ℕ))
    → IsDistinct us
    → IsMatched us active
    → listed j (erase_timer id.0 us) ≡ true
    → contains j (erase_pair id active) ≡ true
still_active id j us active d m e = elim (Bool-cases (same_pair j id)) [
  | inl same ↦
      let gone : listed j (erase_timer j.0 us) ≡ false = listed-erase_same j us d in
      let at : id.0 ≡ j.0 = ground (arith, same) in
      absurd
        (let k : false ≡ true = sym gone ∙ ap (λ a. listed j (erase_timer a us)) (sym at) ∙ e in cc)
  | inr other ↦ contains-erase_other j id active other ∙ m j (listed-erase j id.0 us e)
]

pub cancel-IsLive :
    (ts : List Timer) (id : ℕ × ℕ) (q : TimerQueue) → IsLive ts q → IsLive ts (cancel_in_loop id q)
unfolding cancel_in_loop
cancel-IsLive ts id q s =
    if_cases (IsLive ts) (contains id q.active_timers) _ _
      (λ _. record {
        matched = λ j e. still_active id j q.timers q.active_timers s.distinct s.matched e;
        distinct = IsDistinct-erase id.0 q.timers s.distinct;
        distinct_expired = s.distinct_expired;
        apart = IsApart-erase ts id.0 q.timers s.apart;
      })
      (λ _.
        if_cases (IsLive ts) q.calling_expired_timers _ _ (λ _. IsLive-as ts q _ refl refl s)
          (λ _. s))
