-- ===== src/Net/TimerQueue/Armed.antt =====
-- No timer is missed: while there are timers, the timerfd is set to the earliest expiration, or to
-- one before it.
use simple_http_server.Common.{
  ℕ, ◌+◌, ◌≤◌, ◌<◌, ◌≡◌, refl, arith, ap, List, [], ◌∷◌, ◌++◌, Option, none, some, inl, inr,
  Bool-cases, leb,
}
use simple_http_server.Net.TimerQueue.{
  Timer, TimerQueue, contains, insert_timer, erase_timer, insert, add_timer_in_loop, cancel_in_loop,
  split_expired, get_expired,
}

-- No timer expires before `low`.
abbrev pub From : ℕ → List Timer → Type 0
From low [] = Unit {0}
From low (t ∷ ts) = (low ≤ t.expiration) × From low ts

abbrev pub IsOrdered : List Timer → Type 0
IsOrdered [] = Unit {0}
IsOrdered (t ∷ ts) = From t.expiration ts × IsOrdered ts

pub From-trans : (a b : ℕ) (ts : List Timer) → a ≤ b → From b ts → From a ts
From-trans a b [] h k = tt
From-trans a b (t ∷ ts) h k = (omega arith, From-trans a b ts h k.1)

pub From-insert :
    (a : ℕ) (t : Timer) (ts : List Timer)
    → a ≤ t.expiration
    → From a ts
    → From a (insert_timer t ts)
unfolding insert_timer
From-insert a t [] h k = (h, tt)
From-insert a t (u ∷ us) h k = ground (arith, From-insert a t us h k.1)

IsOrdered-insert : (t : Timer) (ts : List Timer) → IsOrdered ts → IsOrdered (insert_timer t ts)
unfolding insert_timer
IsOrdered-insert t [] o = (tt, tt)
IsOrdered-insert t (u ∷ us) o = ground (
  arith,
  IsOrdered-insert t us o.1,
  From-insert u.expiration t us,
  From-trans t.expiration u.expiration us,
)

pub From-erase : (a i : ℕ) (ts : List Timer) → From a ts → From a (erase_timer i ts)
unfolding erase_timer
From-erase a i [] k = tt
From-erase a i (u ∷ us) k = ground (arith, From-erase a i us k.1)

IsOrdered-erase : (i : ℕ) (ts : List Timer) → IsOrdered ts → IsOrdered (erase_timer i ts)
unfolding erase_timer
IsOrdered-erase i [] o = tt
IsOrdered-erase i (u ∷ us) o =
    ground (arith, IsOrdered-erase i us o.1, From-erase u.expiration i us o.0)

-- What `getExpired` takes: all the timers that have expired, and none of the others.
abbrev pub Until : ℕ → List Timer → Type 0
Until high [] = Unit {0}
Until high (t ∷ ts) = (t.expiration ≤ high) × Until high ts

pub record Splits (now : ℕ) (ts expired left : List Timer) : Type 0 where
  pub all : expired ++ left ≡ ts
  pub over : Until now expired
  pub ahead : From (now + 1) left

pub split_expired-Splits :
    (now : ℕ) (ts : List Timer)
    → IsOrdered ts
    → Splits now ts (split_expired now ts).0 (split_expired now ts).1
unfolding split_expired
split_expired-Splits now [] o = record { all = refl; over = tt; ahead = tt }
split_expired-Splits now (t ∷ ts) o = elim (Bool-cases (leb t.expiration now)) [
  | inl e ↦
      let s = split_expired-Splits now ts o.1 in
      rw e (record {
        all = ap (λ l. t ∷ l) s.all;
        over = (ground (arith, e), s.over);
        ahead = s.ahead;
      })
  | inr e ↦
      let later : now + 1 ≤ t.expiration = ground (arith, e) in
      rw e (record {
        all = refl;
        over = tt;
        ahead = (later, From-trans (now + 1) t.expiration ts later o.0);
      })
]

-- A queue in the order of expiration: `getExpired` gives the timers that expire by now, in order,
-- and leaves just those that expire later.
pub get_expired-Splits :
    (now : ℕ) (q : TimerQueue)
    → IsOrdered q.timers
    → Splits now q.timers (get_expired now q).0 (get_expired now q).1.timers
unfolding get_expired
get_expired-Splits now q o = split_expired-Splits now q.timers o

-- The timers are in order, and none has the invalid expiration.
pub record IsInOrder (q : TimerQueue) : Type 0 where
  pub ordered : IsOrdered q.timers
  pub positive : From 1 q.timers

-- The alarm is set no later than any timer expires.
abbrev pub Covers : Option ℕ → List Timer → Type 0
Covers alarm [] = Unit {0}
Covers none (t ∷ ts) = ⊥
Covers (some a) (t ∷ ts) = From a (t ∷ ts)

pub insert-IsInOrder :
    (t : Timer) (q : TimerQueue) → 0 < t.expiration → IsInOrder q → IsInOrder (insert t q).1
unfolding insert
insert-IsInOrder t q h s = record {
  ordered = IsOrdered-insert t q.timers s.ordered;
  positive = From-insert 1 t q.timers (omega arith) s.positive;
}

pub add-IsInOrder :
    (t : Timer) (q : TimerQueue)
    → 0 < t.expiration
    → IsInOrder q
    → IsInOrder (add_timer_in_loop t q)
unfolding add_timer_in_loop
add-IsInOrder t q h s = elim (Bool-cases (insert t q).0) [
  | inl e ↦
      rw (e, add_timer_in_loop)
        (record {
          ordered = (insert-IsInOrder t q h s).ordered;
          positive = (insert-IsInOrder t q h s).positive;
        })
  | inr e ↦ rw (e, add_timer_in_loop) (insert-IsInOrder t q h s)
]

pub cancel-IsInOrder : (id : ℕ × ℕ) (q : TimerQueue) → IsInOrder q → IsInOrder (cancel_in_loop id q)
unfolding cancel_in_loop
cancel-IsInOrder id q s = elim (Bool-cases (contains id q.active_timers)) [
  | inl e ↦
      rw (e, cancel_in_loop)
        (record {
          ordered = IsOrdered-erase id.0 q.timers s.ordered;
          positive = From-erase 1 id.0 q.timers s.positive;
        })
  | inr e ↦
      rw (e, cancel_in_loop)
        (elim (Bool-cases q.calling_expired_timers) [
          | inl f ↦ rw f (record { ordered = s.ordered; positive = s.positive })
          | inr f ↦ rw f (record { ordered = s.ordered; positive = s.positive })
        ])
]
