-- ===== src/Net/TimerQueue/Listed.antt =====
-- Which timers a list has, by their identifiers, and which addresses it takes.
use simple_http_server.Common.{
  ℕ, ◌≡◌, ◌≢◌, refl, sym, ap, arith, Bool, true, false, ◌||◌, List, [], ◌∷◌, ◌++◌, ◌==◌, inl, inr,
  Bool-cases, leb,
}
use simple_http_server.Net.TimerQueue.{
  Timer, active_timer, pair_less, same_pair, insert_pair, contains, erase_pair, insert_timer,
  erase_timer, split_expired,
}
use simple_http_server.Net.TimerQueue.Free.{IsFree}

unfoldable pub listed : ℕ × ℕ → List Timer → Bool
listed id [] = false
listed id (t ∷ ts) = same_pair id (active_timer t) || listed id ts

pub listed-insert :
    (id : ℕ × ℕ) (t : Timer) (us : List Timer)
    → listed id (insert_timer t us) ≡ true
    → (same_pair id (active_timer t) || listed id us) ≡ true
unfolding listed insert_timer pair_less
listed-insert id t [] e = e
listed-insert id t (u ∷ us) e = ground (arith, e, listed-insert id t us)

pub contains-insert :
    (id x : ℕ × ℕ) (ys : List (ℕ × ℕ))
    → contains id (insert_pair x ys) ≡ (same_pair id x || contains id ys)
unfolding contains insert_pair pair_less
contains-insert id x [] = refl
contains-insert id x (y ∷ ys) = ground (arith, contains-insert id x ys)

pub contains-erase_other :
    (id x : ℕ × ℕ) (ys : List (ℕ × ℕ))
    → same_pair id x ≡ false
    → contains id (erase_pair x ys) ≡ contains id ys
unfolding contains erase_pair
contains-erase_other id x [] e = refl
contains-erase_other id x (y ∷ ys) e = ground (arith, e, contains-erase_other id x ys e)

pub listed-erase :
    (id : ℕ × ℕ) (a : ℕ) (us : List Timer)
    → listed id (erase_timer a us) ≡ true
    → listed id us ≡ true
unfolding listed erase_timer
listed-erase id a [] e = e
listed-erase id a (u ∷ us) e = ground (arith, e, listed-erase id a us)

pub listed-append :
    (id : ℕ × ℕ) (xs ys : List Timer) → listed id (xs ++ ys) ≡ (listed id xs || listed id ys)
unfolding listed
listed-append id [] ys = refl
listed-append id (x ∷ xs) ys = ground (arith, listed-append id xs ys)

-- An address that is free is that of no timer.
pub listed-IsFree : (id : ℕ × ℕ) (us : List Timer) → IsFree id.0 us → listed id us ≡ false
unfolding listed
listed-IsFree id [] h = refl
listed-IsFree id (u ∷ us) h = ground (arith, h.0, listed-IsFree id us h.1)

pub IsFree-insert :
    (a : ℕ) (t : Timer) (us : List Timer)
    → t.address ≢ a
    → IsFree a us
    → IsFree a (insert_timer t us)
unfolding insert_timer pair_less
IsFree-insert a t [] n h = (n, tt)
IsFree-insert a t (u ∷ us) n h = ground (arith, n, h.0, h.1, IsFree-insert a t us n h.1)

pub IsFree-erase : (a i : ℕ) (us : List Timer) → IsFree a us → IsFree a (erase_timer i us)
unfolding erase_timer
IsFree-erase a i [] h = tt
IsFree-erase a i (u ∷ us) h = ground (arith, h.0, h.1, IsFree-erase a i us h.1)

-- No two timers stand at one address.
abbrev pub IsDistinct : List Timer → Type 0
IsDistinct [] = Unit {0}
IsDistinct (t ∷ ts) = IsFree t.address ts × IsDistinct ts

pub IsDistinct-insert :
    (t : Timer) (us : List Timer)
    → IsFree t.address us
    → IsDistinct us
    → IsDistinct (insert_timer t us)
unfolding insert_timer pair_less
IsDistinct-insert t [] h d = (tt, tt)
IsDistinct-insert t (u ∷ us) h d = ground (
  arith,
  h.0,
  h.1,
  d.0,
  d.1,
  IsDistinct-insert t us h.1 d.1,
  IsFree-insert u.address t us (λ e. h.0 (sym e)) d.0,
)

pub IsDistinct-erase : (a : ℕ) (us : List Timer) → IsDistinct us → IsDistinct (erase_timer a us)
unfolding erase_timer
IsDistinct-erase a [] d = tt
IsDistinct-erase a (u ∷ us) d =
    ground (arith, d.0, d.1, IsDistinct-erase a us d.1, IsFree-erase u.address a us d.0)

-- The timer at an address is gone once it is erased.
pub listed-erase_same :
    (id : ℕ × ℕ) (us : List Timer) → IsDistinct us → listed id (erase_timer id.0 us) ≡ false
unfolding listed erase_timer
listed-erase_same id [] d = refl
listed-erase_same id (u ∷ us) d = elim (Bool-cases (u.address == id.0)) [
  | inl e ↦
      rw e (listed-IsFree id us (let same : u.address ≡ id.0 = ground (arith, e) in rw same at d.0))
  | inr e ↦ rw e (ground (arith, e, listed-erase_same id us d.1))
]

pub split_expired-append :
    (now : ℕ) (ts : List Timer) → (split_expired now ts).0 ++ (split_expired now ts).1 ≡ ts
unfolding split_expired
split_expired-append now [] = refl
split_expired-append now (t ∷ ts) = elim (Bool-cases (leb t.expiration now)) [
  | inl e ↦ rw e (ap (λ l. t ∷ l) (split_expired-append now ts))
  | inr e ↦ rw e refl
]
