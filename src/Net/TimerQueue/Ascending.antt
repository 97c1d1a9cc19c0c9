-- ===== src/Net/TimerQueue/Ascending.antt =====
-- The set of active timers has no pair twice: it is in ascending order, like the `std::set`.
use simple_http_server.Common.{
  ℕ, ◌≡◌, refl, ap, ap₂, ◌∙◌, arith, true, false, List, [], ◌∷◌, inl, inr, Bool-cases, if_cases,
}
use simple_http_server.Net.TimerQueue.{
  Timer, active_timer, pair_less, same_pair, insert_pair, contains, erase_pair, erase_all,
}
use simple_http_server.Net.TimerQueue.Listed.{listed}

-- The pair is below every one of the list.
abbrev pub IsBelow : ℕ × ℕ → List (ℕ × ℕ) → Type 0
IsBelow x [] = Unit {0}
IsBelow x (y ∷ ys) = (pair_less x y ≡ true) × IsBelow x ys

abbrev pub IsAscending : List (ℕ × ℕ) → Type 0
IsAscending [] = Unit {0}
IsAscending (x ∷ xs) = IsBelow x xs × IsAscending xs

pair_less_trans :
    (x y z : ℕ × ℕ) → pair_less x y ≡ true → pair_less y z ≡ true → pair_less x z ≡ true
unfolding pair_less
pair_less_trans (a, b) (c, d) (e, f) h k = ground (arith, h, k)

IsBelow-trans :
    (x y : ℕ × ℕ) (zs : List (ℕ × ℕ)) → pair_less x y ≡ true → IsBelow y zs → IsBelow x zs
IsBelow-trans x y [] h b = tt
IsBelow-trans x y (z ∷ zs) h b = (pair_less_trans x y z h b.0, IsBelow-trans x y zs h b.1)

IsBelow-insert :
    (x z : ℕ × ℕ) (ys : List (ℕ × ℕ))
    → pair_less x z ≡ true
    → IsBelow x ys
    → IsBelow x (insert_pair z ys)
unfolding insert_pair
IsBelow-insert x z [] h b = (h, tt)
IsBelow-insert x z (y ∷ ys) h b =
    if_cases (IsBelow x) (pair_less z y) _ _ (λ _. (h, b))
      (λ _.
        if_cases (IsBelow x) (pair_less y z) _ _ (λ _. (b.0, IsBelow-insert x z ys h b.1)) (λ _. b))

pub IsAscending-insert :
    (x : ℕ × ℕ) (ys : List (ℕ × ℕ)) → IsAscending ys → IsAscending (insert_pair x ys)
unfolding insert_pair
IsAscending-insert x [] s = (tt, tt)
IsAscending-insert x (y ∷ ys) s =
    if_cases IsAscending (pair_less x y) _ _ (λ e. ((e, IsBelow-trans x y ys e s.0), s))
      (λ _.
        if_cases IsAscending (pair_less y x) _ _
          (λ e. (IsBelow-insert y x ys e s.0, IsAscending-insert x ys s.1)) (λ _. s))

IsBelow-erase : (x z : ℕ × ℕ) (ys : List (ℕ × ℕ)) → IsBelow x ys → IsBelow x (erase_pair z ys)
unfolding erase_pair
IsBelow-erase x z [] b = tt
IsBelow-erase x z (y ∷ ys) b =
    if_cases (IsBelow x) (same_pair z y) _ _ (λ _. b.1) (λ _. (b.0, IsBelow-erase x z ys b.1))

pub IsAscending-erase :
    (x : ℕ × ℕ) (ys : List (ℕ × ℕ)) → IsAscending ys → IsAscending (erase_pair x ys)
unfolding erase_pair
IsAscending-erase x [] s = tt
IsAscending-erase x (y ∷ ys) s =
    if_cases IsAscending (same_pair x y) _ _ (λ _. s.1)
      (λ _. (IsBelow-erase y x ys s.0, IsAscending-erase x ys s.1))

same_pair→eq : (x y : ℕ × ℕ) → same_pair x y ≡ true → x ≡ y
same_pair→eq (a, b) (c, d) e =
    let first : a ≡ c = ground (arith, e) in
    let second : b ≡ d = ground (arith, e) in ap₂ (λ (p q : ℕ). (p, q)) first second

pub contains_same :
    (x y : ℕ × ℕ) (zs : List (ℕ × ℕ)) → same_pair x y ≡ true → contains x zs ≡ contains y zs
contains_same x y zs e = ap (λ p. contains p zs) (same_pair→eq x y e)

contains-IsBelow : (x : ℕ × ℕ) (ys : List (ℕ × ℕ)) → IsBelow x ys → contains x ys ≡ false
unfolding contains pair_less
contains-IsBelow x [] b = refl
contains-IsBelow (a, b) ((c, d) ∷ ys) k =
    let rest = contains-IsBelow (a, b) ys k.1 in ground (arith, k.0, rest)

-- A pair that is erased is in the set no more.
contains-erase_same :
    (x : ℕ × ℕ) (ys : List (ℕ × ℕ)) → IsAscending ys → contains x (erase_pair x ys) ≡ false
unfolding contains erase_pair
contains-erase_same x [] s = refl
contains-erase_same x (y ∷ ys) s = elim (Bool-cases (same_pair x y)) [
  | inl e ↦ rw e (contains_same x y ys e ∙ contains-IsBelow y ys s.0)
  | inr e ↦ let rest = contains-erase_same x ys s.1 in rw e (ground (arith, e, rest))
]

pub contains-erase_none :
    (x z : ℕ × ℕ) (ys : List (ℕ × ℕ)) → contains x ys ≡ false → contains x (erase_pair z ys) ≡ false
unfolding contains erase_pair
contains-erase_none x z [] e = refl
contains-erase_none x z (y ∷ ys) e = ground (arith, e, contains-erase_none x z ys)

contains-erase_all :
    (x : ℕ × ℕ) (ts : List Timer) (ys : List (ℕ × ℕ))
    → contains x ys ≡ false
    → contains x (erase_all ts ys) ≡ false
unfolding erase_all
contains-erase_all x [] ys e = e
contains-erase_all x (t ∷ ts) ys e =
    contains-erase_all x ts (erase_pair (active_timer t) ys)
      (contains-erase_none x (active_timer t) ys e)

pub IsAscending-erase_all :
    (ts : List Timer) (ys : List (ℕ × ℕ)) → IsAscending ys → IsAscending (erase_all ts ys)
unfolding erase_all
IsAscending-erase_all [] ys s = s
IsAscending-erase_all (t ∷ ts) ys s =
    IsAscending-erase_all ts (erase_pair (active_timer t) ys)
      (IsAscending-erase (active_timer t) ys s)

-- The timers that are taken out are active no more.
pub listed-erase_all :
    (id : ℕ × ℕ) (ts : List Timer) (ys : List (ℕ × ℕ))
    → IsAscending ys
    → listed id ts ≡ true
    → contains id (erase_all ts ys) ≡ false
unfolding erase_all listed
listed-erase_all id [] ys s e = cc
listed-erase_all id (t ∷ ts) ys s e = elim (Bool-cases (same_pair id (active_timer t))) [
  | inl same ↦
      contains-erase_all id ts (erase_pair (active_timer t) ys)
        (contains_same id (active_timer t) _ same ∙ contains-erase_same (active_timer t) ys s)
  | inr other ↦
      listed-erase_all id ts (erase_pair (active_timer t) ys)
        (IsAscending-erase (active_timer t) ys s) (ground (arith, e, other))
]
