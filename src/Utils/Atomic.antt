-- ===== src/Utils/Atomic.antt =====
-- mymuduo/utils/Atomic.h: a counter of `w` bits that threads share. A value is its bit pattern, so
-- -1 is `2 ^ w - 1`; each call is one step of some thread, and gives its result and the new value.
use simple_http_server.Common.{
  ℕ, zero, suc, ◌+◌, ◌-◌, ◌%◌, ◌^◌, ◌<◌, ◌≡◌, refl, arith, List, [], ◌∷◌,
}
use native.Mathlib.Nat.{mod-eq_of_lt}

unfoldable pub get : ℕ → ℕ × ℕ
get v = (v, v)

unfoldable pub get_and_add : ℕ → ℕ → ℕ → ℕ × ℕ
get_and_add w x v = (v, (v + x) % 2 ^ w)

unfoldable pub add_and_get : ℕ → ℕ → ℕ → ℕ × ℕ
unfolding get_and_add
add_and_get w x v = let (old, new) = get_and_add w x v in ((old + x) % 2 ^ w, new)

unfoldable pub increment_and_get : ℕ → ℕ → ℕ × ℕ
unfolding add_and_get
increment_and_get w v = add_and_get w 1 v

unfoldable pub decrement_and_get : ℕ → ℕ → ℕ × ℕ
unfolding add_and_get
decrement_and_get w v = add_and_get w (2 ^ w - 1) v

unfoldable pub add : ℕ → ℕ → ℕ → ℕ
unfolding get_and_add
add w x v = (get_and_add w x v).1

unfoldable pub increment : ℕ → ℕ → ℕ
unfolding increment_and_get
increment w v = (increment_and_get w v).1

unfoldable pub decrement : ℕ → ℕ → ℕ
unfolding decrement_and_get
decrement w v = (decrement_and_get w v).1

unfoldable pub get_and_set : ℕ → ℕ → ℕ × ℕ
get_and_set x v = (v, x)

-- The numbers that `n` calls of `incrementAndGet` give, by whichever threads.
unfoldable pub draw : ℕ → ℕ → ℕ → List ℕ × ℕ
unfolding increment_and_get
draw w zero v = ([], v)
draw w (suc n) v =
    let (first, v1) = increment_and_get w v in
    let (others, v2) = draw w n v1 in (first ∷ others, v2)

abbrev pub from : ℕ → ℕ → List ℕ
from a zero = []
from a (suc n) = a ∷ from (a + 1) n

-- While the counter does not overflow, calls of `incrementAndGet` give the numbers above it one
-- after another, so all are distinct, and leave it at the last.
pub draw-from : (w n v : ℕ) → v + n < 2 ^ w → draw w n v ≡ (from (v + 1) n, v + n)
unfolding draw
draw-from w zero v h = let e : v + 0 ≡ v = omega arith in rw e refl
draw-from w (suc n) v h =
    let drawn : (v + 1) % 2 ^ w ≡ v + 1 = mod-eq_of_lt (omega (arith, h)) in
    let last : v + 1 + n ≡ v + suc n = omega arith in
    rw drawn (rw (draw-from w n (v + 1) (omega (arith, h)), last) refl)
