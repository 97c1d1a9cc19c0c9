-- ===== src/Common/Decimal.antt =====
-- Decimal numerals: as `%d` and `%zd` print them, and as `strtol` reads them.
use Prim.Native.Nat.{ℕ, zero, suc, ◌+◌, ◌-◌, ◌*◌, ◌/◌, ◌%◌, ◌^◌, ◌<◌, ◌≤◌}
use mathlib.Core.Path.{◌≡◌, sym, ap, ◌∙◌}
use mathlib.Core.Logic.{inl, inr}
use mathlib.Core.Bool.{Bool, false, ◌&&◌}
use mathlib.Core.List.{[], ◌∷◌, ◌++◌}
use native.Mathlib.Omega.{arith}
use simple_http_server.Common.Tests.{ltb, leb, if◌then◌else◌, Bool-cases}
use simple_http_server.Common.Lists.{length, length-append}
use simple_http_server.Common.Bytes.{Bytes}

-- The digits of a number, as `%d` and `%zd` print them; the fuel bounds their count.
unfoldable pub digits : ℕ → ℕ → Bytes
digits zero n = (b'0' + n % 10) ∷ []
digits (suc fuel) n =
    let more = digits fuel (n / 10) in
    if ltb n 10 then (b'0' + n) ∷ [] else more ++ ((b'0' + n % 10) ∷ [])

-- Twenty digits are enough for a `size_t`.
unfoldable pub decimal : ℕ → Bytes
unfolding digits
decimal n = digits 20 n

unfoldable pub is_digit : ℕ → Bool
is_digit c = leb b'0' c && leb c b'9'

-- The value of the digits in front, added to what has been read.
unfoldable pub digits_value : ℕ → Bytes → ℕ
unfolding is_digit
digits_value acc [] = acc
digits_value acc (c ∷ cs) = if is_digit c then digits_value (acc * 10 + (c - b'0')) cs else acc

unfoldable pub starts_with_digit : Bytes → Bool
unfolding is_digit
starts_with_digit [] = false
starts_with_digit (c ∷ cs) = is_digit c

-- All bytes are digits.
abbrev pub AllDigits : Bytes → Type 0
AllDigits [] = Unit {0}
AllDigits (c ∷ cs) = (48 ≤ c) × (c ≤ 57) × AllDigits cs

AllDigits-append : (xs ys : Bytes) → AllDigits xs → AllDigits ys → AllDigits (xs ++ ys)
AllDigits-append [] ys h k = k
AllDigits-append (x ∷ xs) ys h k = (h.0, h.1, AllDigits-append xs ys h.2 k)

digits_value-append :
    (acc d : ℕ) (xs : Bytes)
    → AllDigits xs
    → d < 10
    → digits_value acc (xs ++ (48 + d) ∷ []) ≡ digits_value acc xs * 10 + d
unfolding digits_value
digits_value-append acc d [] h k = ground arith
digits_value-append acc d (x ∷ xs) h k =
    ground (arith, digits_value-append (acc * 10 + (x - 48)) d xs)

-- With enough fuel, what is printed is a digit or more, and is worth the number.
pub record Prints (n : ℕ) (text : Bytes) : Type 0 where
  pub all : AllDigits text
  pub value : digits_value 0 text ≡ n
  pub some_digit : 0 < length text

-- Ten to the power.
abbrev pub ten_to : ℕ → ℕ
ten_to zero = 1
ten_to (suc k) = 10 * ten_to k

one_digit : (n : ℕ) → n < 10 → Prints n ((48 + n) ∷ [])
unfolding digits_value
one_digit n h = record { all = omega arith; value = ground arith; some_digit = omega arith }

pub digits-Prints : (fuel n : ℕ) → n < ten_to (suc fuel) → Prints n (digits fuel n)
unfolding digits
digits-Prints zero n h = let e : n % 10 ≡ n = omega arith in rw e (one_digit n (omega arith))
digits-Prints (suc fuel) n h = elim (Bool-cases (ltb n 10)) [
  | inl e ↦ rw e (one_digit n (ground arith))
  | inr e ↦
      let more = digits fuel (n / 10) in
      let p = digits-Prints fuel (n / 10) (omega arith) in
      rw e (record {
        all = AllDigits-append more ((48 + n % 10) ∷ []) p.all (omega arith);
        value = digits_value-append 0 (n % 10) more p.all (omega arith) ∙ omega (arith, p.value);
        some_digit = omega (arith, length-append more ((48 + n % 10) ∷ []));
      })
]

one_more :
    (k n d : ℕ) (more : Bytes)
    → 10 ≤ n
    → n < ten_to (suc k)
    → ((j : ℕ) → n / 10 < ten_to (suc j) → length more ≤ suc j)
    → length (more ++ (48 + d) ∷ []) ≤ suc k
one_more zero n d more big small shorter = absurd (omega arith)
one_more (suc k) n d more big small shorter =
    omega (arith, shorter k (omega arith), length-append more ((48 + d) ∷ []))

length-digits : (fuel k n : ℕ) → n < ten_to (suc k) → length (digits fuel n) ≤ suc k
unfolding digits
length-digits zero k n h = omega arith
length-digits (suc fuel) k n h = elim (Bool-cases (ltb n 10)) [
  | inl e ↦ rw e (omega arith)
  | inr e ↦ rw e (
      one_more k n (n % 10) (digits fuel (n / 10)) (ground (arith, e)) h
        (λ j small. length-digits fuel j (n / 10) small))
]

-- An `int` has ten digits at most.
pub length-decimal : (n : ℕ) → n < 2 ^ 31 → length (decimal n) ≤ 10
unfolding decimal
length-decimal n h = length-digits 20 9 n (omega arith)

-- A number below a power of ten has no more digits than that has zeros.
pub length-decimal_below : (k n : ℕ) → n < ten_to (suc k) → length (decimal n) ≤ suc k
unfolding decimal
length-decimal_below k n h = length-digits 20 k n h

-- Different numbers print differently.
pub decimal_inj : (m n : ℕ) → m < 2 ^ 64 → n < 2 ^ 64 → decimal m ≡ decimal n → m ≡ n
unfolding decimal
decimal_inj m n h k e =
    let p = digits-Prints 20 m (omega arith) in
    let q = digits-Prints 20 n (omega arith) in sym p.value ∙ ap (digits_value 0) e ∙ q.value
