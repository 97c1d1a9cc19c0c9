-- ===== src/Common/Outcome.antt =====
-- How a call of the program ends: it returns, it stops the process, or it is still running.
use Prim.Native.Nat.{ℕ, zero, suc, ◌+◌}
use mathlib.Core.Bool.{Bool, true, false}

pub data Fault : Type 0 where
  -- an `assert` that does not hold; the build does not define `NDEBUG`
  assertion_failed : Fault
  -- `std::invalid_argument`, `std::out_of_range` and `std::length_error`, which nobody catches
  invalid_argument out_of_range length_error : Fault
  -- a read or a copy outside the storage
  bad_access : Fault
  -- a call of `exit(1)`
  exited : Fault

pub data Outcome {ℓ} (A : Type ℓ) : Type ℓ where
  returned : A → Outcome A
  faulted : Fault → Outcome A
  running : Outcome A

infixl 5 ◌>>=◌
abbrev pub ◌>>=◌ {ℓ κ} : {A : Type ℓ} {B : Type κ} → Outcome A → (A → Outcome B) → Outcome B
returned a >>= f = f a
faulted e >>= f = faulted e
running >>= f = running

-- The call is not caught in its loop.
abbrev pub Settles {ℓ} : {A : Type ℓ} → Outcome A → Type 0
Settles running = ⊥
Settles (faulted e) = Unit
Settles (returned a) = Unit

-- Where a call returns, it returns a result of this kind; it always ends.
abbrev pub Ends {ℓ} : {A : Type ℓ} → (A → Type 0) → Outcome A → Type 0
Ends P running = ⊥
Ends P (faulted e) = Unit
Ends P (returned a) = P a

pub bind-Ends {ℓ κ} :
    {A : Type ℓ} {B : Type κ} (P : B → Type 0) (o : Outcome A) (f : A → Outcome B)
    → Settles o
    → ((a : A) → Ends P (f a))
    → Ends P (o >>= f)
bind-Ends P (returned a) f s h = h a
bind-Ends P (faulted e) f s h = tt
bind-Ends P running f s h = absurd s

-- A signed integer: `negsuc n` is -(n + 1).
pub data ℤ : Type 0 where
  pos : ℕ → ℤ
  negsuc : ℕ → ℤ

-- `++` and `--` on an `int`, away from its bounds.
abbrev pub increment : ℤ → ℤ
increment (pos n) = pos (n + 1)
increment (negsuc zero) = pos 0
increment (negsuc (suc n)) = negsuc n

abbrev pub decrement : ℤ → ℤ
decrement (pos zero) = negsuc 0
decrement (pos (suc n)) = pos n
decrement (negsuc n) = negsuc (n + 1)

abbrev pub is_positive : ℤ → Bool
is_positive (pos zero) = false
is_positive (pos (suc n)) = true
is_positive (negsuc n) = false
