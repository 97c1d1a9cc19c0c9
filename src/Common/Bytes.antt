-- ===== src/Common/Bytes.antt =====
-- Byte strings: `std::string` and `char` ranges as lists of byte values.
use Prim.Native.Nat.{ℕ}
use Prim.Native.Char.{code}
use Prim.Native.String.{String}
use mathlib.Core.Path.{◌≡◌}
use mathlib.Core.Logic.{◌↔◌}
use mathlib.Core.Bool.{Bool, true, false}
use mathlib.Core.List.{List, [], ◌∷◌}
use native.Mathlib.Omega.{arith}
use simple_http_server.Common.Tests.{◌==◌, if◌then◌else◌}

abbrev pub Bytes : Type 0
Bytes = List ℕ

-- The code points of a literal: its bytes, as every literal of the program is ASCII.
abbrev pub codes : String → Bytes
codes String.[] = []
codes (String.◌∷◌ c s) = code c ∷ codes s

-- `operator==` of `std::string`.
unfoldable pub equal : Bytes → Bytes → Bool
equal (x ∷ xs) (y ∷ ys) = if x == y then equal xs ys else false
equal [] [] = true
equal _ _ = false

pub equal_iff : (xs ys : Bytes) → (equal xs ys ≡ true) ↔ (xs ≡ ys)
unfolding equal
equal_iff [] [] = ground arith
equal_iff [] (y ∷ ys) = ground arith
equal_iff (x ∷ xs) [] = ground arith
equal_iff (x ∷ xs) (y ∷ ys) = ground (equal_iff xs ys, arith)
