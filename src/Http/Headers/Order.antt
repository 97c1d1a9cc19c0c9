-- ===== src/Http/Headers/Order.antt =====
-- `assign` keeps the keys in order, each once.
use simple_http_server.Common.{◌≡◌, refl, true, false, [], ◌∷◌, arith}
use simple_http_server.Common.Bytes.{Bytes, equal}
use simple_http_server.Http.Headers.{Headers, less, assign}

less_trans : (a b c : Bytes) → less a b ≡ true → less b c ≡ true → less a c ≡ true
unfolding less
less_trans a b [] h k = cc
less_trans a [] (z ∷ c) h k = cc
less_trans [] (y ∷ b) (z ∷ c) h k = refl
less_trans (x ∷ a) (y ∷ b) (z ∷ c) h k = ground (arith, less_trans a b c)

less_total : (a b : Bytes) → equal a b ≡ false → less b a ≡ false → less a b ≡ true
unfolding less equal
less_total [] [] h k = cc
less_total [] (y ∷ b) h k = refl
less_total (x ∷ a) [] h k = cc
less_total (x ∷ a) (y ∷ b) h k = ground (arith, less_total a b)

-- Every key is above `k`.
abbrev pub Above : Bytes → Headers → Type 0
Above k [] = Unit {0}
Above k ((j, w) ∷ m) = (less k j ≡ true) × Above k m

abbrev pub IsOrdered : Headers → Type 0
IsOrdered [] = Unit {0}
IsOrdered ((k, v) ∷ m) = Above k m × IsOrdered m

Above-trans : (a b : Bytes) (m : Headers) → less a b ≡ true → Above b m → Above a m
Above-trans a b [] h u = tt
Above-trans a b ((j, w) ∷ m) h u = (less_trans a b j h u.0, Above-trans a b m h u.1)

Above-assign : (a k v : Bytes) (m : Headers) → less a k ≡ true → Above a m → Above a (assign k v m)
unfolding assign
Above-assign a k v [] h u = (h, tt)
Above-assign a k v ((j, w) ∷ m) h u = ground (arith, Above-assign a k v m h u.1)

-- Writing a header keeps the keys strictly ascending.
pub assign-IsOrdered : (k v : Bytes) (m : Headers) → IsOrdered m → IsOrdered (assign k v m)
unfolding assign
assign-IsOrdered k v [] o = (tt, tt)
assign-IsOrdered k v ((j, w) ∷ m) o =
    ground
      (arith, assign-IsOrdered k v m o.1, Above-assign j k v m, Above-trans k j m, less_total j k)
