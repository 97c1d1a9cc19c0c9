-- ===== src/Http/Headers.antt =====
-- `std::map<std::string, std::string>`, which holds the headers of requests and responses: entries
-- in the order of their keys.
pub mod Order
use simple_http_server.Common.{
  ℕ, ◌≡◌, refl, Bool, true, false, List, [], ◌∷◌, Option, none, some, ltb, ◌==◌, if◌then◌else◌,
  arith,
}
use simple_http_server.Common.Bytes.{Bytes, equal, equal_iff}

abbrev pub Headers : Type 0
Headers = List (Bytes × Bytes)

-- `operator<` of `std::string`: lexicographic by bytes.
unfoldable pub less : Bytes → Bytes → Bool
less xs [] = false
less [] (y ∷ ys) = true
less (x ∷ xs) (y ∷ ys) = if ltb x y then true else if ltb y x then false else less xs ys

-- `headers_[key] = value`
unfoldable pub assign : Bytes → Bytes → Headers → Headers
assign k v [] = (k, v) ∷ []
assign k v ((j, w) ∷ m) =
    if equal j k
    then (j, v) ∷ m
    else if less k j
    then (k, v) ∷ (j, w) ∷ m
    else (j, w) ∷ assign k v m

unfoldable pub find : Bytes → Headers → Option Bytes
find k [] = none
find k ((j, w) ∷ m) = if equal j k then some w else find k m

-- A write is seen under its key, and looking up any other key gives what it gave before.
pub find-assign :
    (k j v : Bytes) (m : Headers) → find j (assign k v m) ≡ (if equal k j then some v else find j m)
unfolding find assign
find-assign k j v [] = refl
find-assign k j v ((i, w) ∷ m) =
    ground (arith, equal_iff k j, equal_iff i k, equal_iff i j, find-assign k j v m)
