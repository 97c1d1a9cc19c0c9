-- ===== src/Net/TimerQueue/Free.antt =====
-- The addresses at which no timer stands.
use simple_http_server.Common.{ℕ, ◌≢◌, List, [], ◌∷◌}
use simple_http_server.Net.TimerQueue.{Timer}

-- No timer of the list stands at the address.
abbrev pub IsFree : ℕ → List Timer → Type 0
IsFree a [] = Unit {0}
IsFree a (u ∷ us) = (u.address ≢ a) × IsFree a us
