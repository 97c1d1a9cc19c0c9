-- ===== src/Utils/Tests.antt =====
-- The counter at concrete values.
use simple_http_server.Common.{◌≡◌, ◌-◌, ◌^◌, refl, [], ◌∷◌}
use simple_http_server.Utils.Atomic.{draw, decrement_and_get}

three_drawn : draw 64 3 7 ≡ (8 ∷ 9 ∷ 10 ∷ [], 10)
unfolding draw
three_drawn = refl

wraps : decrement_and_get 32 0 ≡ (2 ^ 32 - 1, 2 ^ 32 - 1)
unfolding decrement_and_get
wraps = refl
