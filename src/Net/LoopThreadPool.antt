-- ===== src/Net/LoopThreadPool.antt =====
-- mymuduo/net/EventLoopThreadPool.cpp: the loops that connections are dealt out to.
-- A loop is its number. Starting a thread is a function that gives the loop it runs, `startLoop`.
pub mod RoundRobin
use simple_http_server.Common.{
  ℕ, zero, suc, ◌+◌, ◌≤◌, ◌≡◌, Bool, true, false, ◌&&◌, List, [], ◌∷◌, ◌++◌, Option, none, some,
  leb, ◌==◌, if◌then◌else◌, length, get_elem?,
}

pub record EventLoopThreadPool : Type 0 where
  pub base_loop : ℕ
  pub started : Bool
  pub num_threads : ℕ
  pub next : ℕ
  pub loops : List ℕ

unfoldable pub new_pool : ℕ → EventLoopThreadPool
new_pool base = record { base_loop = base; started = false; num_threads = 0; next = 0; loops = [] }

unfoldable pub set_thread_num : ℕ → EventLoopThreadPool → EventLoopThreadPool
set_thread_num n p = record p { num_threads = n }

-- The threads `i`, `i + 1`, … that are still to start, `left` of them.
unfoldable pub start_from : (ℕ → ℕ) → ℕ → ℕ → List ℕ → List ℕ
start_from start_loop i zero loops = loops
start_from start_loop i (suc left) loops =
    start_from start_loop (i + 1) left (loops ++ start_loop i ∷ [])

-- Returns also the loop that the thread's initial callback is called on here, if it is: with no
-- threads, and only if there is one.
unfoldable pub start : (ℕ → ℕ) → Bool → EventLoopThreadPool → EventLoopThreadPool × Option ℕ
unfolding start_from
start start_loop has_callback p = (
  record p { started = true; loops = start_from start_loop 0 p.num_threads p.loops },
  if (p.num_threads == 0) && has_callback then some p.base_loop else none,
)

-- `next_` behind a call.
abbrev pub advanced : ℕ → List ℕ → ℕ
advanced next loops = if leb (length loops) (next + 1) then 0 else next + 1

-- `loops_[next_]` outside the vector is `none`.
abbrev pub next_in : List ℕ → EventLoopThreadPool → Option ℕ × EventLoopThreadPool
next_in [] p = (some p.base_loop, p)
next_in (x ∷ xs) p = (get_elem? (x ∷ xs) p.next, record p { next = advanced p.next (x ∷ xs) })

unfoldable pub get_next_loop : EventLoopThreadPool → Option ℕ × EventLoopThreadPool
get_next_loop p = next_in p.loops p

unfoldable pub get_all_loops : EventLoopThreadPool → List ℕ
get_all_loops p = elim p.loops [ [] ↦ p.base_loop ∷ [] | _ ∷ _ ↦ p.loops ]

-- The loops that `n` calls of `getNextLoop` give, and the pool behind them.
unfoldable pub deal : ℕ → EventLoopThreadPool → List (Option ℕ) × EventLoopThreadPool
unfolding get_next_loop
deal zero p = ([], p)
deal (suc n) p =
    let (first, p') = get_next_loop p in let (others, q) = deal n p' in (first ∷ others, q)
