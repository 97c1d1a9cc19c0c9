-- ===== src/Net/LoopThreadPool/RoundRobin.antt =====
-- Connections go round the loops in turn.
use simple_http_server.Common.{
  ℕ, zero, suc, ◌+◌, ◌<◌, ◌%◌, ◌≡◌, ◌≢◌, refl, sym, ap, ap₂, map, ◌∙◌, arith, Bool, true, List, [],
  ◌∷◌, ◌++◌, Option, some, leb, length, get_elem?, length-append, Bool-cases, inl, inr, append-nil,
  append_assoc,
}
use native.Mathlib.Nat.{mod-lt, mod-eq_of_lt, mod-add-mod, mod_self}
use simple_http_server.Net.LoopThreadPool.{
  EventLoopThreadPool, start_from, start, next_in, deal, advanced, new_pool, set_thread_num,
}

-- The loops that the threads `i`, `i + 1`, … run.
abbrev pub started_loops : (ℕ → ℕ) → ℕ → ℕ → List ℕ
started_loops f i zero = []
started_loops f i (suc n) = f i ∷ started_loops f (i + 1) n

start_from-started_loops :
    (f : ℕ → ℕ) (i n : ℕ) (loops : List ℕ) → start_from f i n loops ≡ loops ++ started_loops f i n
unfolding start_from
start_from-started_loops f i zero loops = sym (append-nil loops)
start_from-started_loops f i (suc n) loops =
    start_from-started_loops f (i + 1) n (loops ++ f i ∷ []) ∙ append_assoc loops (f i ∷ []) _

length-started_loops : (f : ℕ → ℕ) (i n : ℕ) → length (started_loops f i n) ≡ n
length-started_loops f i zero = refl
length-started_loops f i (suc n) = ap suc (length-started_loops f (i + 1) n)

ne_nil : (ls : List ℕ) → 0 < length ls → ls ≢ []
ne_nil [] h = absurd (omega arith)
ne_nil (x ∷ ls) h = λ e. cc

-- Round the vector from an index inside it, one step is one more modulo its length.
advanced-mod :
    (k : ℕ) (x : ℕ) (xs : List ℕ)
    → advanced (k % suc (length xs)) (x ∷ xs) ≡ (k + 1) % suc (length xs)
advanced-mod k x xs =
    let n = suc (length xs) in
    let small : k % n < n = mod-lt k (omega arith) in
    let step : (k % n + 1) % n ≡ (k + 1) % n = mod-add-mod k n 1 in
    elim (Bool-cases (leb n (k % n + 1))) [
      | inl e ↦ let whole : k % n + 1 ≡ n = ground arith in rw (e, ← step, whole) (sym (mod_self n))
      | inr e ↦ rw e (sym (mod-eq_of_lt (ground arith)) ∙ step)
    ]

get_elem?-middle :
    (before : List ℕ) (x : ℕ) (after : List ℕ)
    → get_elem? (before ++ x ∷ after) (length before) ≡ some x
get_elem?-middle [] x after = refl
get_elem?-middle (b ∷ before) x after = get_elem?-middle before x after

-- The indices `k`, `k + 1`, … modulo the number of loops.
abbrev pub in_turn : List ℕ → ℕ → ℕ → List (Option ℕ)
in_turn loops k zero = []
in_turn loops k (suc n) = get_elem? loops (k % length loops) ∷ in_turn loops (k + 1) n

next_in-in_turn :
    (ls : List ℕ) (p : EventLoopThreadPool) (k : ℕ)
    → ls ≢ []
    → p.next ≡ k % length ls
    → next_in ls p ≡ (get_elem? ls (k % length ls), record p { next = (k + 1) % length ls })
next_in-in_turn [] p k h e = absurd (h refl)
next_in-in_turn (x ∷ xs) p k h e = rw (e, advanced-mod k x xs)

-- In a pool with at least one loop, whose next index is some `k` modulo their number, `n` calls of
-- `getNextLoop` give the loops at `k`, `k + 1`, … modulo that number, and leave the next index at
-- `k + n` modulo it; nothing else in the pool changes.
pub deal-in_turn :
    (n k : ℕ) (p : EventLoopThreadPool)
    → p.loops ≢ []
    → p.next ≡ k % length p.loops
    → deal n p ≡ (in_turn p.loops k n, record p { next = (k + n) % length p.loops })
unfolding deal
deal-in_turn zero k p h e = let stay : k + 0 ≡ k = omega arith in rw (stay, ← e)
deal-in_turn (suc n) k p h e =
    let p' : EventLoopThreadPool = record p { next = (k + 1) % length p.loops } in
    let later : k + suc n ≡ k + 1 + n = omega arith in
    rw (next_in-in_turn p.loops p k h e, later) (rw (deal-in_turn n (k + 1) p' h refl))

in_turn-round :
    (before after : List ℕ)
    → in_turn (before ++ after) (length before) (length after) ≡ map some after
in_turn-round before [] = refl
in_turn-round before (x ∷ after) =
    let whole = before ++ x ∷ after in
    let total = length-append before (x ∷ after) in
    let inside : length before % length whole ≡ length before =
      mod-eq_of_lt (omega (arith, total)) in
    let here : get_elem? whole (length before) ≡ some x = get_elem?-middle before x after in
    let moved : (before ++ x ∷ []) ++ after ≡ whole = append_assoc before (x ∷ []) after in
    let counted : length (before ++ x ∷ []) ≡ length before + 1 =
      omega (arith, length-append before (x ∷ [])) in
    ap₂ ◌∷◌ (rw inside here) (rw (moved, counted) at (in_turn-round (before ++ x ∷ []) after))

-- After `start` with `n` threads, at least one, the first `n` calls of `getNextLoop` give the loop
-- of each thread once, in the order in which they were started, and the pool is as it was.
pub deal-start :
    (start_loop : ℕ → ℕ) (has_callback : Bool) (base n : ℕ)
    → 0 < n
    → let p = (start start_loop has_callback (set_thread_num n (new_pool base))).0 in
      deal n p ≡ (map some (started_loops start_loop 0 n), p)
unfolding start set_thread_num new_pool
deal-start start_loop has_callback base n h =
    let ls = started_loops start_loop 0 n in
    let held : length ls ≡ n = length-started_loops start_loop 0 n in
    let p : EventLoopThreadPool = record {
      base_loop = base;
      started = true;
      num_threads = n;
      next = 0;
      loops = ls;
    } in
    let first : 0 ≡ 0 % length ls = sym (mod-eq_of_lt (omega (arith, held))) in
    let back : (0 + n) % length ls ≡ 0 =
      let e : 0 + n ≡ length ls = omega (arith, held) in rw e (mod_self (length ls)) in
    rw (start_from-started_loops start_loop 0 n []) (
      deal-in_turn n 0 p (ne_nil ls (omega (arith, held))) first
      ∙ rw back (ap (λ l. (l, p)) (rw held at (in_turn-round [] ls))))
