-- ===== src/Net/EventLoop/Alone.antt =====
-- The steps of a loop's thread that nobody disturbs.
use simple_http_server.Common.{
  ℕ, zero, suc, ◌+◌, ◌<◌, ◌≡◌, ◌⊎◌, inl, inr, refl, sym, ap, subst, arith, true, false, List, [],
  ◌∷◌, ◌++◌, Option, none, some, append-nil, append_assoc, Bool-cases,
}
use simple_http_server.Net.EventLoop.{
  Section, pushes, notifies, sets_quit, wakes, perform, handle_read,
}
use simple_http_server.Net.EventLoop.Threads.{
  polling, handling, testing, ended, calling, Thread, next_section, advanced, World, performed,
  Step, other_begins, other_performs, own_begins, poll_returns, reads_eventfd, swaps, runs,
  has_called, polls_again, stops, Reach, next, writes, writing,
}

-- A step while no thread begins a further call of `queueInLoop` or `quit`, and no descriptor but
-- the eventfd is ready, so that `poll` returns only if the eventfd is. Of the calls that other
-- threads have begun, the writes to the eventfd are made.
abbrev pub IsAlone {ℓ} : {F : Type ℓ} {u v : World F} → Step u v → Type 0
IsAlone (other_begins c) = ⊥
IsAlone (own_begins c e p) = ⊥
IsAlone (other_performs before after t e) = 0 < writes (next_section t)
IsAlone {u = u} (poll_returns e) = 0 < u.loop.wakeups
IsAlone _ = Unit

pub data Alone {ℓ} {F : Type ℓ} (w : World F) : World F → Type ℓ where
  rests : Alone w w
  takes : {u v : World F} → Alone w u → (s : Step u v) → IsAlone s → Alone w v

module _ {ℓ} {F : Type ℓ} where
  pub Reach-Alone : {v u w : World F} → Reach v u → Alone u w → Reach v w
  Reach-Alone r rests = r
  Reach-Alone r (takes a s h) = next (Reach-Alone r a) s

  -- Where the thread stands: in `poll` with these functors run and these waiting, or behind the
  -- loop, which has been told to quit.
  abbrev pub Stands : World F → List F → List F → Type ℓ
  Stands u ran left =
      ((u.phase ≡ polling) × (u.executed ≡ ran) × (u.loop.pending_functors ≡ left))
      ⊎ ((u.phase ≡ ended) × (u.loop.quit ≡ true))

  -- The thread has come back, and is in no call of its own.
  abbrev pub Back : World F → List F → List F → List F → Type ℓ
  Back v all ran left =
      (u : World F) × Alone v u × (u.own ≡ none) × (u.queued ≡ all) × Stands u ran left

  pub from_testing :
      (v w : World F) (all : List F)
      → Alone v w
      → w.phase ≡ testing
      → w.own ≡ none
      → w.queued ≡ all
      → Back v all w.executed w.loop.pending_functors
  from_testing v w all a e o q = elim (Bool-cases w.loop.quit) [
    | inl t ↦ (_, takes a (stops e t) tt, o, q, inr (refl, t))
    | inr f ↦ (_, takes a (polls_again e f) tt, o, q, inl (refl, refl, refl))
  ]

  pub from_calling :
      (fs : List F) (v w : World F) (all : List F)
      → Alone v w
      → w.phase ≡ calling fs
      → w.own ≡ none
      → w.queued ≡ all
      → Back v all (w.executed ++ fs) w.loop.pending_functors
  from_calling [] v w all a e o q =
      subst (λ ran. Back v all ran w.loop.pending_functors) (sym (append-nil w.executed))
        (from_testing v _ all (takes a (has_called e o) tt) refl o q)
  from_calling (f ∷ fs) v w all a e o q =
      subst (λ ran. Back v all ran w.loop.pending_functors) (append_assoc w.executed (f ∷ []) fs)
        (from_calling fs v _ all (takes a (runs f fs e o) tt) refl o q)

  pub from_handling :
      (v w : World F) (all : List F)
      → Alone v w
      → w.phase ≡ handling
      → w.own ≡ none
      → w.queued ≡ all
      → Back v all (w.executed ++ w.loop.pending_functors) []
  from_handling v w all a e o q =
      from_calling w.loop.pending_functors v _ all (takes a (swaps e o) tt) refl o q

  -- The eventfd is ready.
  pub from_ready :
      (v w : World F) (all : List F)
      → Alone v w
      → w.phase ≡ polling
      → w.own ≡ none
      → w.queued ≡ all
      → 0 < w.loop.wakeups
      → Back v all (w.executed ++ w.loop.pending_functors) []
  unfolding handle_read
  from_ready v w all a e o q h =
      from_handling v _ all (takes (takes a (poll_returns e) h) (reads_eventfd refl o) tt) refl o q

  -- Among threads that have something to write there is one.
  abbrev pub Writer : List (Thread F) → Type ℓ
  Writer ts =
      (before : List (Thread F)) × (after : List (Thread F)) × (t : Thread F) × (ts
        ≡ before ++ t ∷ after)
      × (0 < writes (next_section t))

  picked_first :
      (t : Thread F) (ts : List (Thread F)) (n : ℕ)
      → writes (next_section t) ≡ n
      → 0 < writes (next_section t) + writing ts
      → (0 < writing ts → Writer ts)
      → Writer (t ∷ ts)
  picked_first t ts (suc n) e h behind = ([], ts, t, refl, omega (arith, e))
  picked_first t ts zero e h behind =
      let (before, after, u, split, k) = behind (omega (arith, e, h)) in
      (t ∷ before, after, u, ap (λ l. t ∷ l) split, k)

  pub picked : (ts : List (Thread F)) → 0 < writing ts → Writer ts
  picked [] h = absurd (omega arith)
  picked (t ∷ ts) h = picked_first t ts (writes (next_section t)) refl h (picked ts)

  abbrev woken : World F → World F
  woken w = record w { loop = record (w.loop) { wakeups = w.loop.wakeups + 1 } }

  writes_lem : (o : Option (Section F)) (w : World F) → 0 < writes o → performed false o w ≡ woken w
  unfolding perform
  writes_lem (some notifies) w h = refl
  writes_lem (some wakes) w h = refl
  writes_lem (some (pushes f)) w h = absurd (omega arith)
  writes_lem (some sets_quit) w h = absurd (omega arith)
  writes_lem none w h = absurd (omega arith)

  pub from_unready :
      (v w : World F) (all : List F)
      → Alone v w
      → w.phase ≡ polling
      → w.own ≡ none
      → w.queued ≡ all
      → Writer w.others
      → Back v all (w.executed ++ w.loop.pending_functors) []
  from_unready v w all a e o q (before, after, t, split, h) =
      let others = before ++ advanced t ∷ after in
      from_ready v (record (woken w) { others = others }) all
        (subst (λ u. Alone v (record u { others = others })) (writes_lem (next_section t) w h)
          (takes a (other_performs before after t split) h))
        e o q (omega arith)
