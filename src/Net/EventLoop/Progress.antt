-- ===== src/Net/EventLoop/Progress.antt =====
-- The loop's thread on its own gets to every functor that has been queued.
use simple_http_server.Common.{
  ℕ, zero, suc, ◌+◌, ◌<◌, ◌≡◌, ◌⊎◌, inl, inr, refl, sym, ap, subst, ◌∙◌, arith, true, List, [], ◌∷◌,
  ◌++◌, Option, none, some, append-nil,
}
use simple_http_server.Net.EventLoop.{queueing, quitting, perform}
use simple_http_server.Net.EventLoop.Threads.{
  Phase, polling, handling, testing, ended, calling, to_run, Thread, next_section, World, initial,
  own_performs, own_returns, Reach, writing,
}
use simple_http_server.Net.EventLoop.Queue.{Reach-IsSound, woken_polling}
use simple_http_server.Net.EventLoop.Alone.{
  Alone, rests, takes, Reach-Alone, Back, from_testing, from_calling, from_handling, from_ready,
  picked, from_unready,
}

module _ {ℓ} {F : Type ℓ} where
  cons-ne-nil : {f : F} {fs : List F} → f ∷ fs ≡ [] → ⊥
  cons-ne-nil e = cc

  ordered :
      (w : World F) (p : Phase F)
      → Reach initial w
      → w.phase ≡ p
      → w.executed ++ (to_run p ++ w.loop.pending_functors) ≡ w.queued
  ordered w p r e =
      ap (λ q. w.executed ++ (to_run q ++ w.loop.pending_functors)) (sym e)
      ∙ (Reach-IsSound r).in_order

  woken_up :
      (v w : World F) (all : List F) (n : ℕ)
      → Alone v w
      → w.phase ≡ polling
      → w.own ≡ none
      → w.queued ≡ all
      → w.loop.wakeups ≡ n
      → 0 < w.loop.wakeups + writing w.others
      → Back v all (w.executed ++ w.loop.pending_functors) []
  woken_up v w all (suc n) a e o q m h = from_ready v w all a e o q (omega (arith, m))
  woken_up v w all zero a e o q m h =
      from_unready v w all a e o q (picked w.others (omega (arith, m, h)))

  -- In `poll` with functors waiting the eventfd is ready or is going to be, so the thread goes on.
  from_polling :
      (v w : World F) (all waiting : List F)
      → Reach initial w
      → Alone v w
      → w.phase ≡ polling
      → w.own ≡ none
      → w.queued ≡ all
      → w.loop.pending_functors ≡ waiting
      → Back v all all []
  from_polling v w all [] r a e o q none_left = (
    w,
    a,
    o,
    q,
    inl (
      e,
      sym (append-nil w.executed)
          ∙ ap (λ t. w.executed ++ t) (sym none_left)
          ∙ ordered w polling r e
          ∙ q,
      none_left,
    ),
  )
  from_polling v w all (f ∷ fs) r a e o q some_left =
      subst (λ ran. Back v all ran []) (ordered w polling r e ∙ q)
        (woken_up v w all w.loop.wakeups a e o q refl
          (woken_polling w (Reach-IsSound r) e (λ k. cons-ne-nil (sym some_left ∙ k))))

  -- A loop that has come back to `poll` with functors waiting goes round once more.
  once_more :
      (v : World F) (all ran left : List F)
      → Reach initial v
      → Back v all ran left
      → Back v all all []
  once_more v all ran left r (u, a, o, q, inl (e, k, m)) =
      from_polling v u all u.loop.pending_functors (Reach-Alone r a) a e o q refl
  once_more v all ran left r (u, a, o, q, inr stopped) = (u, a, o, q, inr stopped)

  from_phase :
      (v w : World F) (all : List F) (p : Phase F)
      → Reach initial v
      → Alone v w
      → w.phase ≡ p
      → w.own ≡ none
      → w.queued ≡ all
      → Back v all all []
  from_phase v w all polling r a e o q =
      from_polling v w all w.loop.pending_functors (Reach-Alone r a) a e o q refl
  from_phase v w all handling r a e o q = once_more v all _ _ r (from_handling v w all a e o q)
  from_phase v w all (calling fs) r a e o q =
      once_more v all _ _ r (from_calling fs v w all a e o q)
  from_phase v w all testing r a e o q = once_more v all _ _ r (from_testing v w all a e o q)
  from_phase v w all ended r a e o q =
      (w, a, o, q, inr (e, (Reach-IsSound (Reach-Alone r a)).over e))

  -- What the thread is still to push in the call in which it is.
  abbrev pub own_left : Option (Thread F) → List F
  own_left (some (queueing f, zero)) = f ∷ []
  own_left _ = []

  -- That call comes to its end.
  abbrev Settled : World F → List F → Type ℓ
  Settled v all = (w : World F) × Alone v w × (w.own ≡ none) × (w.queued ≡ all)

  returned_from :
      (v w : World F) (all : List F) (t : Thread F)
      → Alone v w
      → w.own ≡ some t
      → next_section t ≡ none
      → w.queued ≡ all
      → Settled v all
  returned_from v w all t a e z q = (_, takes a (own_returns t e z) tt, refl, q)

  settled : (v : World F) (o : Option (Thread F)) → v.own ≡ o → Settled v (v.queued ++ own_left o)
  unfolding perform
  settled v none e = (v, rests, e, sym (append-nil v.queued))
  settled v (some (queueing f, zero)) e =
      returned_from v _ (v.queued ++ f ∷ []) (queueing f, 2)
        (takes (takes rests (own_performs _ e) tt) (own_performs _ refl) tt) refl refl refl
  settled v (some (queueing f, suc zero)) e =
      returned_from v _ _ (queueing f, 2) (takes rests (own_performs _ e) tt) refl refl
        (sym (append-nil v.queued))
  settled v (some (queueing f, suc (suc n))) e =
      returned_from v v _ (queueing f, suc (suc n)) rests e refl (sym (append-nil v.queued))
  settled v (some (quitting, zero)) e =
      returned_from v _ _ (quitting, 2)
        (takes (takes rests (own_performs _ e) tt) (own_performs _ refl) tt) refl refl
        (sym (append-nil v.queued))
  settled v (some (quitting, suc zero)) e =
      returned_from v _ _ (quitting, 2) (takes rests (own_performs _ e) tt) refl refl
        (sym (append-nil v.queued))
  settled v (some (quitting, suc (suc n))) e =
      returned_from v v _ (quitting, suc (suc n)) rests e refl (sym (append-nil v.queued))

  -- From every state that the loop reaches among other threads, those included in which a thread is
  -- between the push and the wake-up of `queueInLoop`: there are steps, in which no thread begins a
  -- further call of `queueInLoop` or `quit`, `poll` returns only for the eventfd, and the others do
  -- nothing but the writes to the eventfd that they have as the next thing to do, by which the
  -- loop's thread comes back to `poll` with every functor queued so far run, each once and in order,
  -- the one included that it was itself about to push, and none left in the queue; or by which it
  -- has left the loop, which has been told to quit.
  pub Reach-progress :
      {v : World F}
      → Reach initial v
      → (u : World F) × Alone v u
        × (u.queued ≡ v.queued ++ own_left v.own)
        × (((u.phase ≡ polling)
              × (u.executed ≡ v.queued ++ own_left v.own)
              × (u.loop.pending_functors ≡ []))
            ⊎ ((u.phase ≡ ended) × (u.loop.quit ≡ true)))
  Reach-progress {v} r =
      let (w, a, o, q) = settled v v.own refl in
      let (u, b, own, all, stands) =
        from_phase v w (v.queued ++ own_left v.own) w.phase r a refl o q in
      (u, b, all, stands)
