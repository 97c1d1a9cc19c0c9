-- ===== src/Net/LoopThread/Overtaken.antt =====
-- The destructor of EventLoopThread and the entry of the thread into its loop: which comes first.
use simple_http_server.Common.{◌≡◌, ◌≢◌, refl, sym, subst, ◌∙◌, ◌⊎◌, inl, inr, false, if◌then◌else◌}
use simple_http_server.Net.LoopThread.{
  published, looping, left, ended, fresh, waiting, joining, LoopThread, enter_loop, test_quit,
}
use simple_http_server.Net.LoopThread.Handover.{
  Step, starts, waits, makes, publishes, enters, tests_quit, clears, tests_loop, quits, joins,
  is_made_to_quit, Reach, here, next,
}

module _ {ℓ} {F : Type ℓ} where
  abbrev HasNotQuit : LoopThread F → Type 0
  HasNotQuit t =
      (t.owner ≡ joining) × ((t.thread ≡ published) ⊎ ((t.thread ≡ looping) × (t.own.quit ≡ false)))

  stays_looping :
      (t : LoopThread F)
      → t.owner ≡ joining
      → t.thread ≡ looping
      → t.own.quit ≡ false
      → HasNotQuit (test_quit t)
  unfolding test_quit
  stays_looping t o e q =
      subst
        (λ b.
          HasNotQuit
            (if b then record t { own = record (t.own) { looping = false }; thread = left } else t))
        (sym q) (o, inr (e, q))

  Step-HasNotQuit : {t u : LoopThread F} → Step false t u → HasNotQuit t → HasNotQuit u
  unfolding enter_loop
  Step-HasNotQuit {t} (starts e) (o, c) = absurd (let k : fresh ≡ joining = sym e ∙ o in cc)
  Step-HasNotQuit {t} (waits e) (o, c) = absurd (let k : waiting ≡ joining = sym e ∙ o in cc)
  Step-HasNotQuit {t} (makes callback e) (o, inl p) = cc
  Step-HasNotQuit {t} (makes callback e) (o, inr (p, q)) = cc
  Step-HasNotQuit {t} (publishes e) (o, inl p) = cc
  Step-HasNotQuit {t} (publishes e) (o, inr (p, q)) = cc
  Step-HasNotQuit {t} (enters e) (o, c) = (o, inr (refl, refl))
  Step-HasNotQuit {t} (tests_quit e) (o, inl p) = cc
  Step-HasNotQuit {t} (tests_quit e) (o, inr (p, q)) = stays_looping t o p q
  Step-HasNotQuit {t} (clears e) (o, inl p) = cc
  Step-HasNotQuit {t} (clears e) (o, inr (p, q)) = cc
  Step-HasNotQuit {t} (tests_loop (inl e)) (o, c) = cc
  Step-HasNotQuit {t} (tests_loop (inr e)) (o, c) = cc
  Step-HasNotQuit {t} (quits e) (o, c) = cc
  Step-HasNotQuit {t} (joins e over) (o, inl p) = cc
  Step-HasNotQuit {t} (joins e over) (o, inr (p, q)) = cc
  Step-HasNotQuit {t} (is_made_to_quit e f) (o, c) = cc

  Reach-HasNotQuit : {t u : LoopThread F} → HasNotQuit t → Reach false t u → HasNotQuit u
  Reach-HasNotQuit h here = h
  Reach-HasNotQuit h (next r st) = Step-HasNotQuit st (Reach-HasNotQuit h r)

  -- The destructor has called `quit` and is in front of `join` while the thread has published its
  -- loop but not entered it yet. Then, unless something else makes the loop quit, whatever steps
  -- follow: the thread has not ended, and the destructor is still in front of `join`.
  pub Reach-hangs :
      {t u : LoopThread F}
      → t.owner ≡ joining
      → t.thread ≡ published
      → Reach false t u
      → (u.owner ≡ joining) × (u.thread ≢ ended)
  Reach-hangs o p r =
      let (same, place) = Reach-HasNotQuit (o, inl p) r in
      elim place [
        | inl e ↦ (same, λ k. let c : published ≡ ended = sym e ∙ k in cc)
        | inr (e, q) ↦ (same, λ k. let c : looping ≡ ended = sym e ∙ k in cc)
      ]
