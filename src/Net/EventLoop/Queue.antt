-- ===== src/Net/EventLoop/Queue.antt =====
-- The loop's thread among the others: what they queue is run in order, and no wake-up is lost.
use simple_http_server.Common.{
  zero, suc, ◌+◌, ◌<◌, ◌≡◌, ◌≢◌, refl, sym, ap, ◌∙◌, arith, Bool, true, false, List, [], ◌∷◌, ◌++◌,
  Option, none, some, append-nil, append_assoc,
}
use simple_http_server.Net.EventLoop.{queueing, quitting, handle_read}
use simple_http_server.Net.EventLoop.Threads.{
  Phase, polling, handling, testing, calling, to_run, is_calling, runs_callbacks, Thread,
  next_section, World, initial, Step, other_begins, other_performs, own_begins, own_performs,
  own_returns, poll_returns, reads_eventfd, swaps, runs, has_called, polls_again, stops, Reach,
  here, next, writing, own_notifies, IsSound,
}
use simple_http_server.Net.EventLoop.Sections.{other-IsSound, own-IsSound}

module _ {ℓ} {F : Type ℓ} where
  calling-ne-handling : {fs : List F} → ◌≡◌ {A = Phase F} (calling fs) handling → ⊥
  calling-ne-handling e = cc

  testing-ne-handling : ◌≡◌ {A = Phase F} testing handling → ⊥
  testing-ne-handling e = cc

  pub polling-ne-handling : ◌≡◌ {A = Phase F} polling handling → ⊥
  polling-ne-handling e = cc

  -- In a phase without callbacks the loop's thread is in no call.
  not_within :
      (o : Option (Thread F)) (b : Bool)
      → b ≡ false
      → ((t : Thread F) → o ≡ some t → b ≡ true)
      → o ≡ none
  not_within none b e h = refl
  not_within (some t) b e h = absurd (let k = h t refl in cc)

  -- Where the loop's thread is in no call.
  nowhere : (o : Option (Thread F)) (t : Thread F) {A : Type 0} → o ≡ none → o ≡ some t → A
  nowhere o t e k = cc

  pub none_within : (w : World F) → IsSound w → runs_callbacks w.phase ≡ false → w.own ≡ none
  none_within w s e = not_within w.own (runs_callbacks w.phase) e s.own_place

  over_notifies : (t : Thread F) → next_section t ≡ none → own_notifies (some t) ≡ 0
  over_notifies (queueing f, zero) e = cc
  over_notifies (queueing f, suc zero) e = cc
  over_notifies (queueing f, suc (suc n)) e = refl
  over_notifies (quitting, n) e = refl

  Step-IsSound : {u v : World F} → Step u v → IsSound u → IsSound v
  unfolding handle_read
  Step-IsSound {u} (other_begins c) s = record {
    flag = s.flag;
    in_order = s.in_order;
    own_place = s.own_place;
    over = s.over;
    woken = λ h m. let b = s.woken h m in omega (arith, b);
    told = λ h q. let b = s.told h q in omega (arith, b);
  }
  Step-IsSound {u} (other_performs before after (c, n) e) s = other-IsSound before after c n u e s
  Step-IsSound {u} (own_begins c e p) s = record {
    flag = s.flag;
    in_order = s.in_order;
    own_place = λ _ _. p;
    over = s.over;
    woken = λ h m. let b = s.woken h m in omega (arith, ap own_notifies e, b);
    told = s.told;
  }
  Step-IsSound {u} (own_performs (c, n) e) s = own-IsSound c n u e (s.own_place (c, n) e) s
  Step-IsSound {u} (own_returns t e over) s = record {
    flag = s.flag;
    in_order = s.in_order;
    own_place = λ k h. cc;
    over = s.over;
    woken = λ h m. let b = s.woken h m in omega (arith, ap own_notifies e, over_notifies t over, b);
    told = s.told;
  }
  Step-IsSound {u} (poll_returns e) s = record {
    flag = s.flag ∙ ap is_calling e;
    in_order = ap (λ p. u.executed ++ (to_run p ++ u.loop.pending_functors)) (sym e) ∙ s.in_order;
    own_place = λ _ _. refl;
    over = λ k. cc;
    woken = λ n _. absurd (n refl);
    told = λ k. absurd (polling-ne-handling (sym k));
  }
  Step-IsSound {u} (reads_eventfd e o) s = record {
    flag = s.flag;
    in_order = s.in_order;
    own_place = s.own_place;
    over = s.over;
    woken = λ n _. absurd (n e);
    told = λ k. absurd (polling-ne-handling (sym k ∙ e));
  }
  Step-IsSound {u} (swaps e o) s = record {
    flag = refl;
    in_order =
        ap (λ t. u.executed ++ t) (append-nil u.loop.pending_functors)
        ∙ ap (λ p. u.executed ++ (to_run p ++ u.loop.pending_functors)) (sym e)
        ∙ s.in_order;
    own_place = λ _ _. refl;
    over = λ k. cc;
    woken = λ _ n. absurd (n refl);
    told = λ k. cc;
  }
  Step-IsSound {u} (runs f fs e o) s = record {
    flag = s.flag ∙ ap is_calling e;
    in_order =
        append_assoc u.executed (f ∷ []) (fs ++ u.loop.pending_functors)
        ∙ ap (λ p. u.executed ++ (to_run p ++ u.loop.pending_functors)) (sym e)
        ∙ s.in_order;
    own_place = λ _ _. refl;
    over = λ k. cc;
    woken = λ _ n. s.woken (λ k. calling-ne-handling (sym e ∙ k)) n;
    told = λ k. cc;
  }
  Step-IsSound {u} (has_called e o) s = record {
    flag = refl;
    in_order = ap (λ p. u.executed ++ (to_run p ++ u.loop.pending_functors)) (sym e) ∙ s.in_order;
    own_place = λ t k. nowhere u.own t o k;
    over = λ k. cc;
    woken = λ _ n. s.woken (λ k. calling-ne-handling (sym e ∙ k)) n;
    told = λ k. cc;
  }
  Step-IsSound {u} (polls_again e q) s = record {
    flag = s.flag ∙ ap is_calling e;
    in_order = ap (λ p. u.executed ++ (to_run p ++ u.loop.pending_functors)) (sym e) ∙ s.in_order;
    own_place = λ t k. sym (ap runs_callbacks e) ∙ s.own_place t k;
    over = λ k. cc;
    woken = λ _ n. s.woken (λ k. testing-ne-handling (sym e ∙ k)) n;
    told = λ _ k. absurd (let h : false ≡ true = sym q ∙ k in cc);
  }
  Step-IsSound {u} (stops e q) s = record {
    flag = s.flag ∙ ap is_calling e;
    in_order = ap (λ p. u.executed ++ (to_run p ++ u.loop.pending_functors)) (sym e) ∙ s.in_order;
    own_place = λ t k. sym (ap runs_callbacks e) ∙ s.own_place t k;
    over = λ _. q;
    woken = λ _ n. s.woken (λ k. testing-ne-handling (sym e ∙ k)) n;
    told = λ k. cc;
  }

  pub Reach-IsSound : {v : World F} → Reach initial v → IsSound v
  Reach-IsSound here = record {
    flag = refl;
    in_order = refl;
    own_place = λ t e. cc;
    over = λ k. cc;
    woken = λ _ n. absurd (n refl);
    told = λ _ e. cc;
  }
  Reach-IsSound (next r st) = Step-IsSound st (Reach-IsSound r)

  pub woken_polling :
      (v : World F)
      → IsSound v
      → v.phase ≡ polling
      → v.loop.pending_functors ≢ []
      → 0 < v.loop.wakeups + writing v.others
  woken_polling v s e n =
      let b = s.woken (λ k. polling-ne-handling (sym e ∙ k)) n in
      omega (arith, b, ap own_notifies (none_within v s (ap runs_callbacks e)))

  -- From a loop that is polling with nothing queued, no `quit` and no thread in a call, through any
  -- interleaving of its own thread with others, which may come between the push and the wake-up of
  -- a `queueInLoop` and between the flag and the wake-up of a `quit`: the functors run so far, those
  -- about to be run and those in the queue are exactly the functors queued, each once and in the
  -- order of queueing; and whenever the loop's thread is in `poll` while a functor waits in the
  -- queue or the loop has been told to quit, the eventfd is ready, so that `poll` returns, or some
  -- other thread has the write to the eventfd as the next thing to do.
  pub Reach-delivers :
      {v : World F}
      → Reach initial v
      → (v.executed ++ (to_run v.phase ++ v.loop.pending_functors) ≡ v.queued)
        × (v.phase ≡ polling → v.loop.pending_functors ≢ [] → 0 < v.loop.wakeups + writing v.others)
        × (v.phase ≡ polling → v.loop.quit ≡ true → 0 < v.loop.wakeups + writing v.others)
  Reach-delivers {v} r =
      let s = Reach-IsSound r in (s.in_order, λ e n. woken_polling v s e n, s.told)
