-- ===== src/Net/EventLoop/Sections.antt =====
-- The sections of `queueInLoop` and `quit`, by the loop's thread and by others: nobody is left
-- waiting without a write to the eventfd that has been made or is to come.
use simple_http_server.Common.{
  ℕ, zero, suc, ◌+◌, ◌≡◌, ◌≢◌, refl, sym, ap, ◌∙◌, arith, true, false, List, [], ◌∷◌, ◌++◌, some,
  append_assoc,
}
use simple_http_server.Net.EventLoop.{EventLoop, Call, queueing, quitting, notifies, perform}
use simple_http_server.Net.EventLoop.Threads.{
  Phase, polling, handling, testing, ended, calling, to_run, is_calling, runs_callbacks, Thread,
  next_section, advanced, World, performed, writes, writing, own_notifies, IsSound,
}

module _ {ℓ} {F : Type ℓ} where
  append_one :
      (a b c d : List F) (f : F) → a ++ (b ++ c) ≡ d → a ++ (b ++ (c ++ f ∷ [])) ≡ d ++ f ∷ []
  append_one a b c d f e =
      ap (λ t. a ++ t) (sym (append_assoc b c (f ∷ [])))
      ∙ sym (append_assoc a (b ++ c) (f ∷ []))
      ∙ ap (λ t. t ++ f ∷ []) e

  pub writing-append : (xs ys : List (Thread F)) → writing (xs ++ ys) ≡ writing xs + writing ys
  writing-append [] ys = omega arith
  writing-append (t ∷ xs) ys = omega (arith, writing-append xs ys)

  -- The threads around the one that takes the step.
  around :
      (before after ts : List (Thread F)) (t : Thread F)
      → ts ≡ before ++ t ∷ after
      → writing ts ≡ writing before + (writes (next_section t) + writing after)
  around before after ts t e = ap writing e ∙ writing-append before (t ∷ after)

  abbrev stepped : List (Thread F) → List (Thread F) → Thread F → World F → World F
  stepped before after t w = record (performed false (next_section t) w) {
    others = before ++ advanced t ∷ after;
  }

  -- Of a step that writes to the eventfd, or that comes to the same for who is still to write.
  same-IsSound :
      (before after : List (Thread F)) (c : Call F) (n more : ℕ) (w : World F)
      → w.others ≡ before ++ (c, n) ∷ after
      → writes (next_section (c, n)) ≡ more + writes (next_section (c, suc n))
      → IsSound w
      → IsSound (record w {
        loop = record (w.loop) { wakeups = w.loop.wakeups + more };
        others = before ++ (c, suc n) ∷ after;
      })
  same-IsSound before after c n more w e k s =
      let old = around before after w.others (c, n) e in
      let new = writing-append before ((c, suc n) ∷ after) in
      record {
        flag = s.flag;
        in_order = s.in_order;
        own_place = s.own_place;
        over = s.over;
        woken = λ h m. let b = s.woken h m in omega (arith, old, new, k, b);
        told = λ h q. let b = s.told h q in omega (arith, old, new, k, b);
      }

  -- Behind the last section.
  over-IsSound :
      (before after : List (Thread F)) (c : Call F) (n : ℕ) (w : World F)
      → w.others ≡ before ++ (c, n) ∷ after
      → writes (next_section (c, n)) ≡ writes (next_section (c, suc n))
      → IsSound w
      → IsSound (record w { others = before ++ (c, suc n) ∷ after })
  over-IsSound before after c n w e k s =
      let old = around before after w.others (c, n) e in
      let new = writing-append before ((c, suc n) ∷ after) in
      record {
        flag = s.flag;
        in_order = s.in_order;
        own_place = s.own_place;
        over = s.over;
        woken = λ h m. let b = s.woken h m in omega (arith, old, new, k, b);
        told = λ h q. let b = s.told h q in omega (arith, old, new, k, b);
      }

  pub other-IsSound :
      (before after : List (Thread F)) (c : Call F) (n : ℕ) (w : World F)
      → w.others ≡ before ++ (c, n) ∷ after
      → IsSound w
      → IsSound (stepped before after (c, n) w)
  unfolding perform
  other-IsSound before after (queueing f) zero w e s =
      let new = writing-append before ((queueing f, 1) ∷ after) in
      record {
        flag = s.flag;
        in_order =
            append_one w.executed (to_run w.phase) w.loop.pending_functors w.queued f s.in_order;
        own_place = s.own_place;
        over = s.over;
        woken = λ h m. omega (arith, new);
        told = λ h q. omega (arith, new);
      }
  other-IsSound before after (queueing f) (suc zero) w e s =
      same-IsSound before after (queueing f) 1 1 w e refl s
  other-IsSound before after (queueing f) (suc (suc n)) w e s =
      over-IsSound before after (queueing f) (suc (suc n)) w e refl s
  other-IsSound before after quitting zero w e s =
      let old = around before after w.others (quitting, 0) e in
      let new = writing-append before ((quitting, 1) ∷ after) in
      record {
        flag = s.flag;
        in_order = s.in_order;
        own_place = s.own_place;
        over = λ _. refl;
        woken = λ h m. let b = s.woken h m in omega (arith, old, new, b);
        told = λ h q. omega (arith, new);
      }
  other-IsSound before after quitting (suc zero) w e s =
      same-IsSound before after quitting 1 1 w e refl s
  other-IsSound before after quitting (suc (suc n)) w e s =
      over-IsSound before after quitting (suc (suc n)) w e refl s

  callbacks-ne-polling : (p : Phase F) → runs_callbacks p ≡ true → p ≢ polling
  callbacks-ne-polling p e k = let h : false ≡ true = ap runs_callbacks (sym k) ∙ e in cc

  calls_or_handles : (p : Phase F) → runs_callbacks p ≡ true → p ≢ handling → is_calling p ≡ true
  calls_or_handles handling e n = absurd (n refl)
  calls_or_handles (calling fs) e n = refl
  calls_or_handles polling e n = cc
  calls_or_handles testing e n = cc
  calls_or_handles ended e n = cc

  -- The test of `callingPendingFunctors_`: in a callback of a channel nothing is written.
  quiet : (l : EventLoop F) → l.calling_pending_functors ≡ false → perform true notifies l ≡ l
  unfolding perform
  quiet l e = rw (e, perform) refl

  loud :
      (l : EventLoop F)
      → l.calling_pending_functors ≡ true
      → perform true notifies l ≡ record l { wakeups = l.wakeups + 1 }
  unfolding perform
  loud l e = rw (e, perform) refl

  -- The own thread has a section behind it that does not change who is to write.
  advanced-IsSound :
      (t : Thread F) (w : World F)
      → runs_callbacks w.phase ≡ true
      → own_notifies w.own ≡ 0
      → IsSound w
      → IsSound (record w { own = some t })
  advanced-IsSound t w p z s = record {
    flag = s.flag;
    in_order = s.in_order;
    own_place = λ _ _. p;
    over = s.over;
    woken = λ h m. let b = s.woken h m in omega (arith, z, b);
    told = s.told;
  }

  notifies-IsSound :
      (f : F) (w : World F) (p : Phase F)
      → w.phase ≡ p
      → runs_callbacks p ≡ true
      → IsSound w
      → IsSound (record w { loop = perform true notifies w.loop; own = some (queueing f, 2) })
  notifies-IsSound f w handling e r s = rw (quiet w.loop (s.flag ∙ ap is_calling e)) (record {
    flag = s.flag;
    in_order = s.in_order;
    own_place = λ _ _. ap runs_callbacks e;
    over = s.over;
    woken = λ n _. absurd (n e);
    told = s.told;
  })
  notifies-IsSound f w (calling fs) e r s = rw (loud w.loop (s.flag ∙ ap is_calling e)) (record {
    flag = s.flag;
    in_order = s.in_order;
    own_place = λ _ _. ap runs_callbacks e;
    over = s.over;
    woken = λ _ _. omega arith;
    told = λ h q. omega arith;
  })
  notifies-IsSound f w polling e r s = cc
  notifies-IsSound f w testing e r s = cc
  notifies-IsSound f w ended e r s = cc

  pub own-IsSound :
      (c : Call F) (n : ℕ) (w : World F)
      → w.own ≡ some (c, n)
      → runs_callbacks w.phase ≡ true
      → IsSound w
      → IsSound (record (performed true (next_section (c, n)) w) { own = some (c, suc n) })
  unfolding perform
  own-IsSound (queueing f) zero w e p s = record {
    flag = s.flag;
    in_order = append_one w.executed (to_run w.phase) w.loop.pending_functors w.queued f s.in_order;
    own_place = λ _ _. p;
    over = s.over;
    woken = λ h m. omega arith;
    told = s.told;
  }
  own-IsSound (queueing f) (suc zero) w e p s = notifies-IsSound f w w.phase refl p s
  own-IsSound (queueing f) (suc (suc n)) w e p s =
      advanced-IsSound (queueing f, suc (suc (suc n))) w p (ap own_notifies e) s
  own-IsSound quitting zero w e p s = record {
    flag = s.flag;
    in_order = s.in_order;
    own_place = λ _ _. p;
    over = λ _. refl;
    woken = λ h m. let b = s.woken h m in omega (arith, ap own_notifies e, b);
    told = λ h q. absurd (callbacks-ne-polling w.phase p h);
  }
  own-IsSound quitting (suc zero) w e p s = advanced-IsSound (quitting, 2) w p (ap own_notifies e) s
  own-IsSound quitting (suc (suc n)) w e p s =
      advanced-IsSound (quitting, suc (suc (suc n))) w p (ap own_notifies e) s
