-- ===== src/Net/EventLoop/Rounds.antt =====
-- When `loop` ends.
use simple_http_server.Common.{
  ℕ, suc, ◌+◌, ◌≡◌, refl, ap, ◌∙◌, arith, Bool, true, false, List, [], ◌∷◌, ◌++◌, if◌then◌else◌,
}
use simple_http_server.Common.Outcome.{returned}
use simple_http_server.Net.EventLoop.{
  EventLoop, swapped, run_all, do_pending_functors, round, loop_from, entered, loop, quit_loop,
  wakeup,
}

module _ {ℓ} {F : Type ℓ} (handle : EventLoop F → EventLoop F)
    (run : F → EventLoop F → EventLoop F) where
  -- No functor and no callback takes back that the loop is to quit.
  pub record KeepsQuit : Type ℓ where
    pub handled : (l : EventLoop F) → l.quit ≡ true → (handle l).quit ≡ true
    pub ran : (f : F) (l : EventLoop F) → l.quit ≡ true → (run f l).quit ≡ true

  run_all-quit :
      (fs : List F) (l : EventLoop F) → KeepsQuit → l.quit ≡ true → (run_all run fs l).quit ≡ true
  unfolding run_all
  run_all-quit [] l k e = e
  run_all-quit (f ∷ fs) l k e = run_all-quit fs (run f l) k (k.ran f l e)

  run_all_quits :
      (before after : List F) (f : F) (l : EventLoop F)
      → KeepsQuit
      → ((m : EventLoop F) → (run f m).quit ≡ true)
      → (run_all run (before ++ f ∷ after) l).quit ≡ true
  unfolding run_all
  run_all_quits [] after f l k q = run_all-quit after (run f l) k (q l)
  run_all_quits (g ∷ before) after f l k q = run_all_quits before after f (run g l) k q

  loop_from_quit :
      (fuel : ℕ) (m : EventLoop F)
      → m.quit ≡ true
      → loop_from (suc fuel) handle run m ≡ returned (record m { looping = false })
  unfolding loop_from
  loop_from_quit fuel m e =
      rw (e, loop_from) (ap (λ b. returned (record m { looping = false; quit = b })) e)

  -- A functor that makes the loop quit is in the queue when `loop` is called, the loop's own
  -- callbacks and the other threads only queue further functors behind it, and nothing takes the
  -- quitting back. Then `loop` returns behind the first round, in which all the functors before it
  -- have been run, and is no longer looping.
  pub loop_quits :
      (fuel : ℕ) (before after : List F) (f : F) (l : EventLoop F)
      → KeepsQuit
      → ((m : EventLoop F) → (run f m).quit ≡ true)
      → (handle (entered l)).pending_functors ≡ before ++ f ∷ after
      → loop (fuel + 2) handle run l
        ≡ returned (record (round handle run (entered l)) { looping = false })
  unfolding loop round do_pending_functors
  loop_quits fuel before after f l k q e =
      let fuel_is : fuel + 2 ≡ suc (suc fuel) = omega arith in
      let over : (round handle run (entered l)).quit ≡ true =
        ap (λ fs. (run_all run fs (swapped (handle (entered l)))).quit) e
        ∙ run_all_quits before after f (swapped (handle (entered l))) k q in
      rw fuel_is (loop_from_quit fuel (round handle run (entered l)) over)

  -- A `quit` before `loop` is called has no effect on it but for the eventfd, which a `quit` from
  -- another thread makes ready: the loop goes on as if the `quit` had not been called.
  pub loop-quit_loop :
      (fuel : ℕ) (in_loop_thread : Bool) (l : EventLoop F)
      → loop fuel handle run (quit_loop in_loop_thread l)
        ≡ loop fuel handle run (if in_loop_thread then l else wakeup l)
  unfolding loop quit_loop wakeup
  loop-quit_loop fuel true l = refl
  loop-quit_loop fuel false l = refl
