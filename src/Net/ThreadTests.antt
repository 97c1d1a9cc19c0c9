-- ===== src/Net/ThreadTests.antt =====
-- The thread of a loop and its owner in concrete orders of their steps.
use simple_http_server.Common.{ℕ, ◌≡◌, ◌≢◌, refl, true, false, inr}
use simple_http_server.Net.EventLoop.{quit_loop}
use simple_http_server.Net.LoopThread.{
  joining, ended, crashed, LoopThread, new_loop_thread, start_thread, wait_for_loop, make_loop,
  publish_loop, enter_loop, test_quit, clear_loop, test_loop, quit_thread,
}
use simple_http_server.Net.LoopThread.Handover.{
  IsHandedOver, Reach, here, next, starts, waits, makes, publishes, enters, tests_quit, clears,
  tests_loop, quits, is_made_to_quit, Reach-IsHandedOver,
}
use simple_http_server.Net.LoopThread.Overtaken.{Reach-hangs}

-- The owner is out of `startLoop` before the thread has entered its loop.
abbrev obtained : LoopThread ℕ
obtained = wait_for_loop (publish_loop (make_loop (λ l. l) (start_thread new_loop_thread)))

obtained-Reach : Reach false (new_loop_thread {F = ℕ}) obtained
unfolding start_thread make_loop publish_loop
obtained-Reach =
    next (next (next (next here (starts refl)) (makes (λ l. l) refl)) (publishes refl)) (waits refl)

Reach-IsHandedOver_example : IsHandedOver obtained
Reach-IsHandedOver_example = Reach-IsHandedOver obtained-Reach

-- The destructor comes first.
abbrev overtaken : LoopThread ℕ
overtaken = quit_thread (test_loop obtained)

overtaken-Reach : Reach false (new_loop_thread {F = ℕ}) overtaken
unfolding start_thread make_loop publish_loop wait_for_loop test_loop
overtaken-Reach = next (next obtained-Reach (tests_loop (inr refl))) (quits refl)

Reach-hangs_example :
    ((test_quit (enter_loop overtaken)).owner ≡ joining)
    × ((test_quit (enter_loop overtaken)).thread ≢ ended)
unfolding start_thread make_loop publish_loop wait_for_loop test_loop quit_thread enter_loop
Reach-hangs_example =
    Reach-hangs {t = overtaken} refl refl (next (next here (enters refl)) (tests_quit refl))

-- The loop is made to quit, and the thread ends between the test of `loop_` and its use.
abbrev test_passed : LoopThread ℕ
test_passed = test_loop (enter_loop obtained)

abbrev crashes : LoopThread ℕ
crashes =
    quit_thread
      (clear_loop (test_quit (record test_passed { own = quit_loop true (test_passed.own) })))

crashes-Reach : (crashes.owner ≡ crashed) × Reach true test_passed crashes
unfolding start_thread make_loop publish_loop wait_for_loop test_loop quit_thread enter_loop
    test_quit clear_loop quit_loop
crashes-Reach = (
  refl,
  next (next (next (next here (is_made_to_quit refl refl)) (tests_quit refl)) (clears refl))
      (quits refl),
)
