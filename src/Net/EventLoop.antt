-- ===== src/Net/EventLoop.antt =====
-- mymuduo/net/EventLoop.cpp: the functors that a loop is given to run. A functor is a value of a
-- type `F`; running one is a function on the loop. `wakeups` is the counter of the eventfd, which
-- ends a blocking poll while it is not 0.
pub mod Threads
pub mod Sections
pub mod Queue
pub mod Alone
pub mod Progress
pub mod Rounds
pub mod Channels
use simple_http_server.Common.{
  ℕ, zero, suc, ◌+◌, Bool, true, false, not, ◌||◌, List, [], ◌∷◌, ◌++◌, ◌==◌, if◌then◌else◌,
}
use simple_http_server.Common.Outcome.{Outcome, returned, running}

pub record EventLoop {ℓ} (F : Type ℓ) : Type ℓ where
  pub looping : Bool
  pub quit : Bool
  pub calling_pending_functors : Bool
  pub pending_functors : List F
  pub wakeups : ℕ

-- `queueInLoop` and `quit`, and what they do one after the other: the push is under the mutex, and
-- what comes behind it is not.
pub data Call {ℓ} (F : Type ℓ) : Type ℓ where
  queueing : F → Call F
  quitting : Call F

pub data Section {ℓ} (F : Type ℓ) : Type ℓ where
  pushes : F → Section F
  notifies sets_quit wakes : Section F

unfoldable pub new_loop {ℓ} : {F : Type ℓ} → EventLoop F
new_loop = record {
  looping = false;
  quit = false;
  calling_pending_functors = false;
  pending_functors = [];
  wakeups = 0;
}

module _ {ℓ} {F : Type ℓ} where
  -- Writing 1 to the eventfd.
  unfoldable pub wakeup : EventLoop F → EventLoop F
  wakeup l = record l { wakeups = l.wakeups + 1 }

  -- Reading the eventfd takes the whole counter.
  unfoldable pub handle_read : EventLoop F → EventLoop F
  handle_read l = record l { wakeups = 0 }

  abbrev pub enqueued : F → EventLoop F → EventLoop F
  enqueued f l = record l { pending_functors = l.pending_functors ++ f ∷ [] }

  -- One section of a call: what a thread does to the loop before another may come between.
  unfoldable pub perform : Bool → Section F → EventLoop F → EventLoop F
  unfolding wakeup
  perform in_loop_thread (pushes f) l = enqueued f l
  perform in_loop_thread notifies l =
      if not in_loop_thread || l.calling_pending_functors then wakeup l else l
  perform in_loop_thread sets_quit l = record l { quit = true }
  perform in_loop_thread wakes l = if not in_loop_thread then wakeup l else l

  -- The sections of `queueInLoop` and of `quit`, in the order in which the code has them.
  abbrev pub sections : Call F → List (Section F)
  sections (queueing f) = pushes f ∷ notifies ∷ []
  sections quitting = sets_quit ∷ wakes ∷ []

  abbrev pub perform_all : Bool → List (Section F) → EventLoop F → EventLoop F
  perform_all in_loop_thread [] l = l
  perform_all in_loop_thread (s ∷ ss) l = perform_all in_loop_thread ss (perform in_loop_thread s l)

  unfoldable pub queue_in_loop : Bool → F → EventLoop F → EventLoop F
  unfolding perform
  queue_in_loop in_loop_thread f l = perform_all in_loop_thread (sections (queueing f)) l

  unfoldable pub run_in_loop :
      (F → EventLoop F → EventLoop F) → Bool → F → EventLoop F → EventLoop F
  unfolding queue_in_loop
  run_in_loop run in_loop_thread f l =
      if in_loop_thread then run f l else queue_in_loop in_loop_thread f l

  unfoldable pub quit_loop : Bool → EventLoop F → EventLoop F
  unfolding perform
  quit_loop in_loop_thread l = perform_all in_loop_thread (sections quitting) l

  -- Under the mutex: the queue is swapped with an empty one.
  abbrev pub swapped : EventLoop F → EventLoop F
  swapped l = record l { calling_pending_functors = true; pending_functors = [] }

  unfoldable pub run_all : (F → EventLoop F → EventLoop F) → List F → EventLoop F → EventLoop F
  run_all run [] l = l
  run_all run (f ∷ fs) l = run_all run fs (run f l)

  unfoldable pub do_pending_functors : (F → EventLoop F → EventLoop F) → EventLoop F → EventLoop F
  unfolding run_all
  do_pending_functors run l = record (run_all run l.pending_functors (swapped l)) {
    calling_pending_functors = false;
  }

  -- One round: `poll` and the callbacks of the channels that are ready, and all that other threads
  -- do in the meantime, are `handle`; then the functors.
  unfoldable pub round :
      (EventLoop F → EventLoop F) → (F → EventLoop F → EventLoop F) → EventLoop F → EventLoop F
  unfolding do_pending_functors
  round handle run l = do_pending_functors run (handle l)

  -- `while (!quit_)`, on fuel.
  unfoldable pub loop_from :
      ℕ
      → (EventLoop F → EventLoop F)
      → (F → EventLoop F → EventLoop F)
      → EventLoop F
      → Outcome (EventLoop F)
  unfolding round
  loop_from zero handle run l = running
  loop_from (suc fuel) handle run l = elim l.quit [
    | true ↦ returned (record l { looping = false })
    | false ↦ loop_from fuel handle run (round handle run l)
  ]

  abbrev pub entered : EventLoop F → EventLoop F
  entered l = record l { looping = true; quit = false }

  unfoldable pub loop :
      ℕ
      → (EventLoop F → EventLoop F)
      → (F → EventLoop F → EventLoop F)
      → EventLoop F
      → Outcome (EventLoop F)
  unfolding loop_from
  loop fuel handle run l = loop_from fuel handle run (entered l)
