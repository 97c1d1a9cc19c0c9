-- ===== src/Net/EventLoop/Threads.antt =====
-- The threads at a loop: its own, in the phases of `loop`, and the others.
-- A call of `queueInLoop` or `quit` is one step for each of its sections, so that the other threads
-- may come between them.
use simple_http_server.Common.{
  ℕ, zero, suc, ◌+◌, ◌<◌, ◌≡◌, ◌≢◌, Bool, true, false, List, [], ◌∷◌, ◌++◌, Option, none, some,
  get_elem?,
}
use simple_http_server.Net.EventLoop.{
  EventLoop, Call, queueing, Section, pushes, notifies, wakes, sections, perform, handle_read,
  swapped,
}

-- Where the loop's thread is: in `poll`, in the callbacks of its channels, in
-- `doPendingFunctors` with these functors still to run, in front of the test of `quit_`, or behind
-- the loop.
pub data Phase {ℓ} (F : Type ℓ) : Type ℓ where
  polling handling testing ended : Phase F
  calling : List F → Phase F

abbrev pub to_run {ℓ} : {F : Type ℓ} → Phase F → List F
to_run (calling fs) = fs
to_run _ = []

abbrev pub is_calling {ℓ} : {F : Type ℓ} → Phase F → Bool
is_calling (calling fs) = true
is_calling _ = false

-- The code of the user runs in the loop's thread in these phases only.
abbrev pub runs_callbacks {ℓ} : {F : Type ℓ} → Phase F → Bool
runs_callbacks handling = true
runs_callbacks (calling fs) = true
runs_callbacks _ = false

-- A thread within a call, with the number of sections that it has behind it.
abbrev pub Thread {ℓ} : Type ℓ → Type ℓ
Thread F = Call F × ℕ

abbrev pub next_section {ℓ} : {F : Type ℓ} → Thread F → Option (Section F)
next_section (c, n) = get_elem? (sections c) n

abbrev pub advanced {ℓ} : {F : Type ℓ} → Thread F → Thread F
advanced (c, n) = (c, suc n)

-- `others` are the threads that have begun a call, and `own` is the call in which the loop's thread
-- is itself. `queued` and `executed` are the functors put into the queue and those run, in order.
pub record World {ℓ} (F : Type ℓ) : Type ℓ where
  pub loop : EventLoop F
  pub phase : Phase F
  pub others : List (Thread F)
  pub own : Option (Thread F)
  pub queued : List F
  pub executed : List F

abbrev pub initial {ℓ} : {F : Type ℓ} → World F
initial = record {
  loop = record {
    looping = true;
    quit = false;
    calling_pending_functors = false;
    pending_functors = [];
    wakeups = 0;
  };
  phase = polling;
  others = [];
  own = none;
  queued = [];
  executed = [];
}

abbrev pub noted {ℓ} : {F : Type ℓ} → Section F → List F → List F
noted (pushes f) fs = fs ++ f ∷ []
noted _ fs = fs

-- The next section of a call is performed; behind the last one nothing is left to do.
abbrev pub performed {ℓ} : {F : Type ℓ} → Bool → Option (Section F) → World F → World F
performed in_loop_thread none w = w
performed in_loop_thread (some s) w = record w {
  loop = perform in_loop_thread s w.loop;
  queued = noted s w.queued;
}

-- A step of some thread.
pub data Step {ℓ} {F : Type ℓ} (w : World F) : World F → Type ℓ where
  other_begins : (c : Call F) → Step w (record w { others = (c, 0) ∷ w.others })
  other_performs :
      (before after : List (Thread F)) (t : Thread F)
      → w.others ≡ before ++ t ∷ after
      → Step w
          (record (performed false (next_section t) w) { others = before ++ advanced t ∷ after })
  own_begins :
      (c : Call F)
      → w.own ≡ none
      → runs_callbacks w.phase ≡ true
      → Step w (record w { own = some (c, 0) })
  own_performs :
      (t : Thread F)
      → w.own ≡ some t
      → Step w (record (performed true (next_section t) w) { own = some (advanced t) })
  own_returns :
      (t : Thread F) → w.own ≡ some t → next_section t ≡ none → Step w (record w { own = none })
  poll_returns : w.phase ≡ polling → Step w (record w { phase = handling })
  reads_eventfd :
      w.phase ≡ handling → w.own ≡ none → Step w (record w { loop = handle_read w.loop })
  swaps :
      w.phase ≡ handling
      → w.own ≡ none
      → Step w (record w { loop = swapped w.loop; phase = calling w.loop.pending_functors })
  runs :
      (f : F) (fs : List F)
      → w.phase ≡ calling (f ∷ fs)
      → w.own ≡ none
      → Step w (record w { phase = calling fs; executed = w.executed ++ f ∷ [] })
  has_called :
      w.phase ≡ calling []
      → w.own ≡ none
      → Step w (record w {
        loop = record (w.loop) { calling_pending_functors = false };
        phase = testing;
      })
  polls_again : w.phase ≡ testing → w.loop.quit ≡ false → Step w (record w { phase = polling })
  stops :
      w.phase ≡ testing
      → w.loop.quit ≡ true
      → Step w (record w { loop = record (w.loop) { looping = false }; phase = ended })

pub data Reach {ℓ} {F : Type ℓ} (w : World F) : World F → Type ℓ where
  here : Reach w w
  next : {u v : World F} → Reach w u → Step u v → Reach w v

-- How many of these threads have the eventfd to write to next.
abbrev pub writes {ℓ} : {F : Type ℓ} → Option (Section F) → ℕ
writes (some notifies) = 1
writes (some wakes) = 1
writes _ = 0

abbrev pub writing {ℓ} : {F : Type ℓ} → List (Thread F) → ℕ
writing [] = 0
writing (t ∷ ts) = writes (next_section t) + writing ts

abbrev pub own_notifies {ℓ} : {F : Type ℓ} → Option (Thread F) → ℕ
own_notifies (some (queueing f, suc zero)) = 1
own_notifies _ = 0

pub record IsSound {ℓ} {F : Type ℓ} (w : World F) : Type ℓ where
  pub flag : w.loop.calling_pending_functors ≡ is_calling w.phase
  pub in_order : w.executed ++ (to_run w.phase ++ w.loop.pending_functors) ≡ w.queued
  pub own_place : (t : Thread F) → w.own ≡ some t → runs_callbacks w.phase ≡ true
  pub over : w.phase ≡ ended → w.loop.quit ≡ true
  pub woken :
      w.phase ≢ handling
      → w.loop.pending_functors ≢ []
      → 0 < w.loop.wakeups + writing w.others + own_notifies w.own
  pub told : w.phase ≡ polling → w.loop.quit ≡ true → 0 < w.loop.wakeups + writing w.others
