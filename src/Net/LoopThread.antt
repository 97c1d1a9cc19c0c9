-- ===== src/Net/LoopThread.antt =====
-- mymuduo/net/EventLoopThread.cpp: a thread that makes a loop, hands it to the thread that has
-- started it, and runs it. The two threads take their steps in any order.
pub mod Handover
pub mod Overtaken
use simple_http_server.Common.{◌≡◌, Bool, true, false, if◌then◌else◌}
use simple_http_server.Net.EventLoop.{EventLoop, new_loop, entered, quit_loop}

-- Where the new thread is in `threadFunc`: it has been started, has made its loop and called the
-- callback, has published the loop, is in the `while` of `loop`, is out of it, or has ended.
pub data ThreadPhase : Type 0 where
  absent spawned made published looping left ended : ThreadPhase

-- Where the owner is: it has not called `startLoop`, waits in it, is out of it, is in the destructor
-- in front of `quit` or of `join`, is through it, or went through a null pointer there.
pub data OwnerPhase : Type 0 where
  fresh waiting running quitting joining destroyed crashed : OwnerPhase

-- `own` is the loop of the thread; `has_loop` says that `loop_` points to it and is not null.
pub record LoopThread {ℓ} (F : Type ℓ) : Type ℓ where
  pub owner : OwnerPhase
  pub thread : ThreadPhase
  pub own : EventLoop F
  pub has_loop : Bool
  pub exiting : Bool
  pub joined : Bool

abbrev pub new_loop_thread {ℓ} : {F : Type ℓ} → LoopThread F
new_loop_thread = record {
  owner = fresh;
  thread = absent;
  own = new_loop;
  has_loop = false;
  exiting = false;
  joined = false;
}

module _ {ℓ} {F : Type ℓ} where
  -- `startLoop`: the thread is started; then the owner waits until `loop_` is set.
  unfoldable pub start_thread : LoopThread F → LoopThread F
  start_thread t = record t { owner = waiting; thread = spawned }

  unfoldable pub wait_for_loop : LoopThread F → LoopThread F
  wait_for_loop t = if t.has_loop then record t { owner = running } else t

  -- `threadFunc`; the callback may do what it likes with the loop but run it.
  unfoldable pub make_loop : (EventLoop F → EventLoop F) → LoopThread F → LoopThread F
  make_loop callback t = record t { own = callback new_loop; thread = made }

  unfoldable pub publish_loop : LoopThread F → LoopThread F
  publish_loop t = record t { has_loop = true; thread = published }

  unfoldable pub enter_loop : LoopThread F → LoopThread F
  enter_loop t = record t { own = entered t.own; thread = looping }

  -- The test of `while (!quit_)`.
  unfoldable pub test_quit : LoopThread F → LoopThread F
  test_quit t =
      if t.own.quit then record t { own = record (t.own) { looping = false }; thread = left } else t

  unfoldable pub clear_loop : LoopThread F → LoopThread F
  clear_loop t = record t { has_loop = false; thread = ended }

  -- The destructor: the test of `loop_`, `loop_->quit()`, and `join`, which blocks until the thread
  -- has ended.
  unfoldable pub test_loop : LoopThread F → LoopThread F
  test_loop t = record t { exiting = true; owner = if t.has_loop then quitting else destroyed }

  unfoldable pub quit_thread : LoopThread F → LoopThread F
  unfolding quit_loop
  quit_thread t =
      if t.has_loop
      then record t { own = quit_loop false t.own; owner = joining }
      else record t { owner = crashed }

  unfoldable pub join_thread : LoopThread F → LoopThread F
  join_thread t = record t { joined = true; owner = destroyed }
