-- ===== src/Net/LoopTests.antt =====
-- The theorems on loops and on the server at concrete inputs.
use simple_http_server.Common.{ℕ, ◌+◌, ◌≡◌, ◌⊎◌, refl, arith, Bool, true, false, [], ◌∷◌}
use simple_http_server.Common.Bytes.{codes}
use simple_http_server.Common.Outcome.{returned}
use simple_http_server.Net.EventLoop.{EventLoop, new_loop, quit_loop, wakeup, round, loop, entered}
use simple_http_server.Net.EventLoop.{queueing, perform}
use simple_http_server.Net.EventLoop.Threads.{
  World, initial, polling, ended, here, next, other_begins, other_performs,
}
use simple_http_server.Net.EventLoop.Alone.{Alone}
use simple_http_server.Net.EventLoop.Progress.{Reach-progress}
use simple_http_server.Net.EventLoop.Rounds.{KeepsQuit, loop_quits, loop-quit_loop}
use simple_http_server.Net.LoopThreadPool.{new_pool, get_next_loop}
use simple_http_server.Net.TcpServer.{
  TcpServer, Connection, connect_established, remove_connection_in_loop, new_server, new_connection,
  conn_name, put,
}
use simple_http_server.Net.TcpServer.Lives.{post}
use simple_http_server.Net.TcpServer.System
use simple_http_server.Net.TcpServer.System.{run_in_loop, run_job}
use simple_http_server.Net.TcpServer.Refinement.{idle}

-- A thread has pushed 7 and not yet written to the eventfd; the loop is still in `poll`.
abbrev pushed_seven : World ℕ
pushed_seven = record (initial {F = ℕ}) {
  loop = record ((initial {F = ℕ}).loop) { pending_functors = 7 ∷ [] };
  others = (queueing 7, 1) ∷ [];
  queued = 7 ∷ [];
}

Reach-progress_example :
    (u : World ℕ) × Alone pushed_seven u
    × (u.queued ≡ 7 ∷ [])
    × (((u.phase ≡ polling) × (u.executed ≡ 7 ∷ []) × (u.loop.pending_functors ≡ []))
        ⊎ ((u.phase ≡ ended) × (u.loop.quit ≡ true)))
unfolding perform
Reach-progress_example =
    Reach-progress {v = pushed_seven}
      (next (next here (other_begins (queueing 7))) (other_performs [] [] (queueing 7, 0) refl))

-- `true` is a functor that calls `quit`, `false` one that does nothing.
abbrev may_quit : Bool → EventLoop Bool → EventLoop Bool
may_quit true l = quit_loop true l
may_quit false l = l

abbrev nothing_ready : EventLoop Bool → EventLoop Bool
nothing_ready l = l

may_quit-KeepsQuit : KeepsQuit nothing_ready may_quit
unfolding quit_loop
may_quit-KeepsQuit = record { handled = λ l e. e; ran = kept }
  where
    kept : (f : Bool) (l : EventLoop Bool) → l.quit ≡ true → (may_quit f l).quit ≡ true
    kept true l e = refl
    kept false l e = e

abbrev to_quit : EventLoop Bool
to_quit = record new_loop { pending_functors = false ∷ true ∷ false ∷ [] }

loop_quits_example :
    loop (0 + 2) nothing_ready may_quit to_quit
    ≡ returned (record (round nothing_ready may_quit (entered to_quit)) { looping = false })
unfolding quit_loop new_loop
loop_quits_example =
    loop_quits nothing_ready may_quit 0 (false ∷ []) (false ∷ []) true to_quit may_quit-KeepsQuit
      (λ m. refl) refl

loop-quit_loop_example :
    loop 4 nothing_ready may_quit (quit_loop false to_quit)
    ≡ loop 4 nothing_ready may_quit (wakeup to_quit)
loop-quit_loop_example = loop-quit_loop nothing_ready may_quit 4 false to_quit

-- A server on the loop 1, with the loops 2 and 3 for its connections.
abbrev served : TcpServer
served = record (new_server 1 (codes "127.0.0.1:80") (codes "web")) {
  thread_pool = record (new_pool 1) { started = true; num_threads = 2; loops = 2 ∷ 3 ∷ [] };
  started = 1;
}

abbrev first_conn : Connection
first_conn = record { id = 1; name = conn_name served 1; fd = 7; io_loop = 2 }

abbrev with_first : TcpServer
with_first = record served {
  thread_pool = record (served.thread_pool) { next = 1 };
  next_conn_id = 2;
  connections = put first_conn.name first_conn [];
}

-- The connection is accepted, established in its loop, and closed there.
abbrev first_accepted : System.World
first_accepted =
    run_in_loop 1 2 (post connect_established first_conn)
      (record (idle served) { server = with_first })

abbrev first_open : System.World
first_open = run_job (post connect_established first_conn) (record first_accepted { posts = [] })

abbrev first_closed : System.World
first_closed =
    run_in_loop 2 1 (post remove_connection_in_loop first_conn) (record first_open { opened = [] })

first_is_accepted : new_connection 7 served ≡ returned (first_conn, with_first)
unfolding new_connection new_server new_pool get_next_loop
first_is_accepted = refl

first_closed-Reach : System.Reach (idle served) first_closed
unfolding new_server new_pool run_in_loop run_job
first_closed-Reach =
    System.next
      (System.next
        (System.next System.here
          (System.accepts 7 first_conn with_first first_is_accepted (omega arith)))
        (System.runs [] [] (post connect_established first_conn) refl))
      (System.closes [] [] first_conn refl)
