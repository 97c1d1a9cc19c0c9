-- ===== src/Net/Tests.antt =====
-- The network library's theorems at concrete inputs, and runs of its functions.
use simple_http_server.Common.{
  ◌+◌, ℕ, ◌<◌, ◌≡◌, ◌≢◌, refl, arith, true, false, [], ◌∷◌, ◌++◌, some, length, take, length-take,
  ap, min,
}
use simple_http_server.Common.Bytes.{Bytes, codes}
use simple_http_server.Net.Buffer.{
  Buffer, init, append, ReadResult, got, read_error, WriteResult, wrote, write_error, offered,
  read_fd, retrieve, readable_bytes, write_fd, ensure_writable_bytes, writable_bytes, copy_to,
}
use simple_http_server.Net.Buffer.View.{IsValid, contents}
use simple_http_server.Net.Buffer.Laws.{Holds, append-Holds}
use simple_http_server.Net.Buffer.Io.{Bounded, Received, read_fd-Received}
use simple_http_server.Net.LoopThreadPool.{EventLoopThreadPool}
use simple_http_server.Net.Channel.{new_channel, is_writing}
use simple_http_server.Net.Poller.{
  Watched, new_poller, with_events, find, enable_reading, enable_writing, disable_writing,
}
use simple_http_server.Net.Poller.Protocol.{IsConsistent, sets, Acts-IsConsistent}
use simple_http_server.Net.Poller.Protocol.{then_, start as start_acts}
use simple_http_server.Net.Connection.{
  TcpConnection, disconnected, new_connection, connect_established, send, send_in_loop, shutdown,
  handle_write,
}
use simple_http_server.Net.Connection.Send.{IsOpen}
use simple_http_server.Net.Connection.Delivery.{Run, opened, sends, writable, shuts, Run-delivers}
use simple_http_server.Net.Connection.Disconnected.{connect_established-IsSound, send_in_loop-state}
use simple_http_server.Net.EventLoop.{queueing, perform}
use simple_http_server.Net.EventLoop.Threads.{
  World, initial, polling, to_run, writing, here, next, other_begins, other_performs,
}
use simple_http_server.Net.EventLoop.Queue.{Reach-delivers}
use simple_http_server.Net.TimerQueue.{
  Timer, TimerQueue, new_queue, add_timer_in_loop, cancel_in_loop, handle_read,
}
use simple_http_server.Net.TimerQueue.Alarm.{
  cancels, returns, fresh, adding, firing, IsArmed, Run-IsArmed,
}

abbrev small : Buffer
small = record {
  buffer = 0 ∷ 0 ∷ 0 ∷ 0 ∷ 0 ∷ 0 ∷ 0 ∷ 0 ∷ b'a' ∷ b'b' ∷ b'c' ∷ 0 ∷ [];
  reader_index = 8;
  writer_index = 11;
}

small-IsValid : IsValid small
small-IsValid = omega arith

-- One free byte: the storage grows.
append-Holds_example : Holds (codes "abcdef") (append (codes "def") small)
append-Holds_example = append-Holds (codes "def") small small-IsValid (omega arith)

-- A kernel that has the bytes `xyz` to give.
abbrev gives : ℕ → ReadResult
gives n = got (take n (codes "xyz"))

abbrev moved : ReadResult → Bytes
moved (got bytes) = bytes
moved (read_error e) = []

gives-Bounded : Bounded gives
gives-Bounded n bytes e = omega (arith, ap length (ap moved e), length-take n (codes "xyz"))

read_fd-Received_example : Received small (gives (offered small)) (read_fd gives small)
read_fd-Received_example =
    read_fd-Received gives small gives-Bounded small-IsValid (unfold offered in omega arith)

-- A kernel that takes two bytes at a time.
abbrev takes_two : Bytes → WriteResult
takes_two bytes = wrote (min 2 (length bytes))

takes_two-IsOpen : IsOpen takes_two
takes_two-IsOpen = record {
  bounded = λ bytes n e. omega (arith, ap counted e);
  no_reset = λ bytes e h. cc;
}
  where
    counted : WriteResult → ℕ
    counted (wrote n) = n
    counted (write_error e) = 0

abbrev established : TcpConnection
established = connect_established (new_connection 1 5 new_poller)

abbrev hello_sent : TcpConnection
hello_sent = send takes_two true (codes "hello") established

abbrev shut_down : TcpConnection
shut_down = handle_write takes_two (shutdown takes_two true hello_sent)

sent_and_shut : Run established (codes "hello") shut_down
unfolding connect_established new_connection init
sent_and_shut =
    writable takes_two
      (shuts takes_two (sends takes_two (codes "hello") takes_two-IsOpen refl (omega arith) opened))

Run-delivers_example :
    (shut_down.wire ++ contents shut_down.output ≡ codes "hello")
    × (contents shut_down.output ≢ [] → is_writing shut_down.watch.channel ≡ true)
    × (shut_down.half_closed ≡ true → shut_down.wire ≡ codes "hello")
Run-delivers_example = Run-delivers (connect_established-IsSound 1 5 new_poller).0 sent_and_shut

-- The half is closed by the third write.
drained_in_turn :
    let c = handle_write takes_two shut_down in (c.half_closed ≡ true) × (c.wire ≡ codes "hello")
unfolding send shutdown handle_write connect_established new_connection init is_writing
    enable_reading readable_bytes enable_writing write_fd append ensure_writable_bytes
    writable_bytes copy_to retrieve disable_writing
drained_in_turn = (refl, refl)

send_in_loop-state_example :
    send_in_loop takes_two (codes "late") (record established { state = disconnected })
    ≡ record (send_in_loop takes_two (codes "late") established) { state = disconnected }
send_in_loop-state_example = send_in_loop-state takes_two (codes "late") established disconnected

abbrev three_loops : EventLoopThreadPool
three_loops = record {
  base_loop = 9;
  started = true;
  num_threads = 3;
  next = 2;
  loops = 10 ∷ 11 ∷ 12 ∷ [];
}

abbrev fresh_watch : Watched
fresh_watch = record { channel = new_channel 1 5; poller = new_poller }

fresh_watch-IsConsistent : IsConsistent fresh_watch.channel fresh_watch.poller
unfolding new_channel new_poller
fresh_watch-IsConsistent = record { accepted = tt; watched = refl; entry = unfold find in refl }

abbrev re_enabled : Watched
re_enabled = with_events 4 (with_events 0 (with_events 3 fresh_watch))

Acts-IsConsistent_example : IsConsistent re_enabled.channel re_enabled.poller
Acts-IsConsistent_example =
    Acts-IsConsistent fresh_watch re_enabled fresh_watch-IsConsistent
      (then_ (then_ (then_ start_acts (sets 3)) (sets 0)) (sets 4))

-- Two threads queue a functor each: 7 is in the queue, and its thread has yet to wake the loop; 8
-- is about to be pushed.
abbrev two_threads : World ℕ
two_threads = record (initial {F = ℕ}) {
  loop = record ((initial {F = ℕ}).loop) { pending_functors = 7 ∷ [] };
  others = (queueing 8, 0) ∷ (queueing 7, 1) ∷ [];
  queued = 7 ∷ [];
}

Reach-delivers_example :
    (two_threads.executed ++ (to_run two_threads.phase ++ two_threads.loop.pending_functors)
      ≡ two_threads.queued)
    × (two_threads.phase ≡ polling
        → two_threads.loop.pending_functors ≢ []
        → 0 < two_threads.loop.wakeups + writing two_threads.others)
    × (two_threads.phase ≡ polling
        → two_threads.loop.quit ≡ true
        → 0 < two_threads.loop.wakeups + writing two_threads.others)
unfolding perform
Reach-delivers_example = Reach-delivers {v = two_threads} (
    next (next (next here (other_begins (queueing 7))) (other_performs [] [] (queueing 7, 0) refl))
      (other_begins (queueing 8)))

abbrev once : Timer
once = record { address = 64; sequence = 1; expiration = 10; interval = 0; repeat = false }

abbrev every_five : Timer
every_five = record { address = 128; sequence = 2; expiration = 7; interval = 5; repeat = true }

abbrev two_timers : TimerQueue
two_timers = add_timer_in_loop every_five (add_timer_in_loop once new_queue)

-- The callback of the repeated timer cancels the other one.
abbrev cancels_once : Timer → TimerQueue → TimerQueue
cancels_once t q = cancel_in_loop (64, 1) q

Run-IsArmed_example : IsArmed (handle_read cancels_once 8 two_timers)
Run-IsArmed_example = Run-IsArmed (
    firing cancels_once 8 (adding every_five (adding once fresh (omega arith)) (omega arith))
      (omega arith) (λ t u. cancels (64, 1) returns))

abbrev sorted : TimerQueue
sorted = record new_queue { timers = every_five ∷ once ∷ [] }

-- It is set to go off at 13, and the timer that was cancelled is gone.
repeated_alone :
    let q = handle_read cancels_once 8 two_timers in
    (q.alarm ≡ some 13) × (q.timers ≡ record every_five { expiration = 13 } ∷ [])
unfolding handle_read add_timer_in_loop cancel_in_loop
repeated_alone = (refl, refl)
