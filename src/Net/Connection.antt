-- ===== src/Net/Connection.antt =====
-- mymuduo/net/TcpConnection.h and TcpConnection.cpp: one connection in its event loop.
-- `wire` collects the bytes that the kernel has taken from `write`, `half_closed` says that
-- `shutdown(SHUT_WR)` has been called, `notes` lists the callbacks called or put in the loop's
-- queue, and `pending` the member functions bound there. `write` and `readv` are the kernel's.
-- `send` binds the address of the bytes: that they outlive the call is taken for granted here.
pub mod Parts
pub mod Send
pub mod Delivery
pub mod Disconnected
pub mod Input
pub mod Closing
pub mod Late
pub mod Setters
use simple_http_server.Common.{
  ℕ, ◌+◌, ◌-◌, ◌*◌, Bool, true, false, not, ◌&&◌, ◌||◌, List, [], ◌∷◌, ◌++◌, Option, none, some,
  ltb, leb, ◌==◌, if◌then◌else◌, length, take, drop,
}
use simple_http_server.Common.Bytes.{Bytes}
use simple_http_server.Net.Buffer.{
  Buffer, ReadResult, got, read_error, WriteResult, wrote, write_error, init, initial_size,
  readable_bytes, retrieve, append, read_fd, write_fd, sub_size, add_size,
}
use simple_http_server.Net.Channel.{Channel, new_channel, is_writing, tie}
use simple_http_server.Net.Poller.{
  EPollPoller, Watched, enable_reading, enable_writing, disable_writing, disable_all, remove,
}

pub data State : Type 0 where
  disconnected connecting connected disconnecting : State

-- What the user or the server is told.
pub data Note : Type 0 where
  connection_changed write_complete closed : Note
  high_water_mark : ℕ → Note

-- What `runInLoop` queues when it is called from another thread.
pub data Task : Type 0 where
  send_in_loop_task : Bytes → Task
  shutdown_in_loop_task : Task

pub record TcpConnection : Type 0 where
  pub state : State
  pub watch : Watched
  pub high_water : ℕ
  pub has_write_complete_callback : Bool
  pub has_high_water_mark_callback : Bool
  pub input : Buffer
  pub output : Buffer
  pub wire : Bytes
  pub half_closed : Bool
  pub notes : List Note
  pub pending : List Task

-- The constructor, which sets the four callbacks of the channel.
unfoldable pub new_connection : ℕ → ℕ → EPollPoller → TcpConnection
unfolding new_channel init
new_connection address fd poller = record {
  state = connecting;
  watch = record {
    channel = record (new_channel address fd) {
      has_read_callback = true;
      has_write_callback = true;
      has_close_callback = true;
      has_error_callback = true;
    };
    poller = poller;
  };
  high_water = 64 * 1024 * 1024;
  has_write_complete_callback = false;
  has_high_water_mark_callback = false;
  input = init initial_size;
  output = init initial_size;
  wire = [];
  half_closed = false;
  notes = [];
  pending = [];
}

abbrev pub is_connected : State → Bool
is_connected connected = true
is_connected _ = false

abbrev pub is_disconnecting : State → Bool
is_disconnecting disconnecting = true
is_disconnecting _ = false

abbrev pub note_if : Bool → Note → List Note
note_if condition note = if condition then note ∷ [] else []

abbrev pub epipe : ℕ
epipe = 32

abbrev pub econnreset : ℕ
econnreset = 104

-- The first part of `sendInLoop`: whether it writes at once, what comes back from that.
pub record Attempt : Type 0 where
  pub nwrote : ℕ
  pub fault_error : Bool
  pub complete : Bool

unfoldable pub attempt_of : ℕ → WriteResult → Attempt
attempt_of len (wrote n) = record {
  nwrote = n;
  fault_error = false;
  complete = sub_size len n == 0;
}
attempt_of len (write_error e) = record {
  nwrote = 0;
  fault_error = (e == epipe) || (e == econnreset);
  complete = false;
}

abbrev pub no_attempt : Attempt
no_attempt = record { nwrote = 0; fault_error = false; complete = false }

abbrev pub writes_at_once : TcpConnection → Bool
writes_at_once c = not (is_writing c.watch.channel) && (readable_bytes c.output == 0)

-- The second part: what is left over goes into the output buffer, and the channel waits until it
-- can be written.
unfoldable pub buffer_rest : Bytes → TcpConnection → TcpConnection
buffer_rest rest c =
    let old = readable_bytes c.output in
    let crossed =
      leb c.high_water (add_size old (length rest))
      && ltb old c.high_water
      && c.has_high_water_mark_callback in
    record c {
      notes = c.notes ++ note_if crossed (high_water_mark (add_size old (length rest)));
      output = append rest c.output;
      watch = if is_writing c.watch.channel then c.watch else enable_writing c.watch;
    }

unfoldable pub attempted : Bytes → Attempt → TcpConnection → TcpConnection
attempted bytes a c = record c {
  wire = c.wire ++ take a.nwrote bytes;
  notes = c.notes ++ note_if (a.complete && c.has_write_complete_callback) write_complete;
}

unfoldable pub finish_send : Bytes → Attempt → TcpConnection → TcpConnection
unfolding buffer_rest attempted
finish_send bytes a c =
    let d = attempted bytes a c in
    if not a.fault_error && ltb 0 (sub_size (length bytes) a.nwrote)
    then buffer_rest (drop a.nwrote bytes) d
    else d

-- In the state `disconnected` the code logs that it gives up writing, and goes on.
unfoldable pub send_in_loop : (Bytes → WriteResult) → Bytes → TcpConnection → TcpConnection
unfolding finish_send attempt_of
send_in_loop write bytes c =
    let a = if writes_at_once c then attempt_of (length bytes) (write bytes) else no_attempt in
    finish_send bytes a c

unfoldable pub shutdown_in_loop : TcpConnection → TcpConnection
shutdown_in_loop c = if is_writing c.watch.channel then c else record c { half_closed = true }

unfoldable pub run_task : (Bytes → WriteResult) → Task → TcpConnection → TcpConnection
unfolding send_in_loop shutdown_in_loop
run_task write (send_in_loop_task bytes) c = send_in_loop write bytes c
run_task write shutdown_in_loop_task c = shutdown_in_loop c

-- `EventLoop::runInLoop`: at once in the loop's thread, else behind the functors that wait.
unfoldable pub run_in_loop : (Bytes → WriteResult) → Bool → Task → TcpConnection → TcpConnection
unfolding run_task
run_in_loop write in_loop task c =
    if in_loop then run_task write task c else record c { pending = c.pending ++ task ∷ [] }

unfoldable pub send : (Bytes → WriteResult) → Bool → Bytes → TcpConnection → TcpConnection
unfolding run_in_loop
send write in_loop bytes c =
    if is_connected c.state then run_in_loop write in_loop (send_in_loop_task bytes) c else c

unfoldable pub shutdown : (Bytes → WriteResult) → Bool → TcpConnection → TcpConnection
unfolding run_in_loop
shutdown write in_loop c =
    if is_connected c.state
    then run_in_loop write in_loop shutdown_in_loop_task (record c { state = disconnecting })
    else c

unfoldable pub connect_established : TcpConnection → TcpConnection
unfolding tie
connect_established c = record c {
  state = connected;
  watch = enable_reading (record (c.watch) { channel = tie c.watch.channel });
  notes = c.notes ++ connection_changed ∷ [];
}

unfoldable pub connect_destroyed : TcpConnection → TcpConnection
connect_destroyed c =
    let d =
      if is_connected c.state
      then record c {
        state = disconnected;
        watch = disable_all c.watch;
        notes = c.notes ++ connection_changed ∷ [];
      }
      else c in
    record d { watch = remove d.watch }

unfoldable pub handle_close : TcpConnection → TcpConnection
handle_close c = record c {
  state = disconnected;
  watch = disable_all c.watch;
  notes = c.notes ++ connection_changed ∷ closed ∷ [];
}

-- `message` is the user's callback, which works on the connection and its input. On an error
-- `handleError` reads the socket's error and logs it.
unfoldable pub handle_read :
    (TcpConnection → TcpConnection) → (ℕ → ReadResult) → TcpConnection → TcpConnection
unfolding handle_close
handle_read message readv c =
    let (r, saved, input) = read_fd readv c.input in
    elim r [
      | read_error e ↦ c
      | got bytes ↦
          if length bytes == 0
          then handle_close (record c { input = input })
          else message (record c { input = input })
    ]

-- The channel waits for writing no more, and the user is told.
abbrev pub all_written : TcpConnection → TcpConnection
all_written c = record c {
  watch = disable_writing c.watch;
  notes = c.notes ++ note_if c.has_write_complete_callback write_complete;
}

unfoldable pub drained : TcpConnection → TcpConnection
unfolding shutdown_in_loop
drained c = if is_disconnecting c.state then shutdown_in_loop (all_written c) else all_written c

-- The kernel has taken `n` of the bytes that it was handed, the readable ones.
abbrev pub taken_off : ℕ → TcpConnection → TcpConnection
taken_off n c = record c {
  wire =
      c.wire
      ++ take n (take (readable_bytes c.output) (drop c.output.reader_index c.output.buffer));
  output = retrieve n c.output;
}

unfoldable pub wrote_some : ℕ → TcpConnection → TcpConnection
unfolding drained
wrote_some n c =
    if readable_bytes (taken_off n c).output == 0 then drained (taken_off n c) else taken_off n c

unfoldable pub handle_write : (Bytes → WriteResult) → TcpConnection → TcpConnection
unfolding wrote_some
handle_write write c =
    if is_writing c.watch.channel
    then (elim (write_fd write c.output).0 [
      | write_error e ↦ c
      | wrote n ↦ if ltb 0 n then wrote_some n c else c
    ])
    else c
