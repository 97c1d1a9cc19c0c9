-- ===== src/Net/Connection/Delivery.antt =====
-- An open connection delivers what is sent, in order, and closes its half behind the last byte.
use simple_http_server.Common.{
  ℕ, ◌-◌, ◌≡◌, ◌≢◌, inl, inr, refl, sym, ◌∙◌, arith, Bool, true, false, [], ◌++◌, ltb, ◌==◌,
  Bool-cases, length, drop, append-nil, append_assoc, take-append-drop, drop_of_length-le,
}
use simple_http_server.Common.Bytes.{Bytes}
use simple_http_server.Net.Buffer.{WriteResult, wrote, write_error, readable_bytes, write_fd}
use simple_http_server.Net.Buffer.View.{contents, readable_bytes_lem, length-contents}
use simple_http_server.Net.Buffer.Laws.{Fits, retrieve-Holds}
use simple_http_server.Net.Channel.{is_writing}
use simple_http_server.Net.Poller.Watching.{disable_writing-Waits}
use simple_http_server.Net.Connection.{
  TcpConnection, disconnecting, send, shutdown, shutdown_in_loop, handle_write, wrote_some, drained,
  all_written, taken_off, is_connected, is_disconnecting,
}
use simple_http_server.Net.Connection.Parts.{IsSound, length-zero}
use simple_http_server.Net.Connection.Send.{true-ne-false, IsOpen, send_in_loop-IsSound}

shutdown_in_loop-IsSound :
    (sent : Bytes) (c : TcpConnection)
    → is_connected c.state ≡ false
    → IsSound sent c
    → IsSound sent (shutdown_in_loop c)
unfolding shutdown_in_loop
shutdown_in_loop-IsSound sent c shut s = elim (Bool-cases (is_writing c.watch.channel)) [
  | inl e ↦ rw e s
  | inr e ↦ rw e (record {
    valid = s.valid;
    mask = s.mask;
    in_order = s.in_order;
    awaited = s.awaited;
    last = λ _. (s.awaited e, shut);
  })
]

all_written-IsSound :
    (sent : Bytes) (c : TcpConnection)
    → contents c.output ≡ []
    → IsSound sent c
    → IsSound sent (all_written c)
all_written-IsSound sent c empty s =
    let off = disable_writing-Waits (record { mask = s.mask; reads = refl; writes = refl }) in
    record {
      valid = s.valid;
      mask = off.mask;
      in_order = s.in_order;
      awaited = λ _. empty;
      last = s.last;
    }

drained-IsSound :
    (sent : Bytes) (c : TcpConnection)
    → contents c.output ≡ []
    → IsSound sent c
    → IsSound sent (drained c)
unfolding drained
drained-IsSound sent c empty s = elim (Bool-cases (is_disconnecting c.state)) [
  | inl e ↦ rw e (
      shutdown_in_loop-IsSound sent (all_written c) (ground arith)
        (all_written-IsSound sent c empty s))
  | inr e ↦ rw e (all_written-IsSound sent c empty s)
]

taken_off-IsSound :
    (n : ℕ) (sent : Bytes) (c : TcpConnection)
    → is_writing c.watch.channel ≡ true
    → IsSound sent c
    → IsSound sent (taken_off n c)
taken_off-IsSound n sent c on s =
    let r = retrieve-Holds n c.output s.valid in
    let all : readable_bytes c.output ≡ c.output.writer_index - c.output.reader_index =
      readable_bytes_lem s.valid ∙ length-contents s.valid in
    record {
      valid = r.valid;
      mask = s.mask;
      in_order =
          rw (all, r.holds, append_assoc c.wire, take-append-drop n (contents c.output))
            (s.in_order);
      awaited = λ e. absurd (true-ne-false (sym on ∙ e));
      last = λ e.
          let none_left : drop n (contents c.output) ≡ [] =
            rw (s.last e).0 (drop_of_length-le n [] (omega arith)) in
          (r.holds ∙ none_left, (s.last e).1);
    }

wrote_some-IsSound :
    (n : ℕ) (sent : Bytes) (c : TcpConnection)
    → is_writing c.watch.channel ≡ true
    → IsSound sent c
    → IsSound sent (wrote_some n c)
unfolding wrote_some
wrote_some-IsSound n sent c on s =
    let t = taken_off-IsSound n sent c on s in
    elim (Bool-cases (readable_bytes (taken_off n c).output == 0)) [
      | inl e ↦ rw e (
          drained-IsSound sent (taken_off n c)
            (length-zero (contents (taken_off n c).output)
              (ground (arith, readable_bytes_lem t.valid)))
            t)
      | inr e ↦ rw e t
    ]

-- The bytes that the kernel takes are those at the front, however many it says.
written :
    (write : Bytes → WriteResult) (sent : Bytes) (c : TcpConnection) (r : WriteResult)
    → (write_fd write c.output).0 ≡ r
    → is_writing c.watch.channel ≡ true
    → IsSound sent c
    → IsSound sent (handle_write write c)
unfolding handle_write
written write sent c (write_error n) e on s = rw (on, e, handle_write) s
written write sent c (wrote n) e on s = elim (Bool-cases (ltb 0 n)) [
  | inl more ↦ rw (on, e, handle_write, more) (wrote_some-IsSound n sent c on s)
  | inr nothing ↦ rw (on, e, handle_write, nothing) s
]

handle_write-IsSound :
    (write : Bytes → WriteResult) (sent : Bytes) (c : TcpConnection)
    → IsSound sent c
    → IsSound sent (handle_write write c)
handle_write-IsSound write sent c s = elim (Bool-cases (is_writing c.watch.channel)) [
  | inl e ↦ written write sent c (write_fd write c.output).0 refl e s
  | inr e ↦ unfold handle_write in rw e s
]

-- What happens to an open connection in its own thread: the user sends, the kernel can take more,
-- the user shuts down. The index is what `send` has been handed while the connection was open.
pub data Run (start : TcpConnection) : Bytes → TcpConnection → Type 0 where
  opened : Run start [] start
  sends :
      {sent : Bytes} {c : TcpConnection}
      → (write : Bytes → WriteResult) → (bytes : Bytes) → IsOpen write
      → is_connected c.state ≡ true
      → Fits (length bytes) c.output
      → Run start sent c
      → Run start (sent ++ bytes) (send write true bytes c)
  sends_late :
      {sent : Bytes} {c : TcpConnection}
      → (write : Bytes → WriteResult) → (bytes : Bytes) → is_connected c.state ≡ false
      → Run start sent c
      → Run start sent (send write true bytes c)
  writable :
      {sent : Bytes} {c : TcpConnection}
      → (write : Bytes → WriteResult) → Run start sent c
      → Run start sent (handle_write write c)
  shuts :
      {sent : Bytes} {c : TcpConnection}
      → (write : Bytes → WriteResult) → Run start sent c
      → Run start sent (shutdown write true c)

pub shutdown-IsSound :
    (write : Bytes → WriteResult) (sent : Bytes) (c : TcpConnection)
    → IsSound sent c
    → IsSound sent (shutdown write true c)
unfolding shutdown
shutdown-IsSound write sent c s = elim (Bool-cases (is_connected c.state)) [
  | inl e ↦ rw e (
      shutdown_in_loop-IsSound sent (record c { state = disconnecting }) refl
        (record {
          valid = s.valid;
          mask = s.mask;
          in_order = s.in_order;
          awaited = s.awaited;
          last = λ h. ((s.last h).0, refl);
        }))
  | inr e ↦ rw e s
]

pub Run-IsSound :
    {start : TcpConnection} {sent : Bytes} {c : TcpConnection}
    → IsSound [] start
    → Run start sent c
    → IsSound sent c
unfolding send
Run-IsSound s opened = s
Run-IsSound s (sends {sent = sent} {c = c} write bytes o live h r) =
    rw live (send_in_loop-IsSound write bytes sent c o live h (Run-IsSound s r))
Run-IsSound s (sends_late {sent = sent} {c = c} write bytes shut r) = rw shut (Run-IsSound s r)
Run-IsSound s (writable {sent = sent} {c = c} write r) =
    handle_write-IsSound write sent c (Run-IsSound s r)
Run-IsSound s (shuts {sent = sent} {c = c} write r) =
    shutdown-IsSound write sent c (Run-IsSound s r)

-- A connection that starts sound with nothing sent, and any sequence of sends, writable events and
-- shutdowns in its loop's thread, where `write` takes at most what it is handed and the peer does
-- not go away in a send, and where the address space suffices. The bytes that the kernel has taken
-- followed by those in the output buffer are exactly those handed to `send` while it was open, in
-- order; while some wait, the channel waits for writing; and once the connection is half closed the
-- kernel has taken all of them.
pub Run-delivers :
    {start : TcpConnection} {sent : Bytes} {c : TcpConnection}
    → IsSound [] start
    → Run start sent c
    → (c.wire ++ contents c.output ≡ sent)
      × (contents c.output ≢ [] → is_writing c.watch.channel ≡ true)
      × (c.half_closed ≡ true → c.wire ≡ sent)
Run-delivers {c = c} s r =
    let t = Run-IsSound s r in
    (
      t.in_order,
      λ waits. writing_on_waits (is_writing c.watch.channel) refl t.awaited waits,
      λ e. sym (append-nil c.wire) ∙ rw (t.last e).0 at t.in_order,
    )
  where
    writing_on_waits :
        (b : Bool)
        → is_writing c.watch.channel ≡ b
        → (is_writing c.watch.channel ≡ false → contents c.output ≡ [])
        → contents c.output ≢ []
        → b ≡ true
    writing_on_waits true e h waits = refl
    writing_on_waits false e h waits = absurd (waits (h e))
