-- ===== src/Net/Connection/Input.antt =====
-- What is sent leaves the input buffer alone.
use simple_http_server.Common.{
  ℕ, ◌≡◌, refl, true, not, ◌&&◌, ltb, ◌==◌, length, inl, inr, Bool-cases, if◌then◌else◌,
}
use simple_http_server.Common.Bytes.{Bytes}
use simple_http_server.Net.Buffer.{
  WriteResult, wrote, write_error, sub_size, readable_bytes, write_fd,
}
use simple_http_server.Net.Channel.{is_writing}
use simple_http_server.Net.Connection.{
  TcpConnection, is_connected, is_disconnecting, send, shutdown, send_in_loop, shutdown_in_loop,
  finish_send, buffer_rest, attempted, writes_at_once, attempt_of, no_attempt, handle_write,
  wrote_some, drained, all_written, taken_off,
}

pub send_in_loop-input :
    (write : Bytes → WriteResult) (bytes : Bytes) (c : TcpConnection)
    → (send_in_loop write bytes c).input ≡ c.input
unfolding send_in_loop finish_send buffer_rest attempted
send_in_loop-input write bytes c =
    let a = if writes_at_once c then attempt_of (length bytes) (write bytes) else no_attempt in
    elim (Bool-cases (not a.fault_error && ltb 0 (sub_size (length bytes) a.nwrote))) [
      | inl e ↦ rw e refl
      | inr e ↦ rw e refl
    ]

pub send-input :
    (write : Bytes → WriteResult) (bytes : Bytes) (c : TcpConnection)
    → (send write true bytes c).input ≡ c.input
unfolding send
send-input write bytes c = elim (Bool-cases (is_connected c.state)) [
  | inl e ↦ rw e (send_in_loop-input write bytes c)
  | inr e ↦ rw e refl
]

pub shutdown-input :
    (write : Bytes → WriteResult) (c : TcpConnection) → (shutdown write true c).input ≡ c.input
unfolding shutdown shutdown_in_loop
shutdown-input write c = elim (Bool-cases (is_connected c.state)) [
  | inl e ↦ elim (Bool-cases (is_writing c.watch.channel)) [
    | inl k ↦ rw (e, k) refl
    | inr k ↦ rw (e, k) refl
  ]
  | inr e ↦ rw e refl
]

drained-input : (c : TcpConnection) → (drained c).input ≡ c.input
unfolding drained shutdown_in_loop
drained-input c = elim (Bool-cases (is_disconnecting c.state)) [
  | inl e ↦ elim (Bool-cases (is_writing (all_written c).watch.channel)) [
    | inl k ↦ rw (e, k) refl
    | inr k ↦ rw (e, k) refl
  ]
  | inr e ↦ rw e refl
]

wrote_some-input : (n : ℕ) (c : TcpConnection) → (wrote_some n c).input ≡ c.input
unfolding wrote_some
wrote_some-input n c = elim (Bool-cases (readable_bytes (taken_off n c).output == 0)) [
  | inl e ↦ rw e (drained-input (taken_off n c))
  | inr e ↦ rw e refl
]

written :
    (write : Bytes → WriteResult) (c : TcpConnection) (r : WriteResult)
    → (write_fd write c.output).0 ≡ r
    → is_writing c.watch.channel ≡ true
    → (handle_write write c).input ≡ c.input
unfolding handle_write
written write c (write_error n) e on = rw (on, e, handle_write) refl
written write c (wrote n) e on = elim (Bool-cases (ltb 0 n)) [
  | inl more ↦ rw (on, e, handle_write, more) (wrote_some-input n c)
  | inr nothing ↦ rw (on, e, handle_write, nothing) refl
]

pub handle_write-input :
    (write : Bytes → WriteResult) (c : TcpConnection) → (handle_write write c).input ≡ c.input
handle_write-input write c = elim (Bool-cases (is_writing c.watch.channel)) [
  | inl e ↦ written write c (write_fd write c.output).0 refl e
  | inr e ↦ unfold handle_write in rw e refl
]
