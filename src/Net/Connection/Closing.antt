-- ===== src/Net/Connection/Closing.antt =====
-- How often the close callback is called: what each operation does to a connection that has not
-- been closed, and to one that has.
use simple_http_server.Common.{
  ℕ, suc, ◌+◌, ◌≡◌, ◌⊎◌, refl, arith, ◌∙◌, ap, Bool, true, false, not, ◌&&◌, ltb, ◌==◌, List, [],
  ◌∷◌, ◌++◌, inl, inr, Bool-cases, length, if◌then◌else◌,
}
use simple_http_server.Common.Bytes.{Bytes}
use simple_http_server.Net.Buffer.{
  WriteResult, wrote, write_error, sub_size, readable_bytes, write_fd,
}
use simple_http_server.Net.Channel.{added, deleted, has_any, is_writing}
use simple_http_server.Net.Poller.{update_channel, disable_all}
use simple_http_server.Net.Connection.{
  TcpConnection, disconnected, Note, connection_changed, write_complete, closed, high_water_mark,
  note_if, is_connected, is_disconnecting, attempt_of, no_attempt, writes_at_once, buffer_rest,
  attempted, finish_send, send_in_loop, shutdown_in_loop, send, shutdown, handle_close,
  handle_write, wrote_some, drained, all_written, taken_off,
}

-- How many of the notes are calls of the close callback.
abbrev pub closings : List Note → ℕ
closings [] = 0
closings (closed ∷ ns) = suc (closings ns)
closings (_ ∷ ns) = closings ns

pub closings-append : (xs ys : List Note) → closings (xs ++ ys) ≡ closings xs + closings ys
closings-append [] ys = omega arith
closings-append (connection_changed ∷ xs) ys = closings-append xs ys
closings-append (write_complete ∷ xs) ys = closings-append xs ys
closings-append (closed ∷ xs) ys = omega (arith, closings-append xs ys)
closings-append (high_water_mark n ∷ xs) ys = closings-append xs ys

-- The connection has been closed once, and the kernel watches it no more.
pub record IsClosed (c : TcpConnection) : Type 0 where
  pub once : closings c.notes ≡ 1
  pub unwatched : c.watch.channel.index ≡ deleted
  pub idle : is_writing c.watch.channel ≡ false
  pub status : c.state ≡ disconnected

abbrev pub IsOpenOrClosed : TcpConnection → Type 0
IsOpenOrClosed c = (closings c.notes ≡ 0) ⊎ IsClosed c

-- A note that is not of the close callback.
quiet :
    (b : Bool) (n : Note) (xs : List Note)
    → closings (n ∷ []) ≡ 0
    → closings (xs ++ note_if b n) ≡ closings xs
quiet true n xs h = omega (arith, closings-append xs (n ∷ []))
quiet false n xs h = omega (arith, closings-append xs [])

pub send_in_loop-closings :
    (write : Bytes → WriteResult) (bytes : Bytes) (c : TcpConnection)
    → closings (send_in_loop write bytes c).notes ≡ closings c.notes
unfolding send_in_loop finish_send buffer_rest attempted
send_in_loop-closings write bytes c =
    let a = if writes_at_once c then attempt_of (length bytes) (write bytes) else no_attempt in
    let d = attempted bytes a c in
    let first : closings d.notes ≡ closings c.notes =
      quiet (a.complete && c.has_write_complete_callback) write_complete c.notes refl in
    elim (Bool-cases (not a.fault_error && ltb 0 (sub_size (length bytes) a.nwrote))) [
      | inl e ↦ rw e (quiet _ (high_water_mark _) d.notes refl ∙ first)
      | inr e ↦ rw e first
    ]

pub send-IsOpenOrClosed :
    (write : Bytes → WriteResult) (bytes : Bytes) (c : TcpConnection)
    → IsOpenOrClosed c
    → IsOpenOrClosed (send write true bytes c)
unfolding send
send-IsOpenOrClosed write bytes c (inl n) = elim (Bool-cases (is_connected c.state)) [
  | inl e ↦ rw e (inl (send_in_loop-closings write bytes c ∙ n))
  | inr e ↦ rw e (inl n)
]
send-IsOpenOrClosed write bytes c (inr k) =
    let off : is_connected c.state ≡ false = ap is_connected k.status in rw off (inr k)

pub shutdown-IsOpenOrClosed :
    (write : Bytes → WriteResult) (c : TcpConnection)
    → IsOpenOrClosed c
    → IsOpenOrClosed (shutdown write true c)
unfolding shutdown shutdown_in_loop
shutdown-IsOpenOrClosed write c (inl n) = elim (Bool-cases (is_connected c.state)) [
  | inl e ↦ elim (Bool-cases (is_writing c.watch.channel)) [
    | inl k ↦ rw (e, k) (inl n)
    | inr k ↦ rw (e, k) (inl n)
  ]
  | inr e ↦ rw e (inl n)
]
shutdown-IsOpenOrClosed write c (inr k) =
    let off : is_connected c.state ≡ false = ap is_connected k.status in rw off (inr k)

-- Closing a connection that is watched and has not been closed.
pub handle_close-IsClosed :
    (c : TcpConnection)
    → closings c.notes ≡ 0
    → c.watch.channel.index ≡ added
    → IsClosed (handle_close c)
unfolding handle_close disable_all update_channel is_writing has_any
handle_close-IsClosed c n i = rw i (record {
  once = omega (arith, closings-append c.notes (connection_changed ∷ closed ∷ []));
  unwatched = refl;
  idle = refl;
  status = refl;
})

drained-closings : (c : TcpConnection) → closings (drained c).notes ≡ closings c.notes
unfolding drained shutdown_in_loop
drained-closings c =
    let first = quiet c.has_write_complete_callback write_complete c.notes refl in
    elim (Bool-cases (is_disconnecting c.state)) [
      | inl e ↦ elim (Bool-cases (is_writing (all_written c).watch.channel)) [
        | inl k ↦ rw (e, k) first
        | inr k ↦ rw (e, k) first
      ]
      | inr e ↦ rw e first
    ]

written :
    (write : Bytes → WriteResult) (c : TcpConnection) (r : WriteResult)
    → (write_fd write c.output).0 ≡ r
    → is_writing c.watch.channel ≡ true
    → closings (handle_write write c).notes ≡ closings c.notes
unfolding handle_write wrote_some
written write c (write_error n) e on = rw (on, e, handle_write) refl
written write c (wrote n) e on = elim (Bool-cases (ltb 0 n)) [
  | inl more ↦ elim (Bool-cases (readable_bytes (taken_off n c).output == 0)) [
    | inl all ↦ rw (on, e, handle_write, more, all) (drained-closings (taken_off n c))
    | inr some_left ↦ rw (on, e, handle_write, more, some_left) refl
  ]
  | inr nothing ↦ rw (on, e, handle_write, nothing) refl
]

pub handle_write-IsOpenOrClosed :
    (write : Bytes → WriteResult) (c : TcpConnection)
    → IsOpenOrClosed c
    → IsOpenOrClosed (handle_write write c)
handle_write-IsOpenOrClosed write c (inl n) = elim (Bool-cases (is_writing c.watch.channel)) [
  | inl e ↦ inl (written write c (write_fd write c.output).0 refl e ∙ n)
  | inr e ↦ inl (unfold handle_write in rw e n)
]
handle_write-IsOpenOrClosed write c (inr k) = inr (unfold handle_write in rw (k.idle) k)
