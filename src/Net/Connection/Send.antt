-- ===== src/Net/Connection/Send.antt =====
-- `sendInLoop` keeps the invariant: the bytes go behind all that was sent before.
use simple_http_server.Common.{
  ℕ, ◌≤◌, ◌≡◌, ◌≢◌, ◌⊎◌, inl, inr, refl, sym, ap, ◌∙◌, arith, true, false, [], ◌++◌, ltb,
  Bool-cases, length, drop, append-nil, length-drop, drop_of_length-le,
}
use simple_http_server.Common.Bytes.{Bytes}
use simple_http_server.Net.Buffer.{WriteResult, wrote, write_error, sub_size}
use simple_http_server.Net.Buffer.View.{contents, readable_bytes_lem}
use simple_http_server.Net.Buffer.Laws.{Fits}
use simple_http_server.Net.Connection.{
  TcpConnection, Attempt, attempt_of, no_attempt, writes_at_once, buffer_rest, attempted,
  finish_send, send_in_loop, is_connected, epipe, econnreset,
}
use simple_http_server.Net.Connection.Parts.{IsSound, buffer_rest-Buffered, joined, length-zero}

-- What `write` documents: it takes no more than it is handed. A peer that has gone away is the
-- subject of none of the theorems here.
pub record IsOpen (write : Bytes → WriteResult) : Type 0 where
  pub bounded : (bytes : Bytes) (n : ℕ) → write bytes ≡ wrote n → n ≤ length bytes
  pub no_reset :
      (bytes : Bytes) (e : ℕ) → write bytes ≡ write_error e → (e ≢ epipe) × (e ≢ econnreset)

pub true-ne-false : true ≡ false → ⊥
true-ne-false e = cc

attempted-IsSound :
    (bytes sent : Bytes) (a : Attempt) (c : TcpConnection)
    → length bytes ≤ a.nwrote
    → (contents c.output ≡ []) ⊎ (a.nwrote ≡ 0)
    → is_connected c.state ≡ true
    → IsSound sent c
    → IsSound (sent ++ bytes) (attempted bytes a c)
unfolding attempted
attempted-IsSound bytes sent a c all before live s = record {
  valid = s.valid;
  mask = s.mask;
  in_order = rw (
    ← s.in_order,
    ← joined a.nwrote c.wire (contents c.output) bytes before,
    drop_of_length-le a.nwrote bytes all,
    append-nil (contents c.output),
  );
  awaited = s.awaited;
  last = λ e. absurd (true-ne-false (sym live ∙ (s.last e).1));
}

buffered-IsSound :
    (bytes sent : Bytes) (a : Attempt) (c : TcpConnection)
    → (contents c.output ≡ []) ⊎ (a.nwrote ≡ 0)
    → is_connected c.state ≡ true
    → Fits (length bytes) c.output
    → IsSound sent c
    → IsSound (sent ++ bytes) (buffer_rest (drop a.nwrote bytes) (attempted bytes a c))
unfolding attempted
buffered-IsSound bytes sent a c before live h s =
    let rest = drop a.nwrote bytes in
    let b =
      buffer_rest-Buffered rest (attempted bytes a c) s.valid s.mask
        (omega (arith, length-drop a.nwrote bytes)) in
    record {
      valid = b.output.valid;
      mask = b.mask;
      in_order =
          rw (b.wire, b.output.holds) (joined a.nwrote c.wire (contents c.output) bytes before)
          ∙ ap (λ u. u ++ bytes) s.in_order;
      awaited = λ e. absurd (true-ne-false (sym b.writing ∙ e));
      last = λ e. absurd (true-ne-false (sym live ∙ (s.last (sym b.half_closed ∙ e)).1));
    }

finish_send-IsSound :
    (bytes sent : Bytes) (a : Attempt) (c : TcpConnection)
    → a.fault_error ≡ false
    → a.nwrote ≤ length bytes
    → (contents c.output ≡ []) ⊎ (a.nwrote ≡ 0)
    → is_connected c.state ≡ true
    → Fits (length bytes) c.output
    → IsSound sent c
    → IsSound (sent ++ bytes) (finish_send bytes a c)
unfolding finish_send
finish_send-IsSound bytes sent a c sane bound before live h s =
    elim (Bool-cases (ltb 0 (sub_size (length bytes) a.nwrote))) [
      | inl e ↦ rw (sane, e) (buffered-IsSound bytes sent a c before live h s)
      | inr e ↦ rw (sane, e) (attempted-IsSound bytes sent a c (ground arith) before live s)
    ]

nothing_waits :
    (sent : Bytes) (c : TcpConnection)
    → writes_at_once c ≡ true
    → IsSound sent c
    → contents c.output ≡ []
nothing_waits sent c e s =
    length-zero (contents c.output) (ground (arith, readable_bytes_lem s.valid))

at_once :
    (write : Bytes → WriteResult) (bytes sent : Bytes) (c : TcpConnection) (r : WriteResult)
    → write bytes ≡ r
    → IsOpen write
    → contents c.output ≡ []
    → is_connected c.state ≡ true
    → Fits (length bytes) c.output
    → IsSound sent c
    → IsSound (sent ++ bytes) (finish_send bytes (attempt_of (length bytes) r) c)
unfolding attempt_of
at_once write bytes sent c (wrote n) e o empty live h s =
    finish_send-IsSound bytes sent _ c refl (o.bounded bytes n e) (inl empty) live h s
at_once write bytes sent c (write_error n) e o empty live h s =
    finish_send-IsSound bytes sent _ c (ground (arith, o.no_reset bytes n e)) (omega arith)
      (inr refl) live h s

pub send_in_loop-IsSound :
    (write : Bytes → WriteResult) (bytes sent : Bytes) (c : TcpConnection)
    → IsOpen write
    → is_connected c.state ≡ true
    → Fits (length bytes) c.output
    → IsSound sent c
    → IsSound (sent ++ bytes) (send_in_loop write bytes c)
unfolding send_in_loop
send_in_loop-IsSound write bytes sent c o live h s = elim (Bool-cases (writes_at_once c)) [
  | inl e ↦
      rw e (at_once write bytes sent c (write bytes) refl o (nothing_waits sent c e s) live h s)
  | inr e ↦
      rw e (finish_send-IsSound bytes sent no_attempt c refl (omega arith) (inr refl) live h s)
]
