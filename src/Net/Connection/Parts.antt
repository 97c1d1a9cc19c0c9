-- ===== src/Net/Connection/Parts.antt =====
-- The invariant of an open connection, and the parts of `sendInLoop`.
use simple_http_server.Common.{
  ℕ, ◌≡◌, ◌⊎◌, inl, inr, refl, sym, arith, true, false, [], ◌∷◌, ◌++◌, if◌then◌else◌, Bool-cases,
  length, take, drop, append-nil, append_assoc, take-append-drop,
}
use simple_http_server.Common.Bytes.{Bytes}
use simple_http_server.Net.Buffer.View.{IsValid, contents}
use simple_http_server.Net.Buffer.Laws.{Holds, Fits, append-Holds}
use simple_http_server.Net.Channel.{is_writing, is_reading}
use simple_http_server.Net.Channel.Masks.{IsMask}
use simple_http_server.Net.Poller.{Watched, enable_writing}
use simple_http_server.Net.Poller.Watching.{Waits, enable_writing-Waits}
use simple_http_server.Net.Connection.{TcpConnection, buffer_rest, is_connected}

-- `sent` is all that the user has handed to `send` while the connection was open.
pub record IsSound (sent : Bytes) (c : TcpConnection) : Type 0 where
  pub valid : IsValid c.output
  pub mask : IsMask c.watch.channel.events
  -- nothing is lost, repeated or out of order
  pub in_order : c.wire ++ contents c.output ≡ sent
  -- what waits to be written is waited for
  pub awaited : is_writing c.watch.channel ≡ false → contents c.output ≡ []
  -- the connection is half closed only behind the last byte
  pub last : c.half_closed ≡ true → (contents c.output ≡ []) × (is_connected c.state ≡ false)

pub length-zero : (xs : Bytes) → length xs ≡ 0 → xs ≡ []
length-zero [] h = refl
length-zero (x ∷ xs) h = absurd (omega arith)

-- The bytes written and those left over are the bytes, behind what was there.
pub joined :
    (n : ℕ) (w x bytes : Bytes)
    → (x ≡ []) ⊎ (n ≡ 0)
    → (w ++ take n bytes) ++ (x ++ drop n bytes) ≡ (w ++ x) ++ bytes
joined n w x bytes (inl e) =
    rw (e, append_assoc w (take n bytes) (drop n bytes), take-append-drop n bytes, append-nil w)
joined n w x bytes (inr e) = rw (e, append-nil w) (sym (append_assoc w x bytes))

writing_on :
    (w : Watched)
    → IsMask w.channel.events
    → Waits (if is_writing w.channel then w else enable_writing w) (is_reading w.channel) true
writing_on w m = elim (Bool-cases (is_writing w.channel)) [
  | inl e ↦ rw e (record { mask = m; reads = refl; writes = e })
  | inr e ↦ rw e (enable_writing-Waits (record { mask = m; reads = refl; writes = e }))
]

-- The rest goes behind what waits, and the channel waits for writing.
pub record Buffered (rest : Bytes) (c d : TcpConnection) : Type 0 where
  pub output : Holds (contents c.output ++ rest) d.output
  pub mask : IsMask d.watch.channel.events
  pub writing : is_writing d.watch.channel ≡ true
  pub wire : d.wire ≡ c.wire
  pub state : d.state ≡ c.state
  pub half_closed : d.half_closed ≡ c.half_closed

pub buffer_rest-Buffered :
    (rest : Bytes) (c : TcpConnection)
    → IsValid c.output
    → IsMask c.watch.channel.events
    → Fits (length rest) c.output
    → Buffered rest c (buffer_rest rest c)
unfolding buffer_rest
buffer_rest-Buffered rest c v m h =
    let on = writing_on c.watch m in
    record {
      output = append-Holds rest c.output v h;
      mask = on.mask;
      writing = on.writes;
      wire = refl;
      state = refl;
      half_closed = refl;
    }
