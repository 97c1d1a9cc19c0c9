-- ===== src/Net/Buffer/Io.antt =====
-- `readFd` and `writeFd` against what the kernel promises of `readv` and `write`.
use simple_http_server.Common.{
  ℕ, ◌-◌, ◌≤◌, ◌≡◌, refl, arith, ◌++◌, inl, inr, leb, Option, some, none, true, false, Bool-cases,
  length, take, drop, length-take, length-drop, take-append-drop, take_of_length-le, append_assoc,
}
use simple_http_server.Common.Bytes.{Bytes}
use simple_http_server.Net.Buffer.{
  Buffer, ReadResult, got, read_error, WriteResult, offered, absorb, read_fd, write_fd,
  writable_bytes, readable_bytes, copy_to, write_at_end, add_size, sub_size,
}
use simple_http_server.Net.Buffer.View.{IsValid, contents, writable_bytes_lem, length-copy_to}
use simple_http_server.Net.Buffer.Laws.{Holds, Fits, write_at_end-Holds, append-Holds}

absorb_first :
    (bytes : Bytes) (b : Buffer)
    → IsValid b
    → leb (length bytes) (writable_bytes b) ≡ true
    → Fits (length bytes) b
    → Holds (contents b ++ bytes) (absorb bytes b)
unfolding absorb
absorb_first bytes b v e h =
    let fits : length bytes ≤ writable_bytes b = ground arith in
    rw (e, take_of_length-le (writable_bytes b) bytes fits)
      (write_at_end-Holds bytes b v (omega (arith, writable_bytes_lem v)))

absorb_both :
    (bytes : Bytes) (b : Buffer)
    → IsValid b
    → leb (length bytes) (writable_bytes b) ≡ false
    → Fits (length bytes) b
    → Holds (contents b ++ bytes) (absorb bytes b)
unfolding absorb
absorb_both bytes b v e h =
    let n = writable_bytes b in
    let first = take n bytes in
    let held : length first ≡ n = ground (arith, length-take n bytes) in
    let full =
      length-copy_to b.writer_index first b.buffer (omega (arith, held, writable_bytes_lem v)) in
    let ends : length (copy_to b.writer_index first b.buffer)
        ≡ add_size b.writer_index (length first) =
      omega (arith, full, held, writable_bytes_lem v) in
    let half = write_at_end-Holds first b v (omega (arith, held, writable_bytes_lem v)) in
    let done =
      append-Holds (drop n bytes) (write_at_end first b) half.valid
        (omega (arith, full, length-drop n bytes)) in
    rw (e, ends) (rw (half.holds, append_assoc, take-append-drop n bytes) at done)

-- However `readv` has spread the bytes over the buffer and the stack, they end up behind those
-- already there, in order.
pub absorb-Holds :
    (bytes : Bytes) (b : Buffer)
    → IsValid b
    → Fits (length bytes) b
    → Holds (contents b ++ bytes) (absorb bytes b)
absorb-Holds bytes b v h = elim (Bool-cases (leb (length bytes) (writable_bytes b))) [
  | inl e ↦ absorb_first bytes b v e h
  | inr e ↦ absorb_both bytes b v e h
]

-- `readv` moves no more bytes than there is room for.
abbrev pub Bounded : (ℕ → ReadResult) → Type 0
Bounded readv = (n : ℕ) (bytes : Bytes) → readv n ≡ got bytes → length bytes ≤ n

-- What the caller of `readFd` finds, for each result of `readv`.
abbrev pub Received : Buffer → ReadResult → ReadResult × Option ℕ × Buffer → Type 0
Received b (got bytes) r = (r.0 ≡ got bytes) × (r.1 ≡ none) × Holds (contents b ++ bytes) r.2
Received b (read_error e) r = r ≡ (read_error e, some e, b)

pub received :
    (readv : ℕ → ReadResult) (b : Buffer) (r : ReadResult)
    → readv (offered b) ≡ r
    → ((bytes : Bytes) → r ≡ got bytes → length bytes ≤ offered b)
    → IsValid b
    → Fits (offered b) b
    → Received b r (read_fd readv b)
unfolding read_fd
received readv b (got bytes) e bound v h =
    rw (e, read_fd) (refl, refl, absorb-Holds bytes b v (omega (arith, bound bytes refl)))
received readv b (read_error n) e bound v h = rw (e, read_fd)

-- For a valid buffer with address space left, and a `readv` that keeps to the room offered:
-- `readFd` returns what `readv` returned. Bytes read stand behind the old contents, in order, and
-- the buffer is valid; on an error `errno` is saved and the buffer is as it was.
pub read_fd-Received :
    (readv : ℕ → ReadResult) (b : Buffer)
    → Bounded readv
    → IsValid b
    → Fits (offered b) b
    → Received b (readv (offered b)) (read_fd readv b)
read_fd-Received readv b bound v h =
    received readv b (readv (offered b)) refl (λ bytes e. bound (offered b) bytes e) v h

-- `writeFd` hands the kernel exactly the readable bytes.
pub write_fd_lem :
    (write : Bytes → WriteResult) (b : Buffer)
    → IsValid b
    → (write_fd write b).0 ≡ write (contents b)
unfolding write_fd readable_bytes
write_fd_lem write b v =
    let e : sub_size b.writer_index b.reader_index ≡ b.writer_index - b.reader_index =
      omega arith in
    rw (e, write_fd) (ground arith)
