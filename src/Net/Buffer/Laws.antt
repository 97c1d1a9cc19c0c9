-- ===== src/Net/Buffer/Laws.antt =====
-- The buffer is a queue of bytes: `append` adds behind, `retrieve` takes from the front.
use simple_http_server.Common.{
  ℕ, ◌+◌, ◌-◌, ◌%◌, ◌^◌, ◌≤◌, ◌<◌, ◌≡◌, refl, arith, ◌++◌, [], ◌∙◌, sym, inl, inr, ltb, some,
  Bool-cases, length, take, drop, drop-take, drop-drop, take_of_length-le, drop_of_length-le,
  take-take,
}
use simple_http_server.Common.Bytes.{Bytes}
use simple_http_server.Net.Buffer.{
  Buffer, readable_bytes, append, append_string, write_at_end, ensure_writable_bytes, add_size,
  sub_size, retrieve, retrieve_all, retrieve_until, retrieve_as_string, retrieve_all_as_string,
}
use simple_http_server.Net.Buffer.View.{
  IsValid, contents, length-contents, readable_bytes_lem, length-copy_to, range-copy_to,
}
use simple_http_server.Net.Buffer.Space.{ensure_writable_bytes-Makes}

-- An operation leaves a valid buffer that holds these bytes.
pub record Holds (bytes : Bytes) (b : Buffer) : Type 0 where
  pub valid : IsValid b
  pub holds : contents b ≡ bytes

-- Enough address space for `len` more bytes.
abbrev pub Fits : ℕ → Buffer → Type 0
Fits len b = length b.buffer + len < 2 ^ 63

pub write_at_end-Holds :
    (bytes : Bytes) (b : Buffer)
    → IsValid b
    → b.writer_index + length bytes ≤ length b.buffer
    → Holds (contents b ++ bytes) (write_at_end bytes b)
write_at_end-Holds bytes b v h =
    let fits = length-copy_to b.writer_index bytes b.buffer h in
    let ends : add_size b.writer_index (length bytes) ≡ b.writer_index + length bytes =
      omega arith in
    record {
      valid = omega (arith, fits);
      holds =
          rw ends (range-copy_to b.reader_index b.writer_index bytes b.buffer v.ordered v.within);
    }

-- Appending to a valid buffer, with address space for the bytes, keeps it valid, and it holds them
-- behind what it held, whether the storage grows, the readable bytes move to the front, or neither.
pub append-Holds :
    (bytes : Bytes) (b : Buffer)
    → IsValid b
    → Fits (length bytes) b
    → Holds (contents b ++ bytes) (append bytes b)
unfolding append
append-Holds bytes b v h =
    let m = ensure_writable_bytes-Makes (length bytes) b v h in
    rw (m.same) at
      (write_at_end-Holds bytes (ensure_writable_bytes (length bytes) b) m.valid m.room)

-- The storage grows by no more than what is appended.
pub length-append_buffer :
    (bytes : Bytes) (b : Buffer)
    → IsValid b
    → Fits (length bytes) b
    → length (append bytes b).buffer ≤ length b.buffer + length bytes
unfolding append
length-append_buffer bytes b v h =
    let m = ensure_writable_bytes-Makes (length bytes) b v h in
    let c = ensure_writable_bytes (length bytes) b in
    omega (arith, length-copy_to c.writer_index bytes c.buffer m.room, m.bound)

pub append_string_lem :
    (bytes : Bytes) (b : Buffer)
    → length bytes < 2 ^ 31
    → append_string bytes b ≡ some (append bytes b)
unfolding append_string
append_string_lem bytes b h = ground (arith, take_of_length-le (length bytes % 2 ^ 32) bytes)

pub retrieve_all-Holds : (b : Buffer) → IsValid b → Holds [] (retrieve_all b)
unfolding retrieve_all
retrieve_all-Holds b v = record { valid = omega arith; holds = refl }

-- From a valid buffer any number of bytes may be retrieved: it stays valid and holds what is behind
-- them, and past the end it is emptied.
pub retrieve-Holds :
    (len : ℕ) (b : Buffer) → IsValid b → Holds (drop len (contents b)) (retrieve len b)
unfolding retrieve
retrieve-Holds len b v = elim (Bool-cases (ltb len (readable_bytes b))) [
  | inl e ↦
      let less : len < b.writer_index - b.reader_index =
        ground (arith, readable_bytes_lem v, length-contents v) in
      let at : add_size b.reader_index len ≡ b.reader_index + len = omega arith in
      let left : b.writer_index - (b.reader_index + len) ≡ b.writer_index - b.reader_index - len =
        omega arith in
      rw (e, at)
        (record {
          valid = omega arith;
          holds =
              rw (left, ← drop-drop len b.reader_index b.buffer)
                (sym
                  (drop-take len (b.writer_index - b.reader_index) (drop b.reader_index b.buffer)));
        })
  | inr e ↦
      rw (e, drop_of_length-le len (contents b) (ground (arith, readable_bytes_lem v)))
        (retrieve_all-Holds b v)
]

pub retrieve_until-Holds :
    (n : ℕ) (b : Buffer)
    → IsValid b
    → n ≤ length (contents b)
    → Holds (drop n (contents b)) (retrieve_until (b.reader_index + n) b)
unfolding retrieve_until
retrieve_until-Holds n b v h =
    let e : sub_size (b.reader_index + n) b.reader_index ≡ n = omega (arith, length-contents v) in
    rw e (retrieve-Holds n b v)

-- Reading `len` readable bytes out of a valid buffer gives the oldest `len`, in order, and leaves
-- the others.
pub retrieve_as_string_lem :
    (len : ℕ) (b : Buffer)
    → IsValid b
    → len ≤ length (contents b)
    → ((retrieve_as_string len b).0 ≡ take len (contents b))
      × Holds (drop len (contents b)) (retrieve_as_string len b).1
unfolding retrieve_as_string
retrieve_as_string_lem len b v h = (
  sym (
      take-take len (b.writer_index - b.reader_index) (drop b.reader_index b.buffer)
        (omega (arith, length-contents v))),
  retrieve-Holds len b v,
)

pub retrieve_all_as_string_lem :
    (b : Buffer)
    → IsValid b
    → ((retrieve_all_as_string b).0 ≡ contents b) × Holds [] (retrieve_all_as_string b).1
unfolding retrieve_all_as_string
retrieve_all_as_string_lem b v =
    let (text, rest) =
      retrieve_as_string_lem (readable_bytes b) b v (omega (arith, readable_bytes_lem v)) in
    (
      text ∙ take_of_length-le _ (contents b) (omega (arith, readable_bytes_lem v)),
      rw (drop_of_length-le (readable_bytes b) (contents b) (omega (arith, readable_bytes_lem v)))
          at rest,
    )
