-- ===== src/Net/Buffer/View.antt =====
-- A valid buffer, and the readable bytes that it stands for.
use simple_http_server.Common.{
  ℕ, ◌+◌, ◌-◌, ◌^◌, ◌≤◌, ◌<◌, ◌≡◌, arith, ◌++◌, ◌∙◌, length, take, drop, length-take, length-drop,
  length-replicate, drop-append_le, drop-take, length-append, ◌%◌, take-append_ge, take-append_le,
  take_of_length-le,
}
use simple_http_server.Common.Bytes.{Bytes}
use simple_http_server.Net.Buffer.{
  Buffer, init, range, readable_bytes, writable_bytes, cheap_prepend, copy_to,
}

-- `max_size` of a `std::vector<char>` is below 2 ^ 63.
pub record IsValid (b : Buffer) : Type 0 where
  pub prepend : cheap_prepend ≤ b.reader_index
  pub ordered : b.reader_index ≤ b.writer_index
  pub within : b.writer_index ≤ length b.buffer
  pub addressable : length b.buffer < 2 ^ 63

abbrev pub contents : Buffer → Bytes
contents b = range b b.reader_index b.writer_index

pub length-range :
    (b : Buffer) (from to : ℕ) → to ≤ length b.buffer → length (range b from to) ≡ to - from
length-range b from to h =
    omega (arith, length-take (to - from) (drop from b.buffer), length-drop from b.buffer)

pub length-contents :
    {b : Buffer} → IsValid b → length (contents b) ≡ b.writer_index - b.reader_index
length-contents {b} v = length-range b b.reader_index b.writer_index v.within

pub readable_bytes_lem : {b : Buffer} → IsValid b → readable_bytes b ≡ length (contents b)
unfolding readable_bytes
readable_bytes_lem v = omega (arith, length-contents v)

pub writable_bytes_lem :
    {b : Buffer} → IsValid b → writable_bytes b ≡ length b.buffer - b.writer_index
unfolding writable_bytes
writable_bytes_lem v = omega arith

pub length-copy_to :
    (at : ℕ) (src xs : Bytes) → at + length src ≤ length xs → length (copy_to at src xs) ≡ length xs
unfolding copy_to
length-copy_to at src xs h =
    length-append (take at xs) (src ++ drop (at + length src) xs)
    ∙ omega (
      arith,
      length-take at xs,
      length-append src (drop (at + length src) xs),
      length-drop (at + length src) xs,
    )

-- Copying behind a range extends the range by the copied bytes.
pub range-copy_to :
    (from at : ℕ) (src xs : Bytes)
    → from ≤ at
    → at ≤ length xs
    → take (at + length src - from) (drop from (copy_to at src xs))
      ≡ take (at - from) (drop from xs) ++ src
unfolding copy_to
range-copy_to from at src xs h k =
    let rest = src ++ drop (at + length src) xs in
    let head = drop from (take at xs) in
    let held : length head ≡ at - from =
      omega (arith, length-drop from (take at xs), length-take at xs) in
    let split : drop from (take at xs ++ rest) ≡ head ++ rest =
      drop-append_le from (take at xs) rest (omega (arith, length-take at xs)) in
    let some_left : at + length src - from - length head ≡ length src = omega (arith, held) in
    rw (split, take-append_ge (at + length src - from) head rest (omega (arith, held)), some_left)
      (rw (
        take-append_le (length src) src (drop (at + length src) xs) (omega arith),
        take_of_length-le (length src) src (omega arith),
        drop-take from at xs,
      ))

pub init-IsValid : (n : ℕ) → n < 2 ^ 62 → IsValid (init n)
unfolding init
init-IsValid n h = omega (arith, length-replicate {A = ℕ} ((8 + n) % 2 ^ 64) 0)
