-- ===== src/Net/Buffer/Space.antt =====
-- `makeSpace` and `ensureWritableBytes`: room is made, and the readable bytes stay.
use simple_http_server.Common.{
  ℕ, ◌+◌, ◌-◌, ◌^◌, ◌≤◌, ◌<◌, ◌≡◌, refl, arith, inl, inr, ltb, leb, Bool-cases, length, drop,
  replicate, length-take, length-drop, length-append, length-replicate, drop-append_le,
  take-append_le, take_of_length-le,
}
use simple_http_server.Common.Bytes.{Bytes}
use simple_http_server.Net.Buffer.{
  Buffer, range, readable_bytes, writable_bytes, prependable_bytes, cheap_prepend, copy_to, resize,
  make_space, ensure_writable_bytes, add_size,
}
use simple_http_server.Net.Buffer.View.{
  IsValid, contents, length-contents, readable_bytes_lem, writable_bytes_lem, length-copy_to,
  range-copy_to,
}

-- The storage keeps its first bytes when it grows.
length-resize : (n : ℕ) (xs : Bytes) → length xs ≤ n → length (resize n xs) ≡ n
unfolding resize
length-resize n xs h = ground (
  arith,
  length-take n xs,
  length-append xs (replicate (n - length xs) 0),
  length-replicate {A = ℕ} (n - length xs) 0,
)

range-resize :
    (b : Buffer) (n : ℕ) (from to : ℕ)
    → length b.buffer ≤ n
    → from ≤ to
    → to ≤ length b.buffer
    → range (record b { buffer = resize n b.buffer }) from to ≡ range b from to
unfolding resize
range-resize b n from to h k m = elim (Bool-cases (leb n (length b.buffer))) [
  | inl e ↦ rw (e, take_of_length-le n b.buffer (ground arith))
  | inr e ↦
      rw (e, drop-append_le from b.buffer (replicate (n - length b.buffer) 0) (omega arith))
        (take-append_le (to - from) (drop from b.buffer) _
          (omega (arith, length-drop from b.buffer)))
]

-- What `makeSpace` and `ensureWritableBytes` promise for `len` more bytes.
pub record Makes (len : ℕ) (b c : Buffer) : Type 0 where
  pub valid : IsValid c
  pub same : contents c ≡ contents b
  pub room : c.writer_index + len ≤ length c.buffer
  pub bound : length c.buffer ≤ length b.buffer + len

grow-Makes :
    (len : ℕ) (b : Buffer)
    → IsValid b
    → length b.buffer - b.writer_index < len
    → length b.buffer + len < 2 ^ 63
    → Makes len b (record b { buffer = resize (add_size b.writer_index len) b.buffer })
grow-Makes len b v h k =
    let n = add_size b.writer_index len in
    let e : n ≡ b.writer_index + len = omega arith in
    let grown = length-resize n b.buffer (omega arith) in
    record {
      valid = omega (arith, grown);
      same = range-resize b n b.reader_index b.writer_index (omega arith) v.ordered v.within;
      room = omega (arith, grown);
      bound = omega (arith, grown);
    }

-- The buffer with its readable bytes moved down to `kCheapPrepend`.
abbrev moved : Buffer → Buffer
moved b = record b {
  buffer = copy_to cheap_prepend (contents b) b.buffer;
  reader_index = cheap_prepend;
  writer_index = add_size cheap_prepend (readable_bytes b);
}

moved-Makes :
    (len : ℕ) (b : Buffer)
    → IsValid b
    → len + 8 ≤ length b.buffer - b.writer_index + b.reader_index
    → Makes len b (moved b)
moved-Makes len b v h =
    let held = length-contents v in
    let read = readable_bytes_lem v in
    let fits = length-copy_to cheap_prepend (contents b) b.buffer (omega (arith, held)) in
    let ends : add_size cheap_prepend (readable_bytes b) ≡ 8 + length (contents b) =
      omega (arith, held, read) in
    record {
      valid = omega (arith, held, read, fits);
      same = rw ends (range-copy_to 8 8 (contents b) b.buffer (omega arith) (omega arith));
      room = omega (arith, held, read, fits);
      bound = omega (arith, fits);
    }

make_space-Makes :
    (len : ℕ) (b : Buffer)
    → IsValid b
    → length b.buffer - b.writer_index < len
    → length b.buffer + len < 2 ^ 63
    → Makes len b (make_space len b)
unfolding make_space
make_space-Makes len b v h k =
    elim (Bool-cases
      (ltb (add_size (writable_bytes b) (prependable_bytes b)) (add_size len cheap_prepend))) [
        | inl e ↦ rw e (grow-Makes len b v h k)
        | inr e ↦ rw e (moved-Makes len b v (ground (arith, writable_bytes_lem v)))
      ]

-- Afterwards `len` bytes can be written, and what can be read is unchanged.
pub ensure_writable_bytes-Makes :
    (len : ℕ) (b : Buffer)
    → IsValid b
    → length b.buffer + len < 2 ^ 63
    → Makes len b (ensure_writable_bytes len b)
unfolding ensure_writable_bytes
ensure_writable_bytes-Makes len b v k = elim (Bool-cases (ltb (writable_bytes b) len)) [
  | inl e ↦ rw e (make_space-Makes len b v (ground (arith, writable_bytes_lem v)) k)
  | inr e ↦ rw e (record {
    valid = v;
    same = refl;
    room = ground (arith, writable_bytes_lem v);
    bound = omega arith;
  })
]
