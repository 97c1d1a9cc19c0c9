-- ===== src/Net/Buffer.antt =====
-- mymuduo/net/Buffer.h and Buffer.cpp: the growing byte buffer of a connection.
-- A pointer into the buffer is its index in `buffer_`. `size_t` arithmetic wraps at 2 ^ 64.
-- `readv` and `write` are the kernel's: each is a function from what it is handed to its result.
pub mod View
pub mod Space
pub mod Laws
pub mod Io
pub mod Writers
use simple_http_server.Common.{
  ℕ, ◌+◌, ◌-◌, ◌%◌, ◌^◌, Bool, List, [], ◌∷◌, ◌++◌, Option, none, some, ltb, leb, ◌==◌, ◌&&◌,
  if◌then◌else◌, length, take, drop, replicate,
}
use simple_http_server.Common.Bytes.{Bytes}

abbrev pub cheap_prepend : ℕ
cheap_prepend = 8

abbrev pub initial_size : ℕ
initial_size = 1024

abbrev pub extra_size : ℕ
extra_size = 65536

-- `size_t` addition and subtraction.
abbrev pub add_size : ℕ → ℕ → ℕ
add_size a b = (a + b) % 2 ^ 64

abbrev pub sub_size : ℕ → ℕ → ℕ
sub_size a b = (a + 2 ^ 64 - b) % 2 ^ 64

pub record Buffer : Type 0 where
  pub buffer : Bytes
  pub reader_index : ℕ
  pub writer_index : ℕ

unfoldable pub init : ℕ → Buffer
init initial = record {
  buffer = replicate (add_size cheap_prepend initial) 0;
  reader_index = cheap_prepend;
  writer_index = cheap_prepend;
}

unfoldable pub readable_bytes : Buffer → ℕ
readable_bytes b = sub_size b.writer_index b.reader_index

unfoldable pub writable_bytes : Buffer → ℕ
writable_bytes b = sub_size (length b.buffer) b.writer_index

unfoldable pub prependable_bytes : Buffer → ℕ
prependable_bytes b = b.reader_index

abbrev pub one_further : Option ℕ → Option ℕ
one_further none = none
one_further (some i) = some (i + 1)

-- `std::search` for two bytes: how far into the range they first stand.
unfoldable pub search_two : ℕ → ℕ → Bytes → Option ℕ
search_two x y [] = none
search_two x y (a ∷ []) = none
search_two x y (a ∷ c ∷ cs) =
    if (a == x) && (c == y) then some 0 else one_further (search_two x y (c ∷ cs))

-- The bytes in `[from, to)` of the storage.
abbrev pub range : Buffer → ℕ → ℕ → Bytes
range b from to = take (to - from) (drop from b.buffer)

unfoldable pub find_crlf : Buffer → Option ℕ
find_crlf b = elim (search_two b'\r' b'\n' (range b b.reader_index b.writer_index)) [
  | none ↦ none
  | some i ↦ some (b.reader_index + i)
]

unfoldable pub retrieve_all : Buffer → Buffer
retrieve_all b = record b { reader_index = cheap_prepend; writer_index = cheap_prepend }

unfoldable pub retrieve : ℕ → Buffer → Buffer
unfolding readable_bytes retrieve_all
retrieve len b =
    if ltb len (readable_bytes b)
    then record b { reader_index = add_size b.reader_index len }
    else retrieve_all b

unfoldable pub retrieve_until : ℕ → Buffer → Buffer
unfolding retrieve
retrieve_until end b = retrieve (sub_size end b.reader_index) b

-- `std::string(peek(), len)` reads `len` bytes of the storage from the reader on.
unfoldable pub retrieve_as_string : ℕ → Buffer → Bytes × Buffer
retrieve_as_string len b = (take len (drop b.reader_index b.buffer), retrieve len b)

unfoldable pub retrieve_all_as_string : Buffer → Bytes × Buffer
unfolding retrieve_as_string
retrieve_all_as_string b = retrieve_as_string (readable_bytes b) b

-- `std::vector::resize`.
unfoldable pub resize : ℕ → Bytes → Bytes
resize n xs = if leb n (length xs) then take n xs else xs ++ replicate (n - length xs) 0

-- `std::copy` onto the storage at `at`.
unfoldable pub copy_to : ℕ → Bytes → Bytes → Bytes
copy_to at src xs = take at xs ++ (src ++ drop (at + length src) xs)

unfoldable pub make_space : ℕ → Buffer → Buffer
unfolding writable_bytes readable_bytes prependable_bytes resize copy_to
make_space len b =
    if ltb (add_size (writable_bytes b) (prependable_bytes b)) (add_size len cheap_prepend)
    then record b { buffer = resize (add_size b.writer_index len) b.buffer }
    else record b {
      buffer = copy_to cheap_prepend (range b b.reader_index b.writer_index) b.buffer;
      reader_index = cheap_prepend;
      writer_index = add_size cheap_prepend (readable_bytes b);
    }

unfoldable pub ensure_writable_bytes : ℕ → Buffer → Buffer
ensure_writable_bytes len b = if ltb (writable_bytes b) len then make_space len b else b

-- The copy and the move of the writer, once there is room.
abbrev pub write_at_end : Bytes → Buffer → Buffer
write_at_end bytes b = record b {
  buffer = copy_to b.writer_index bytes b.buffer;
  writer_index = add_size b.writer_index (length bytes);
}

-- `append(const char *data, size_t len)`.
unfoldable pub append : Bytes → Buffer → Buffer
append bytes b = write_at_end bytes (ensure_writable_bytes (length bytes) b)

-- `append(std::string data)` keeps the size in an `int`: the low 32 bits of it. With the sign bit
-- set the copied range ends before it begins, which is undefined behaviour: `none`.
unfoldable pub append_string : Bytes → Buffer → Option Buffer
append_string bytes b =
    let len = length bytes % 2 ^ 32 in
    if ltb len (2 ^ 31) then some (append (take len bytes) b) else none

-- What `readv` and `write` return: the bytes moved, or -1 with `errno`.
pub data ReadResult : Type 0 where
  got : Bytes → ReadResult
  read_error : ℕ → ReadResult

pub data WriteResult : Type 0 where
  wrote : ℕ → WriteResult
  write_error : ℕ → WriteResult

-- The room that the `iovec`s offer: the writable part, and `extrabuf` if that is the smaller.
unfoldable pub offered : Buffer → ℕ
unfolding writable_bytes
offered b =
    if ltb (writable_bytes b) extra_size then writable_bytes b + extra_size else writable_bytes b

-- What `readFd` does with the bytes that `readv` has scattered over the two parts.
unfoldable pub absorb : Bytes → Buffer → Buffer
unfolding writable_bytes
absorb bytes b =
    let writable = writable_bytes b in
    let scattered = copy_to b.writer_index (take writable bytes) b.buffer in
    if leb (length bytes) writable
    then record b { buffer = scattered; writer_index = add_size b.writer_index (length bytes) }
    else append (drop writable bytes)
        (record b { buffer = scattered; writer_index = length scattered })

-- Returns what `readv` did; the second part is `*saveErrno` where it is written.
unfoldable pub read_fd : (ℕ → ReadResult) → Buffer → ReadResult × Option ℕ × Buffer
unfolding absorb
read_fd readv b = elim (readv (offered b)) [
  | read_error e ↦ (read_error e, some e, b)
  | got bytes ↦ (got bytes, none, absorb bytes b)
]

unfoldable pub write_fd : (Bytes → WriteResult) → Buffer → WriteResult × Option ℕ
write_fd write b = elim (write (take (readable_bytes b) (drop b.reader_index b.buffer))) [
  | write_error e ↦ (write_error e, some e)
  | wrote n ↦ (wrote n, none)
]
