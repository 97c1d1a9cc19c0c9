-- ===== src/Http/Context/Lines.antt =====
-- Lines in the input buffer: where the first CRLF stands, and what is left behind it.
use simple_http_server.Common.{
  ℕ, ◌+◌, ◌-◌, ◌≡◌, ◌≢◌, refl, arith, ◌∙◌, sym, ap, [], ◌∷◌, ◌++◌, some, none, length, take, drop,
  length-append, take-take, take-append_le, take_of_length-le, drop-append_ge,
}
use simple_http_server.Common.Bytes.{Bytes}
use simple_http_server.Net.Buffer.{Buffer, range, search_two, find_crlf, retrieve_until}
use simple_http_server.Net.Buffer.View.{contents, length-contents}
use simple_http_server.Net.Buffer.Laws.{Holds, retrieve_until-Holds}
use simple_http_server.Http.Context.{split_at}

-- The byte `c` does not stand in the text.
abbrev pub Lacks : ℕ → Bytes → Type 0
Lacks c [] = Unit {0}
Lacks c (x ∷ xs) = (x ≢ c) × Lacks c xs

pub Lacks-append : (c : ℕ) (xs ys : Bytes) → Lacks c xs → Lacks c ys → Lacks c (xs ++ ys)
Lacks-append c [] ys h k = k
Lacks-append c (x ∷ xs) ys h k = (h.0, Lacks-append c xs ys h.1 k)

pub split_at-found :
    (c : ℕ) (xs ys : Bytes) → Lacks c xs → split_at c (xs ++ c ∷ ys) ≡ some (xs, ys)
unfolding split_at
split_at-found c [] ys h = ground arith
split_at-found c (x ∷ xs) ys h = ground (arith, split_at-found c xs ys h.1)

pub split_at-missing : (c : ℕ) (xs : Bytes) → Lacks c xs → split_at c xs ≡ none
unfolding split_at
split_at-missing c [] h = refl
split_at-missing c (x ∷ xs) h = ground (arith, split_at-missing c xs h.1)

pub search_two-found :
    (line rest : Bytes)
    → Lacks b'\r' line
    → search_two b'\r' b'\n' (line ++ b'\r' ∷ b'\n' ∷ rest) ≡ some (length line)
unfolding search_two
search_two-found [] rest h = refl
search_two-found (x ∷ []) rest h = ground (arith, search_two-found [] rest tt)
search_two-found (x ∷ y ∷ line) rest h = ground (arith, search_two-found (y ∷ line) rest h.1)

pub drop-length : (xs ys : Bytes) → drop (length xs) (xs ++ ys) ≡ ys
drop-length [] ys = refl
drop-length (x ∷ xs) ys = drop-length xs ys

pub find_crlf_of :
    (b : Buffer) (i : ℕ)
    → search_two b'\r' b'\n' (contents b) ≡ some i
    → find_crlf b ≡ some (b.reader_index + i)
unfolding find_crlf
find_crlf_of b i e = rw (e, find_crlf)

-- No line is complete: the code finds no end.
pub find_crlf-none : (b : Buffer) → search_two b'\r' b'\n' (contents b) ≡ none → find_crlf b ≡ none
unfolding find_crlf
find_crlf-none b e = rw (e, find_crlf)

-- The next line of a buffer: the code finds its end, sees its bytes, and drops it with its CRLF.
pub record NextLine (line rest : Bytes) (b : Buffer) : Type 0 where
  pub found : find_crlf b ≡ some (b.reader_index + length line)
  pub text : range b b.reader_index (b.reader_index + length line) ≡ line
  pub left : Holds rest (retrieve_until (b.reader_index + length line + 2) b)

pub line-NextLine :
    (line rest : Bytes) (b : Buffer)
    → Lacks b'\r' line
    → Holds (line ++ b'\r' ∷ b'\n' ∷ rest) b
    → NextLine line rest b
line-NextLine line rest b h v =
    let n = length line in
    let total : length (contents b) ≡ n + (length rest + 2) =
      omega (arith, ap length v.holds, length-append line (b'\r' ∷ b'\n' ∷ rest)) in
    let held = length-contents v.valid in
    let at : b.reader_index + n - b.reader_index ≡ n = omega arith in
    record {
      found = find_crlf_of b n (ap (search_two b'\r' b'\n') v.holds ∙ search_two-found line rest h);
      text = rw at (
          sym (
            take-take n (b.writer_index - b.reader_index) (drop b.reader_index b.buffer)
              (omega arith))
          ∙ ap (take n) v.holds
          ∙ take-append_le n line (b'\r' ∷ b'\n' ∷ rest) (omega arith)
          ∙ take_of_length-le n line (omega arith));
      left =
          let e : b.reader_index + n + 2 ≡ b.reader_index + (n + 2) = omega arith in
          let two : n + 2 - n ≡ 2 = omega arith in
          let gone : drop (n + 2) (contents b) ≡ rest =
            ap (drop (n + 2)) v.holds
            ∙ rw (drop-append_ge (n + 2) line (b'\r' ∷ b'\n' ∷ rest) (omega arith), two) in
          rw e (rw gone at (retrieve_until-Holds (n + 2) b v.valid (omega arith)));
    }
