-- ===== src/Http/Response/Length.antt =====
-- Numbers as the responses print them, and as the parser reads them.
use simple_http_server.Common.{ℕ, ◌^◌, ◌<◌, ◌≡◌, arith, true, [], ◌∷◌, length}
use simple_http_server.Common.Bytes.{Bytes}
use simple_http_server.Common.Outcome.{returned, pos}
use simple_http_server.Http.Request.{skip_spaces}
use simple_http_server.Http.Context.Stoi.{stoi, unsigned_part}
use simple_http_server.Common.Decimal.{
  AllDigits, digits-Prints, digits, decimal, digits_value, starts_with_digit,
}

stoi-AllDigits :
    (text : Bytes)
    → AllDigits text
    → 0 < length text
    → digits_value 0 text < 2 ^ 31
    → stoi text ≡ returned (pos (digits_value 0 text))
unfolding stoi
stoi-AllDigits [] h k small = absurd (omega arith)
stoi-AllDigits (c ∷ cs) h k small =
    let digit : starts_with_digit (c ∷ cs) ≡ true = unfold starts_with_digit in ground arith in
    let unspaced : skip_spaces (c ∷ cs) ≡ c ∷ cs = unfold skip_spaces in ground arith in
    let unsigned : unsigned_part (c ∷ cs) ≡ returned (pos (digits_value 0 (c ∷ cs))) =
      ground (arith, digit) in
    rw unspaced (ground (arith, unsigned))

-- The length that a response announces is the one that a request parser reads from it: for every
-- body of fewer than 2 ^ 31 bytes, `stoi` gives back what `%zd` has printed.
pub stoi-decimal : (n : ℕ) → n < 2 ^ 31 → stoi (decimal n) ≡ returned (pos n)
unfolding decimal
stoi-decimal n h =
    let p = digits-Prints 20 n (omega arith) in
    rw p.value at (stoi-AllDigits (digits 20 n) p.all p.some_digit (omega (arith, p.value)))
