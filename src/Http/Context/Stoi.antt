-- ===== src/Http/Context/Stoi.antt =====
-- `std::stoi`, which reads the length of a body.
use simple_http_server.Common.{ℕ, zero, suc, ◌^◌, [], ◌∷◌, leb, ltb, ◌==◌, if◌then◌else◌}
use simple_http_server.Common.Bytes.{Bytes}
use simple_http_server.Common.Decimal.{digits_value, starts_with_digit}
use simple_http_server.Common.Outcome.{
  Outcome, returned, faulted, invalid_argument, out_of_range, ℤ, pos, negsuc,
}
use simple_http_server.Http.Request.{skip_spaces}

abbrev pub negated : ℕ → ℤ
negated zero = pos 0
negated (suc n) = negsuc n

-- An `int` has 32 bits.
unfoldable pub unsigned_part : Bytes → Outcome ℤ
unfolding digits_value starts_with_digit
unsigned_part cs =
    if starts_with_digit cs
    then if ltb (digits_value 0 cs) (2 ^ 31)
      then returned (pos (digits_value 0 cs))
      else faulted out_of_range
    else faulted invalid_argument

unfoldable pub negative_part : Bytes → Outcome ℤ
unfolding digits_value starts_with_digit
negative_part cs =
    if starts_with_digit cs
    then if leb (digits_value 0 cs) (2 ^ 31)
      then returned (negated (digits_value 0 cs))
      else faulted out_of_range
    else faulted invalid_argument

unfoldable pub signed_part : Bytes → Outcome ℤ
unfolding unsigned_part negative_part
signed_part [] = faulted invalid_argument
signed_part (c ∷ cs) =
    if c == b'-'
    then negative_part cs
    else if c == b'+'
    then unsigned_part cs
    else unsigned_part (c ∷ cs)

unfoldable pub stoi : Bytes → Outcome ℤ
unfolding signed_part skip_spaces
stoi text = signed_part (skip_spaces text)
