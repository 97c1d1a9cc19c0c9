-- ===== src/Http/Context/Settles.antt =====
-- The functions without loops always end.
use simple_http_server.Common.{arith, [], ◌∷◌, inl, inr, Option-cases}
use simple_http_server.Common.Bytes.{Bytes}
use simple_http_server.Common.Outcome.{Settles, bind-Ends}
use simple_http_server.Http.Request.{HttpRequest, set_method, skip_spaces}
use simple_http_server.Http.Context.Stoi.{stoi, signed_part, unsigned_part, negative_part}
use simple_http_server.Http.Context.{split_at, process_request_line}

set_method-Settles : (r : HttpRequest) (m : Bytes) → Settles (set_method r m)
unfolding set_method
set_method-Settles r m = ground arith

pub process_request_line-Settles :
    (line : Bytes) (r : HttpRequest) → Settles (process_request_line line r)
unfolding process_request_line
process_request_line-Settles line r = elim (Option-cases (split_at b' ' line)) [
  | inl e ↦ rw (e, process_request_line) tt
  | inr ((method, rest), e) ↦
      rw (e, process_request_line)
        (bind-Ends (λ _. Unit) (set_method r method) _ (set_method-Settles r method) (λ _. tt))
]

unsigned_part-Settles : (cs : Bytes) → Settles (unsigned_part cs)
unfolding unsigned_part
unsigned_part-Settles cs = ground arith

negative_part-Settles : (cs : Bytes) → Settles (negative_part cs)
unfolding negative_part
negative_part-Settles cs = ground arith

signed_part-Settles : (cs : Bytes) → Settles (signed_part cs)
unfolding signed_part
signed_part-Settles [] = tt
signed_part-Settles (c ∷ cs) =
    ground
      (arith, unsigned_part-Settles (c ∷ cs), unsigned_part-Settles cs, negative_part-Settles cs)

pub stoi-Settles : (text : Bytes) → Settles (stoi text)
unfolding stoi
stoi-Settles text = signed_part-Settles (skip_spaces text)
