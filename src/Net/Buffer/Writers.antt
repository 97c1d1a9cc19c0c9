-- ===== src/Net/Buffer/Writers.antt =====
-- Chains of appends: each writes its text behind what the buffer holds.
use simple_http_server.Common.{
  ◌+◌, ◌^◌, ◌<◌, ◌≤◌, ◌≡◌, refl, arith, sym, ap, ◌∙◌, [], ◌++◌, Option, some, ◌>>=◌, length,
  length-append, append_assoc, append-nil,
}
use simple_http_server.Common.Bytes.{Bytes}
use simple_http_server.Net.Buffer.{Buffer, append, append_string}
use simple_http_server.Net.Buffer.View.{IsValid, contents}
use simple_http_server.Net.Buffer.Laws.{
  Holds, Fits, append-Holds, append_string_lem, length-append_buffer,
}

-- The writer succeeds, and the new buffer holds the old bytes with the text behind them.
pub record Wrote (text : Bytes) (b : Buffer) (o : Option Buffer) : Type 0 where
  pub out : Buffer
  pub succeeds : o ≡ some out
  pub holds : Holds (contents b ++ text) out
  pub grown : length out.buffer ≤ length b.buffer + length text

-- It does so for every valid buffer with address space for a text of fewer than 2 ^ 31 bytes.
pub record Writes (text : Bytes) (f : Buffer → Option Buffer) : Type 0 where
  pub run :
      (b : Buffer) → length text < 2 ^ 31 → IsValid b → Fits (length text) b → Wrote text b (f b)

pub append_string-Writes : (text : Bytes) → Writes text (append_string text)
append_string-Writes text = record {
  run = λ b small v h. record {
    out = append text b;
    succeeds = append_string_lem text b small;
    holds = append-Holds text b v h;
    grown = length-append_buffer text b v h;
  };
}

pub nothing-Writes : Writes [] some
nothing-Writes = record {
  run = λ b small v h. record {
    out = b;
    succeeds = refl;
    holds = record { valid = v; holds = sym (append-nil (contents b)) };
    grown = omega arith;
  };
}

pub bind-Writes :
    (s t : Bytes) (f g : Buffer → Option Buffer)
    → Writes s f
    → Writes t g
    → Writes (s ++ t) (λ b. f b >>= g)
bind-Writes s t f g p q = record {
  run = λ b small v h.
      let total = length-append s t in
      let w = p.run b (omega (arith, total)) v (omega (arith, total)) in
      let z = q.run w.out (omega (arith, total)) w.holds.valid (omega (arith, total, w.grown)) in
      record {
        out = z.out;
        succeeds = rw (w.succeeds) (z.succeeds);
        holds = record {
          valid = z.holds.valid;
          holds = z.holds.holds ∙ ap (λ u. u ++ t) w.holds.holds ∙ append_assoc (contents b) s t;
        };
        grown = omega (arith, total, w.grown, z.grown);
      };
}
