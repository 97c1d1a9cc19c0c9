-- ===== src/Http/Server/Ready.antt =====
-- `onMessage` always ends, and leaves the connection ready for the next message.
use simple_http_server.Common.{
  ℕ, ◌≡◌, ◌≢◌, refl, Bool, List, Option, some, none, inl, inr, Option-cases,
}
use simple_http_server.Common.Outcome.{
  Outcome, returned, faulted, running, ◌>>=◌, Settles, Ends, bind-Ends,
}
use simple_http_server.Net.Buffer.{Buffer, init, initial_size}
use simple_http_server.Net.Buffer.View.{IsValid}
use simple_http_server.Http.Request.{HttpRequest}
use simple_http_server.Http.Response.{HttpResponse, new_response, append_to_buffer}
use simple_http_server.Http.Context.{
  ParseState, expect_request_line, expect_headers, expect_body, got_all, HttpContext, reset,
  parse_request,
}
use simple_http_server.Http.Context.Progress.{LeavesValid, parse_request-Ends}
use simple_http_server.Http.Server.{
  Callback, Call, wants_close, written, on_request, respond, on_message,
}

-- The connection has a parser that is not at its end, and a valid input buffer.
abbrev pub IsReady : Option HttpContext × Buffer × List Call → Type 0
IsReady (none, b, calls) = ⊥
IsReady (some c, b, calls) = (c.state ≢ got_all) × IsValid b

written-Settles : (response : HttpResponse) → Settles (written response)
unfolding written
written-Settles response = elim (Option-cases (append_to_buffer response (init initial_size))) [
  | inl e ↦ rw (e, written) tt
  | inr (b, e) ↦ rw (e, written) tt
]

on_request-Settles :
    (callback : Callback) (request : HttpRequest)
    → Settles (callback request (new_response (wants_close request)))
    → Settles (on_request callback request)
unfolding on_request
on_request-Settles callback request s =
    bind-Ends (λ _. Unit) (callback request (new_response (wants_close request))) _ s
      (λ response. bind-Ends (λ _. Unit) (written response) _ (written-Settles response) (λ _. tt))

respond_in :
    (callback : Callback) (ok : Bool) (c : HttpContext) (b : Buffer) (s : ParseState)
    → c.state ≡ s
    → ((q : HttpRequest) (r : HttpResponse) → Settles (callback q r))
    → IsValid b
    → Ends IsReady (respond callback (ok, c, b))
unfolding respond reset
respond_in callback ok c b got_all e settles v = rw e (
    bind-Ends IsReady (on_request callback c.request) _
      (on_request-Settles callback c.request
        (settles c.request (new_response (wants_close c.request))))
      (λ calls. ((λ k. cc), v)))
respond_in callback ok c b expect_request_line e settles v = rw e ((λ k. cc), v)
respond_in callback ok c b expect_headers e settles v = rw e ((λ k. cc), v)
respond_in callback ok c b expect_body e settles v = rw e ((λ k. cc), v)

after_parsing :
    (callback : Callback)
    → ((q : HttpRequest) (r : HttpResponse) → Settles (callback q r))
    → (o : Outcome (Bool × HttpContext × Buffer)) → Ends LeavesValid o
    → Ends IsReady (o >>= respond callback)
after_parsing callback settles (returned (ok, c, b)) v =
    respond_in callback ok c b c.state refl settles v
after_parsing callback settles (faulted e) v = tt
after_parsing callback settles running v = absurd v

-- With a callback that always ends, a connection that is ready, and any bytes in its buffer:
-- `onMessage` is never caught in the loop of the parser; it stops with a fault, or returns and
-- leaves the connection ready, so that the next message may come in.
pub on_message-Ends :
    (callback : Callback) (time : ℕ) (c : HttpContext) (b : Buffer)
    → ((q : HttpRequest) (r : HttpResponse) → Settles (callback q r))
    → c.state ≢ got_all
    → IsValid b
    → Ends IsReady (on_message callback time (some c) b)
unfolding on_message
on_message-Ends callback time c b settles live v =
    after_parsing callback settles (parse_request time c b) (parse_request-Ends time c b live v)
