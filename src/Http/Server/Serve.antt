-- ===== src/Http/Server/Serve.antt =====
-- A complete request is answered once, by the callback's response, and the parser starts afresh.
use simple_http_server.Common.{
  ℕ, ◌^◌, ◌<◌, ◌≡◌, refl, ◌∙◌, ap, arith, List, [], ◌∷◌, some, length, if◌then◌else◌,
  length-replicate,
}
use simple_http_server.Common.Bytes.{Bytes}
use simple_http_server.Common.Outcome.{returned, ◌>>=◌}
use simple_http_server.Net.Buffer.{Buffer, init, initial_size}
use simple_http_server.Net.Buffer.View.{init-IsValid}
use simple_http_server.Net.Buffer.Laws.{Holds, Fits, retrieve_all_as_string_lem}
use simple_http_server.Http.Request.{HttpRequest}
use simple_http_server.Http.Response.{HttpResponse, new_response}
use simple_http_server.Http.Response.Render.{render, append_to_buffer-render}
use simple_http_server.Http.Context.{fresh, reset}
use simple_http_server.Http.Context.Message.{Message, expected, IsWellFormed}
use simple_http_server.Http.Context.Message
use simple_http_server.Http.Context.RoundTrip.{parse_request-render}
use simple_http_server.Http.Server.{
  Callback, Call, send, shutdown, wants_close, written, on_request, respond, on_message,
}

written-render :
    (response : HttpResponse)
    → length (render response) < 2 ^ 31
    → written response ≡ returned (render response)
unfolding written
written-render response small =
    let valid = init-IsValid initial_size (omega arith) in
    let fits : Fits (length (render response)) (init initial_size) =
      unfold init in omega (arith, length-replicate {A = ℕ} 1032 0) in
    let w = append_to_buffer-render response (init initial_size) small valid fits in
    rw (w.succeeds, written)
      (ap returned
        ((retrieve_all_as_string_lem w.out w.holds.valid).0 ∙ w.holds.holds ∙ unfold init in refl))

-- The response, and the end of the connection if the response says so.
abbrev pub answer : HttpResponse → List Call
answer response =
    if response.close_connection
    then send (render response) ∷ shutdown ∷ []
    else send (render response) ∷ []

pub on_request-answer :
    (callback : Callback) (request : HttpRequest) (response : HttpResponse)
    → callback request (new_response (wants_close request)) ≡ returned response
    → length (render response) < 2 ^ 31
    → on_request callback request ≡ returned (answer response)
unfolding on_request
on_request-answer callback request response e small = rw (e, written-render response small)

-- A fresh context, and a valid buffer that holds a well-formed request with any bytes behind it;
-- the callback, given the parsed request and a response prepared to close as the request asks,
-- returns a response of fewer than 2 ^ 31 bytes. Then `onMessage` makes exactly these calls: it
-- sends the text of that response, and shuts down if that response closes; the context is fresh
-- again, and exactly the bytes behind the request are left in the buffer.
pub on_message-answer :
    (callback : Callback) (time : ℕ) (m : Message) (rest : Bytes) (b : Buffer)
    (response : HttpResponse)
    → IsWellFormed m
    → Holds (Message.render m rest) b
    → callback (expected time m) (new_response (wants_close (expected time m))) ≡ returned response
    → length (render response) < 2 ^ 31
    → (b' : Buffer) × (on_message callback time (some fresh) b
        ≡ returned (some fresh, b', answer response))
      × Holds rest b'
unfolding on_message
on_message-answer callback time m rest b response w v e small =
    let (b', parsed, left) = parse_request-render time m rest b w v in
    (
      b',
      ap (λ o. o >>= respond callback) parsed
          ∙ rw (on_request-answer callback (expected time m) response e small)
              (unfold reset in refl),
      left,
    )
