-- ===== src/Http/Context/RoundTrip.antt =====
-- A whole request in the buffer is parsed into its fields, and what stands behind it is left.
use simple_http_server.Common.{
  ℕ, zero, suc, ◌+◌, ◌-◌, ◌≤◌, ◌≡◌, refl, sym, arith, ◌∙◌, ap, ap₂, subst, Bool, true, List, [],
  ◌∷◌, ◌++◌, some, length, take, drop, length-append, take-append_le, take_of_length-le,
  drop-append_ge,
}
use simple_http_server.Common.Bytes.{Bytes}
use simple_http_server.Common.Outcome.{Outcome, returned, ◌>>=◌, pos}
use simple_http_server.Net.Buffer.{Buffer, search_two}
use simple_http_server.Net.Buffer.Laws.{Holds}
use simple_http_server.Http.Request.{
  HttpRequest, Method, post, add_header, get_header, empty_request,
}
use simple_http_server.Http.Context.{
  HttpContext, expect_headers, expect_body, got_all, fresh, split_at, parse_request,
}
use simple_http_server.Http.Context.Lines.{
  Lacks-append, split_at-found, search_two-found, drop-length,
}
use simple_http_server.Http.Context.Message.{
  Message, crlf, request_line, render_headers, render, gathered, expected, WellFormedHeaders,
  HasLength, IsWellFormed,
}
use simple_http_server.Http.Context.RequestLine.{
  process_request_line-request_line, request_line-Lacks,
}
use simple_http_server.Http.Context.Text.{
  goes_on, stops, request_line_move, ended, headers_move, take_body, body_move, move, follow,
  Parsed, text_loop, parse_text,
}
use simple_http_server.Http.Context.Agreement.{Agrees, parse_request-Agrees}

-- The call returns `true` with this request complete, and leaves these bytes in the buffer.
abbrev pub Finishes : HttpRequest → Bytes → Outcome (Bool × HttpContext × Buffer) → Type 0
Finishes r rest o =
    (b : Buffer) × (o ≡ returned (true, record { state = got_all; request = r }, b)) × Holds rest b

-- The parse of a text comes to this request, complete, and leaves these bytes.
abbrev pub complete : HttpRequest → Bytes → Outcome Parsed
complete r rest = returned (some (true, record { state = got_all; request = r }, rest))

take_line : (line tail : Bytes) → take (length line) (line ++ crlf tail) ≡ line
take_line line tail =
    take-append_le (length line) line (crlf tail) (omega arith)
    ∙ take_of_length-le (length line) line (omega arith)

drop_line : (line tail : Bytes) → drop (length line + 2) (line ++ crlf tail) ≡ tail
drop_line line tail =
    let two : length line + 2 - length line ≡ 2 = omega arith in
    drop-append_ge (length line + 2) line (crlf tail) (omega arith) ∙ rw two refl

sized_body :
    (body rest : Bytes) (c : HttpContext)
    → take_body (pos (length body)) c (body ++ rest)
      ≡ returned (
          stops true
            (record { state = got_all; request = record (c.request) { body = body } })
            rest)
unfolding take_body
sized_body body rest c =
    let bound : length body ≤ length (body ++ rest) = omega (arith, length-append body rest) in
    ground (
      arith,
      bound,
      drop-length body rest,
      take-append_le (length body) body rest (omega arith),
      take_of_length-le (length body) body (omega arith),
    )

no_body :
    (r : HttpRequest) (body rest : Bytes)
    → r.body ≡ []
    → body ≡ []
    → complete r (body ++ rest) ≡ complete (record r { body = body }) rest
no_body r body rest none_yet nothing =
    let same : record r { body = body } ≡ r = ground arith in
    ap₂ complete (sym same) (ap (λ xs. xs ++ rest) nothing)

ended_text :
    (m : Method) (time fuel : ℕ) (r : HttpRequest) (body rest : Bytes)
    → r.body ≡ []
    → HasLength m body (record empty_request { headers = r.headers })
    → follow
        (text_loop (suc fuel) time)
        (ended m (record { state = expect_headers; request = r }) (body ++ rest))
      ≡ complete (record r { body = body }) rest
unfolding text_loop move body_move get_header
ended_text post time fuel r body rest none_yet sized =
    let c : HttpContext = record { state = expect_body; request = r } in
    ap (λ o. o >>= (λ len. take_body len c (body ++ rest)) >>= follow (text_loop fuel time)) sized
    ∙ ap (λ o. o >>= follow (text_loop fuel time)) (sized_body body rest c)
ended_text _ time fuel r body rest none_yet nothing = no_body r body rest none_yet nothing

-- The blank line, and the body behind it.
text_ending :
    (m : Method) (time fuel : ℕ) (r : HttpRequest) (body rest : Bytes)
    → r.method ≡ m
    → r.body ≡ []
    → HasLength m body (record empty_request { headers = r.headers })
    → text_loop
        (suc (suc fuel))
        time
        (record { state = expect_headers; request = r })
        (crlf (body ++ rest))
      ≡ complete (record r { body = body }) rest
unfolding text_loop move headers_move search_two split_at
text_ending m time fuel r body rest e none_yet sized =
    let c : HttpContext = record { state = expect_headers; request = r } in
    subst
      (λ k.
        follow (text_loop (suc fuel) time) (ended k c (body ++ rest))
        ≡ complete (record r { body = body }) rest)
      (sym e) (ended_text m time fuel r body rest none_yet sized)

text_headers :
    (hs : List (Bytes × Bytes)) (time fuel : ℕ) (r : HttpRequest) (body rest : Bytes)
    → length hs + 2 ≤ fuel
    → WellFormedHeaders hs
    → r.body ≡ []
    → HasLength r.method body (record empty_request { headers = gathered hs r.headers })
    → text_loop fuel time
        (record { state = expect_headers; request = r })
        (render_headers hs (body ++ rest))
      ≡ complete (record r { headers = gathered hs r.headers; body = body }) rest
unfolding text_loop move headers_move add_header
text_headers [] time zero r body rest enough w none_yet sized = absurd (omega arith)
text_headers [] time (suc zero) r body rest enough w none_yet sized = absurd (omega arith)
text_headers [] time (suc (suc fuel)) r body rest enough w none_yet sized =
    text_ending r.method time fuel r body rest refl none_yet sized
text_headers (h ∷ hs) time zero r body rest enough w none_yet sized = absurd (omega arith)
text_headers ((field, value) ∷ hs) time (suc fuel) r body rest enough w none_yet sized =
    let line = field ++ b':' ∷ value in
    let tail = render_headers hs (body ++ rest) in
    let lacks = Lacks-append b'\r' field (b':' ∷ value) w.0.1 (omega arith, w.0.2) in
    rw
      (
        search_two-found line tail lacks,
        headers_move,
        take_line line tail,
        split_at-found b':' field value w.0.0,
        headers_move,
        drop_line line tail,
      )
      (text_headers hs time fuel (add_header field value r) body rest (omega arith) w.1 none_yet
        sized)

header_count :
    (hs : List (Bytes × Bytes)) (rest : Bytes) → length hs + 2 ≤ length (render_headers hs rest)
header_count [] rest = omega arith
header_count ((field, value) ∷ hs) rest = omega (
  arith,
  header_count hs rest,
  length-append (field ++ b':' ∷ value) (crlf (render_headers hs rest)),
)

-- The text of a well-formed request, parsed by a fresh parser.
pub parse_text-render :
    (time : ℕ) (m : Message) (rest : Bytes)
    → IsWellFormed m
    → parse_text time fresh (render m rest) ≡ complete (expected time m) rest
unfolding parse_text text_loop move request_line_move
parse_text-render time m rest w =
    let line = request_line m in
    let tail = render_headers m.headers (m.body ++ rest) in
    let start = record empty_request {
      method = m.method;
      version = m.version;
      path = m.path;
      query = m.query;
      receive_time = time;
    } in
    let enough : length m.headers + 2 ≤ length (render m rest) + 1 =
      omega (arith, header_count m.headers (m.body ++ rest), length-append line (crlf tail)) in
    let more : length (render m rest) + 2 ≡ suc (length (render m rest) + 1) = omega arith in
    let first : request_line_move time fresh (render m rest)
        ≡ returned (goes_on (record { state = expect_headers; request = start }) tail) =
      rw
        (
          search_two-found line tail (request_line-Lacks m w),
          request_line_move,
          take_line line tail,
          process_request_line-request_line m w,
          drop_line line tail,
        )
        refl in
    ap (λ f. text_loop f time fresh (render m rest)) more
    ∙ ap (λ o. o >>= follow (text_loop (length (render m rest) + 1) time)) first
    ∙ text_headers m.headers time (length (render m rest) + 1) start m.body rest enough
        w.header_lines refl w.sized

-- A fresh parser, a valid buffer, and in it a well-formed request with any bytes behind: the call
-- returns `true` with the request complete (method, path, query, version, headers, body and the
-- time of receipt), and exactly the bytes behind the request stay in the buffer. The fuel suffices.
pub parse_request-render :
    (time : ℕ) (m : Message) (rest : Bytes) (b : Buffer)
    → IsWellFormed m
    → Holds (render m rest) b
    → Finishes (expected time m) rest (parse_request time fresh b)
parse_request-render time m rest b w v =
    subst (λ p. Agrees p (parse_request time fresh b)) (parse_text-render time m rest w)
      (parse_request-Agrees time fresh (render m rest) b v)
