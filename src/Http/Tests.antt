-- ===== src/Http/Tests.antt =====
-- The parser, the responses and the server at concrete requests.
use simple_http_server.Common.{
  ◌^◌, ◌<◌, ◌+◌, ◌≡◌, refl, arith, false, [], ◌∷◌, ◌++◌, some, length, inr,
}
use simple_http_server.Common.Bytes.{Bytes, codes, equal}
use simple_http_server.Common.Decimal.{decimal}
use simple_http_server.Common.Outcome.{Ends, Settles, returned, faulted, assertion_failed, pos}
use simple_http_server.Net.Buffer.{Buffer}
use simple_http_server.Net.Buffer.Laws.{Holds, Fits}
use simple_http_server.Net.Buffer.Writers.{Wrote}
use simple_http_server.Http.Headers.{assign, find, less}
use simple_http_server.Http.Request.{
  HttpRequest, Method, Version, get_header, trimmed, method_string, empty_request,
}
use simple_http_server.Http.Response.{HttpResponse, StatusCode, number, append_to_buffer}
use simple_http_server.Http.Response.Render
use simple_http_server.Http.Response.Render.{append_to_buffer-render}
use simple_http_server.Http.Context.{fresh, parse_request, process_request_line, split_at}
use simple_http_server.Http.Context.Stoi.{stoi}
use simple_http_server.Http.Context.Message
use simple_http_server.Http.Context.Message.{Message, expected, IsWellFormed, crlf}
use simple_http_server.Http.Server.Ready.{IsReady, on_message-Ends}
use simple_http_server.Http.Context.RoundTrip.{Finishes, parse_request-render}
use simple_http_server.Http.Server.{default_http_callback, bad_request, on_message}
use simple_http_server.Http.Server.Reject.{waiting, on_message-reject, on_message-reject_twice}

abbrev login_post : Message
login_post = record {
  method = Method.post;
  path = codes "/in";
  query = codes "?x";
  version = Version.http11;
  headers = (codes "Content-Length", codes " 3 ") ∷ (codes "Host", codes "h") ∷ [];
  body = codes "a=b";
}

login_post-length :
    stoi (get_header (codes "Content-Length") (expected 0 login_post)) ≡ returned (pos 3)
unfolding stoi get_header assign trimmed find less equal
login_post-length = refl

login_post-IsWellFormed : IsWellFormed login_post
unfolding get_header
login_post-IsWellFormed = record {
  known = λ e. cc;
  versioned = inr refl;
  path_space = ground arith;
  path_question = ground arith;
  path_return = ground arith;
  query_question = refl;
  query_space = ground arith;
  query_return = ground arith;
  header_lines = ground arith;
  sized = login_post-length;
}

-- The storage of a buffer that has been read up to `start`, with these bytes to read.
abbrev holding : Bytes → Buffer
holding bytes = record {
  buffer = 0 ∷ 0 ∷ 0 ∷ 0 ∷ 0 ∷ 0 ∷ 0 ∷ 0 ∷ bytes;
  reader_index = 8;
  writer_index = 8 + length bytes;
}

abbrev pipelined : Bytes
pipelined = Message.render login_post (codes "GET")

pipelined-Holds : Holds (Message.render login_post (codes "GET")) (holding pipelined)
unfolding method_string
pipelined-Holds = record { valid = omega arith; holds = refl }

parse_request-render_example :
    Finishes (expected 77 login_post) (codes "GET") (parse_request 77 fresh (holding pipelined))
parse_request-render_example =
    parse_request-render 77 login_post (codes "GET") (holding pipelined) login_post-IsWellFormed
      pipelined-Holds

abbrev bad_version : Bytes
bad_version = codes "GET / HTTP/2.0"

abbrev after_bad_version : HttpRequest
after_bad_version = record empty_request { method = Method.get; path = codes "/" }

bad_version-refused :
    process_request_line bad_version empty_request ≡ returned (false, after_bad_version)
unfolding process_request_line split_at
bad_version-refused = refl

on_message-reject_example :
    let b = holding (bad_version ++ crlf []) in
    on_message default_http_callback 5 (some fresh) b
    ≡ returned (some (waiting after_bad_version), b, bad_request)
on_message-reject_example =
    on_message-reject default_http_callback 5 bad_version [] (holding (bad_version ++ crlf []))
      after_bad_version (ground arith) (record { valid = omega arith; holds = refl })
      bad_version-refused

on_message-reject_twice_example :
    on_message default_http_callback 6
      (some (waiting after_bad_version))
      (holding ((bad_version ++ crlf []) ++ codes "Host: h"))
    ≡ faulted assertion_failed
on_message-reject_twice_example =
    on_message-reject_twice default_http_callback 6 bad_version [] (codes "Host: h")
      (holding ((bad_version ++ crlf []) ++ codes "Host: h")) after_bad_version (ground arith)
      bad_version-refused (λ e. cc) (record { valid = omega arith; holds = refl })

abbrev small_page : HttpResponse
small_page = record {
  headers = (codes "Content-Type", codes "text/html") ∷ [];
  status_code = StatusCode.ok;
  status_message = codes "OK";
  close_connection = false;
  body = codes "<p>";
}

append_to_buffer-render_example :
    Wrote (Render.render small_page) (holding []) (append_to_buffer small_page (holding []))
append_to_buffer-render_example =
    append_to_buffer-render small_page (holding []) small_page_small (omega arith) small_page_fits
  where
    small_page_small : length (Render.render small_page) < 2 ^ 31
    small_page_small = unfold decimal in unfold number in omega arith

    small_page_fits : Fits (length (Render.render small_page)) (holding [])
    small_page_fits = unfold decimal in unfold number in omega arith

-- A line without its end: the parser waits.
on_message-Ends_example :
    Ends IsReady (on_message default_http_callback 5 (some fresh) (holding pipelined))
on_message-Ends_example =
    on_message-Ends default_http_callback 5 fresh (holding pipelined) default_settles (λ e. cc)
      pipelined-Holds.valid
  where
    default_settles : (q : HttpRequest) (r : HttpResponse) → Settles (default_http_callback q r)
    default_settles q r = unfold default_http_callback in tt
