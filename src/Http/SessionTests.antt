-- ===== src/Http/SessionTests.antt =====
-- A session at concrete requests.
use simple_http_server.Common.{
  ◌^◌, ◌<◌, ◌≤◌, ◌≡◌, refl, arith, ap, subst, sym, true, List, [], ◌∷◌, some, length, inr,
}
use simple_http_server.Common.Bytes.{Bytes, codes}
use simple_http_server.Common.Decimal.{decimal}
use simple_http_server.Common.Outcome.{Ends, Settles, returned}
use simple_http_server.Net.Buffer.{
  Buffer, ReadResult, got, read_error, offered, read_fd, absorb, writable_bytes, copy_to, append,
  ensure_writable_bytes, make_space, find_crlf, search_two, retrieve_until, init,
}
use simple_http_server.Net.Poller.{new_poller}
use simple_http_server.Net.Connection.{new_connection, connect_established}
use simple_http_server.Http.Request.{HttpRequest, Method, Version, method_string, empty_request}
use simple_http_server.Http.Response.{HttpResponse, StatusCode, number}
use simple_http_server.Http.Response.Render
use simple_http_server.Http.Context.{
  HttpContext, expect_headers, fresh, parse_request, parse_loop, process_request_line,
}
use simple_http_server.Http.Context.Message.{Message, expected, IsWellFormed}
use simple_http_server.Http.Context.Message
use simple_http_server.Http.Server.{default_http_callback, on_connection, respond, on_message}
use simple_http_server.Http.Samples.{
  empty_input, client, takes_all, takes_all-IsOpen, client-IsSound, Then-returned,
}
use simple_http_server.Http.Session.{Session, perform, establish, http_message, read_event}
use simple_http_server.Http.Session.Ready.{HasContext, Reading, Life, established, read, Life-reads}
use simple_http_server.Http.Session.Pieces.{Piece, gives, reads, joined, HasRoom, Then, Answers}
use simple_http_server.Http.Session.Reads.{Delivers, reads-Delivers}

abbrev home : Message
home = record {
  method = Method.get;
  path = codes "/";
  query = [];
  version = Version.http11;
  headers = (codes "A", codes "b") ∷ [];
  body = [];
}

home-IsWellFormed : IsWellFormed home
home-IsWellFormed = record {
  known = λ e. cc;
  versioned = inr refl;
  path_space = ground arith;
  path_question = ground arith;
  path_return = ground arith;
  query_question = tt;
  query_space = tt;
  query_return = tt;
  header_lines = ground arith;
  sized = refl;
}

-- The first piece ends within the header, the second with a byte of the next request.
abbrev first_piece : Piece
first_piece = record { time = 4; bytes = codes "GET / HTTP/1.1\r\nA" }

abbrev second_piece : Piece
second_piece = record { time = 5; bytes = codes ":b\r\n\r\nG" }

abbrev both : List Piece
both = first_piece ∷ second_piece ∷ []

both_joined : joined both ≡ Message.render home (codes "G")
unfolding method_string
both_joined = refl

abbrev within_headers : HttpContext
within_headers = record {
  state = expect_headers;
  request = record empty_request {
    method = Method.get;
    path = codes "/";
    version = Version.http11;
    receive_time = 4;
  };
}

abbrev half_read : Buffer
half_read = record (absorb first_piece.bytes empty_input) { reader_index = 24 }

first_read :
    read_event default_http_callback takes_all
      (gives first_piece.bytes)
      4
      (record { conn = client; context = some fresh })
    ≡ returned
        (record { conn = record client { input = half_read }; context = some within_headers })
unfolding read_event http_message on_message respond perform read_fd absorb writable_bytes copy_to
    parse_request parse_loop process_request_line find_crlf search_two retrieve_until append
    ensure_writable_bytes make_space
first_read = refl

both-HasRoom :
    HasRoom default_http_callback takes_all both (record { conn = client; context = some fresh })
unfolding offered absorb append copy_to ensure_writable_bytes make_space
both-HasRoom = (
  λ e. cc,
  omega arith,
  omega arith,
  subst (Then (HasRoom default_http_callback takes_all (second_piece ∷ []))) (sym first_read)
      ((λ e. cc), omega arith, omega arith, Then-returned _),
)

abbrev not_found : HttpResponse
not_found = record {
  headers = [];
  status_code = StatusCode.not_found;
  status_message = codes "Not Found";
  close_connection = true;
  body = [];
}

home_answered : Answers default_http_callback (λ time. expected time home) not_found
unfolding default_http_callback
home_answered time = refl

not_found-small : length (Render.render not_found) < 2 ^ 30
unfolding decimal number
not_found-small = omega arith

reads-Delivers_example :
    Delivers
      (codes "G")
      (Render.render not_found)
      true
      (reads default_http_callback takes_all both (record { conn = client; context = some fresh }))
unfolding connect_established new_connection init
reads-Delivers_example =
    reads-Delivers default_http_callback takes_all home (codes "G") not_found both client []
      home-IsWellFormed both_joined (omega arith, tt) home_answered (omega (arith, not_found-small))
      (record { valid = omega arith; holds = refl }) both-HasRoom takes_all-IsOpen refl
      (omega (arith, not_found-small)) client-IsSound

-- A session that has taken the first piece in.
abbrev half : Session
half = record { conn = record client { input = half_read }; context = some within_headers }

default_http_callback-Settles :
    (q : HttpRequest) (p : HttpResponse) → Settles (default_http_callback q p)
unfolding default_http_callback
default_http_callback-Settles q p = tt

half-Life : Life default_http_callback half
unfolding establish on_connection connect_established offered
half-Life =
    read takes_all (gives first_piece.bytes) 4 (record { bounded = brought; fits = omega arith })
      first_read
      (established (record (new_connection 1 5 new_poller) { input = empty_input }) (omega arith))
  where
    moved : ReadResult → Bytes
    moved (got bytes) = bytes
    moved (read_error e) = []

    brought :
        (bytes : Bytes)
        → gives first_piece.bytes (offered empty_input) ≡ got bytes
        → length bytes ≤ offered empty_input
    brought bytes e = omega (arith, ap (λ r. length (moved r)) e)

half-Reading : Reading (gives second_piece.bytes) half
unfolding offered absorb append copy_to ensure_writable_bytes make_space
half-Reading = record {
  bounded = λ bytes e. omega (arith, ap (λ r. length (moved r)) e);
  fits = omega arith;
}
  where
    moved : ReadResult → Bytes
    moved (got bytes) = bytes
    moved (read_error e) = []

Life-reads_example :
    HasContext half
    × Ends HasContext (read_event default_http_callback takes_all (gives second_piece.bytes) 5 half)
Life-reads_example =
    Life-reads default_http_callback half takes_all (gives second_piece.bytes) 5
      default_http_callback-Settles half-Life half-Reading
