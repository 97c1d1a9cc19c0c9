-- ===== src/Http/ConversationTests.antt =====
-- Two requests on one connection.
use simple_http_server.Common.{
  ◌^◌, ◌<◌, ◌≡◌, refl, subst, sym, arith, false, [], ◌∷◌, ◌++◌, some, length,
}
use simple_http_server.Common.Bytes.{Bytes, codes}
use simple_http_server.Common.Decimal.{decimal}
use simple_http_server.Common.Outcome.{returned, ◌>>=◌}
use simple_http_server.Net.Buffer.{
  offered, init, read_fd, absorb, writable_bytes, copy_to, find_crlf, search_two, retrieve_until,
  append, ensure_writable_bytes, make_space, append_string, retrieve_all_as_string, retrieve_all,
  readable_bytes,
}
use simple_http_server.Net.Channel.{tie, is_writing}
use simple_http_server.Net.Poller.{enable_reading}
use simple_http_server.Net.Connection.{
  new_connection, connect_established, send, send_in_loop, finish_send, attempt_of, attempted,
}
use simple_http_server.Http.Request.{method_string}
use simple_http_server.Http.Response.{HttpResponse, StatusCode, number, append_to_buffer}
use simple_http_server.Http.Response.Render
use simple_http_server.Http.Context.{fresh, reset, parse_request, parse_loop, process_request_line}
use simple_http_server.Http.Server.{Callback, respond, on_request, on_message, written, wants_close}
use simple_http_server.Http.Samples.{
  home, home-IsWellFormed, client, takes_all, takes_all-IsOpen, client-IsSound, Then-returned,
}
use simple_http_server.Http.Session.{Session, read_event, http_message, perform}
use simple_http_server.Http.Session.Pieces.{gives, Then}
use simple_http_server.Http.Session.Reads.{Delivers}
use simple_http_server.Http.Session.Conversation.{
  Exchange, IsKept, converse, HasSpace, converse-Delivers,
}

abbrev hello : HttpResponse
hello = record {
  headers = [];
  status_code = StatusCode.ok;
  status_message = codes "OK";
  close_connection = false;
  body = codes "hi";
}

abbrev says_hello : Callback
says_hello request response = returned hello

abbrev start : Session
start = record { conn = client; context = some fresh }

abbrev once : Exchange
once = record {
  request = home;
  pieces = record { time = 4; bytes = codes "GET / HTTP/1.1\r\n\r\n" } ∷ [];
  response = hello;
}

hello-small : length (Render.render hello) < 2 ^ 30
unfolding decimal number
hello-small = omega arith

once-IsKept : IsKept says_hello once
unfolding method_string
once-IsKept = record {
  well_formed = home-IsWellFormed;
  whole = refl;
  cuts = tt;
  answers = λ time. refl;
  small = omega (arith, hello-small);
  kept = refl;
}

abbrev request_bytes : Bytes
request_bytes = codes "GET / HTTP/1.1\r\n\r\n"

-- Behind the first request: its bytes are still in the storage.
abbrev answered : Session
answered = record {
  conn = record client {
    input = record {
      buffer = client.input.buffer ++ request_bytes;
      reader_index = 8;
      writer_index = 8;
    };
    wire = Render.render hello;
  };
  context = some fresh;
}

first_answered : read_event says_hello takes_all (gives request_bytes) 4 start ≡ returned answered
unfolding connect_established new_connection read_event http_message on_message respond on_request
    written append_to_buffer append_string wants_close perform read_fd absorb writable_bytes copy_to
    parse_request parse_loop process_request_line find_crlf search_two retrieve_until append
    ensure_writable_bytes make_space decimal number send send_in_loop finish_send attempt_of
    attempted reset retrieve_all_as_string retrieve_all init tie enable_reading is_writing
    readable_bytes
first_answered = refl

twice-HasSpace : HasSpace says_hello takes_all (once ∷ once ∷ []) start
unfolding offered connect_established new_connection init
twice-HasSpace = (
  ((λ e. cc), omega arith, omega arith, Then-returned _),
  omega (arith, hello-small),
  subst (λ o. Then (HasSpace says_hello takes_all (once ∷ [])) (o >>= λ s. returned s))
      (sym first_answered)
      (
        ((λ e. cc), omega arith, omega arith, Then-returned _),
        omega (arith, hello-small),
        Then-returned _,
      ),
)

converse-Delivers_example :
    Delivers []
      (Render.render hello ++ (Render.render hello ++ []))
      false
      (converse says_hello takes_all (once ∷ once ∷ []) start)
unfolding connect_established new_connection
converse-Delivers_example =
    converse-Delivers says_hello takes_all (once ∷ once ∷ []) start []
      (once-IsKept, (once-IsKept, tt)) refl (record { valid = omega arith; holds = refl })
      twice-HasSpace takes_all-IsOpen refl client-IsSound
