-- ===== src/Http/Response.antt =====
-- mymuduo/http/HttpResponse.h and HttpResponse.cpp: a response, and its bytes on the wire.
pub mod Render
pub mod Length
use simple_http_server.Common.{
  ℕ, zero, suc, ◌+◌, ◌/◌, ◌%◌, Bool, true, false, List, [], ◌∷◌, ◌++◌, Option, some, ltb,
  if◌then◌else◌, ◌>>=◌, length, take,
}
use simple_http_server.Common.Bytes.{Bytes, codes}
use simple_http_server.Common.Decimal.{decimal}
use simple_http_server.Net.Buffer.{Buffer, append_string}
use simple_http_server.Http.Headers.{Headers, assign}

pub data StatusCode : Type 0 where
  unknown ok moved_permanently bad_request not_found : StatusCode

-- The values of `HttpStatusCode`.
unfoldable pub number : StatusCode → ℕ
number unknown = 0
number ok = 200
number moved_permanently = 301
number bad_request = 400
number not_found = 404

pub record HttpResponse : Type 0 where
  pub headers : Headers
  pub status_code : StatusCode
  pub status_message : Bytes
  pub close_connection : Bool
  pub body : Bytes

-- `HttpResponse(close)`
abbrev pub new_response : Bool → HttpResponse
new_response close = record {
  headers = [];
  status_code = unknown;
  status_message = [];
  close_connection = close;
  body = [];
}

unfoldable pub set_status_code : StatusCode → HttpResponse → HttpResponse
set_status_code code r = record r { status_code = code }

unfoldable pub set_status_message : Bytes → HttpResponse → HttpResponse
set_status_message message r = record r { status_message = message }

unfoldable pub set_close_connection : Bool → HttpResponse → HttpResponse
set_close_connection on r = record r { close_connection = on }

unfoldable pub add_header : Bytes → Bytes → HttpResponse → HttpResponse
add_header key value r = record r { headers = assign key value r.headers }

unfoldable pub set_content_type : Bytes → HttpResponse → HttpResponse
unfolding add_header
set_content_type content_type r = add_header (codes "Content-Type") content_type r

unfoldable pub set_body : Bytes → HttpResponse → HttpResponse
set_body body r = record r { body = body }

-- `snprintf` into the 32 bytes of `buf` keeps 31 of them.
abbrev pub printed : Bytes → Bytes
printed text = take 31 text

unfoldable pub append_header : Bytes × Bytes → Buffer → Option Buffer
append_header (key, value) b = append_string key b >>= λ b1. append_string (codes ": ") b1 >>= λ b2.
    append_string value b2 >>= λ b3. append_string (codes "\r\n") b3

unfoldable pub append_headers : Headers → Buffer → Option Buffer
unfolding append_header
append_headers [] b = some b
append_headers (h ∷ hs) b = append_header h b >>= λ b1. append_headers hs b1

unfoldable pub append_status_line : HttpResponse → Buffer → Option Buffer
unfolding decimal number
append_status_line r b =
    append_string (printed (codes "HTTP/1.1 " ++ (decimal (number r.status_code) ++ codes " "))) b
    >>= λ b1. append_string r.status_message b1 >>= λ b2. append_string (codes "\r\n") b2

unfoldable pub append_connection : HttpResponse → Buffer → Option Buffer
unfolding decimal
append_connection r b =
    if r.close_connection
    then append_string (codes "Connection: close\r\n") b
    else append_string
        (printed (codes "Content-Length: " ++ (decimal (length r.body) ++ codes "\r\n"))) b
      >>= λ b1. append_string (codes "Connection: Keep-Alive\r\n") b1

unfoldable pub append_to_buffer : HttpResponse → Buffer → Option Buffer
unfolding append_status_line append_connection append_headers
append_to_buffer r b = append_status_line r b >>= λ b1. append_connection r b1 >>= λ b2.
    append_headers r.headers b2 >>= λ b3.
    append_string (codes "\r\n") b3 >>= λ b4. append_string r.body b4
