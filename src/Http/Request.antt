-- ===== src/Http/Request.antt =====
-- mymuduo/http/HttpRequest.h: a request, and the fields that the parser fills in.
-- A `char` range `[start, end)` is the list of its bytes. A `Timestamp` is its number.
pub mod Text
use simple_http_server.Common.{
  ℕ, ◌+◌, ◌≡◌, Bool, true, false, not, ◌&&◌, ◌||◌, List, [], ◌∷◌, ◌++◌, Option, none, some, leb,
  ◌==◌, if◌then◌else◌, reverse,
}
use simple_http_server.Common.Bytes.{Bytes, codes, equal}
use simple_http_server.Common.Outcome.{Outcome, returned, faulted, assertion_failed}
use simple_http_server.Http.Headers.{Headers, assign, find}

pub data Method : Type 0 where
  invalid get post head put delete : Method

pub data Version : Type 0 where
  unknown http10 http11 : Version

pub record HttpRequest : Type 0 where
  pub method : Method
  pub version : Version
  pub path : Bytes
  pub query : Bytes
  pub body : Bytes
  pub receive_time : ℕ
  pub headers : Headers

-- `HttpRequest()`; a default `Timestamp` is 0.
abbrev pub empty_request : HttpRequest
empty_request = record {
  method = invalid;
  version = unknown;
  path = [];
  query = [];
  body = [];
  receive_time = 0;
  headers = [];
}

abbrev pub is_invalid : Method → Bool
is_invalid invalid = true
is_invalid _ = false

-- The chain of comparisons in `setMethod`.
unfoldable pub method_of : Bytes → Method
unfolding equal
method_of m =
    if equal m (codes "GET")
    then get
    else if equal m (codes "POST")
    then post
    else if equal m (codes "HEAD")
    then head
    else if equal m (codes "PUT")
    then put
    else if equal m (codes "DELETE")
    then delete
    else invalid

-- `setMethod` begins with `assert(method_ == kInvalid)`.
unfoldable pub set_method : HttpRequest → Bytes → Outcome (Bool × HttpRequest)
unfolding method_of
set_method r m =
    if is_invalid r.method
    then returned (not (is_invalid (method_of m)), record r { method = method_of m })
    else faulted assertion_failed

unfoldable pub method_string : Method → Bytes
method_string get = codes "GET"
method_string post = codes "POST"
method_string head = codes "HEAD"
method_string put = codes "PUT"
method_string delete = codes "DELETE"
method_string invalid = codes "UNKNOWN"

abbrev pub set_path : Bytes → HttpRequest → HttpRequest
set_path path r = record r { path = path }

abbrev pub set_query : Bytes → HttpRequest → HttpRequest
set_query query r = record r { query = query }

abbrev pub set_receive_time : ℕ → HttpRequest → HttpRequest
set_receive_time t r = record r { receive_time = t }

-- `swap`, field by field.
abbrev pub swap : HttpRequest × HttpRequest → HttpRequest × HttpRequest
swap (r, that) = (
  record {
    method = that.method;
    version = that.version;
    path = that.path;
    query = that.query;
    body = that.body;
    receive_time = that.receive_time;
    headers = that.headers;
  },
  record {
    method = r.method;
    version = r.version;
    path = r.path;
    query = r.query;
    body = r.body;
    receive_time = r.receive_time;
    headers = r.headers;
  },
)

-- `isspace` in the C locale.
unfoldable pub isspace : ℕ → Bool
isspace c = c == b' ' || (leb 9 c && leb c 13)

unfoldable pub skip_spaces : Bytes → Bytes
unfolding isspace
skip_spaces [] = []
skip_spaces (c ∷ cs) = if isspace c then skip_spaces cs else c ∷ cs

-- The value of a header: spaces are skipped in front, then dropped from the back.
unfoldable pub trimmed : Bytes → Bytes
unfolding skip_spaces
trimmed value = reverse (skip_spaces (reverse (skip_spaces value)))

-- `addHeader(start, colon, end)`: the bytes before the colon and those behind it.
unfoldable pub add_header : Bytes → Bytes → HttpRequest → HttpRequest
unfolding assign trimmed
add_header field value r = record r { headers = assign field (trimmed value) r.headers }

-- `getHeader`: empty where there is none.
unfoldable pub get_header : Bytes → HttpRequest → Bytes
unfolding find
get_header field r = elim (find field r.headers) [ none ↦ [] | some value ↦ value ]
