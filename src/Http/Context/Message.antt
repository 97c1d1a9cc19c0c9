-- ===== src/Http/Context/Message.antt =====
-- A request as it stands on the wire, and what the parser's fields are for it.
use simple_http_server.Common.{ℕ, ◌≡◌, ◌≢◌, ◌⊎◌, List, [], ◌∷◌, ◌++◌, length}
use simple_http_server.Common.Bytes.{Bytes, codes}
use simple_http_server.Common.Outcome.{returned, pos}
use simple_http_server.Http.Headers.{Headers, assign}
use simple_http_server.Http.Request.{
  HttpRequest, Method, invalid, post, Version, http10, http11, method_string, trimmed, get_header,
  empty_request,
}
use simple_http_server.Http.Context.Stoi.{stoi}
use simple_http_server.Http.Context.Lines.{Lacks}

abbrev pub crlf : Bytes → Bytes
crlf rest = b'\r' ∷ b'\n' ∷ rest

-- A query carries its question mark; a header is the bytes before the colon and those behind it.
pub record Message : Type 0 where
  pub method : Method
  pub path : Bytes
  pub query : Bytes
  pub version : Version
  pub headers : List (Bytes × Bytes)
  pub body : Bytes

abbrev pub version_string : Version → Bytes
version_string Version.http10 = codes "HTTP/1.0"
version_string Version.http11 = codes "HTTP/1.1"
version_string Version.unknown = []

abbrev pub request_line : Message → Bytes
request_line m =
    method_string m.method ++ (b' ' ∷ ((m.path ++ m.query) ++ (b' ' ∷ version_string m.version)))

abbrev pub header_line : Bytes × Bytes → Bytes
header_line (field, value) = field ++ b':' ∷ value

abbrev pub render_headers : List (Bytes × Bytes) → Bytes → Bytes
render_headers [] rest = crlf rest
render_headers (h ∷ hs) rest = header_line h ++ crlf (render_headers hs rest)

abbrev pub render : Message → Bytes → Bytes
render m rest = request_line m ++ crlf (render_headers m.headers (m.body ++ rest))

-- Later headers overwrite earlier ones; values are trimmed.
abbrev pub gathered : List (Bytes × Bytes) → Headers → Headers
gathered [] acc = acc
gathered ((field, value) ∷ hs) acc = gathered hs (assign field (trimmed value) acc)

-- The request that the parser is to build.
abbrev pub expected : ℕ → Message → HttpRequest
expected time m = record {
  method = m.method;
  version = m.version;
  path = m.path;
  query = m.query;
  body = m.body;
  receive_time = time;
  headers = gathered m.headers [];
}

abbrev pub WellFormedHeaders : List (Bytes × Bytes) → Type 0
WellFormedHeaders [] = Unit {0}
WellFormedHeaders ((field, value) ∷ hs) =
    (Lacks b':' field × Lacks b'\r' field × Lacks b'\r' value) × WellFormedHeaders hs

-- No query, or one that begins with its question mark.
abbrev pub IsQuery : Bytes → Type 0
IsQuery [] = Unit {0}
IsQuery (c ∷ cs) = c ≡ b'?'

-- Only a `POST` has a body, whose length a header gives.
abbrev pub HasLength : Method → Bytes → HttpRequest → Type 0
HasLength post body r = stoi (get_header (codes "Content-Length") r) ≡ returned (pos (length body))
HasLength _ body r = body ≡ []

pub record IsWellFormed (m : Message) : Type 0 where
  pub known : m.method ≢ invalid
  pub versioned : (m.version ≡ http10) ⊎ (m.version ≡ http11)
  pub path_space : Lacks b' ' m.path
  pub path_question : Lacks b'?' m.path
  pub path_return : Lacks b'\r' m.path
  pub query_question : IsQuery m.query
  pub query_space : Lacks b' ' m.query
  pub query_return : Lacks b'\r' m.query
  pub header_lines : WellFormedHeaders m.headers
  pub sized : HasLength m.method m.body (record empty_request { headers = gathered m.headers [] })
