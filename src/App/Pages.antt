-- ===== src/App/Pages.antt =====
-- A `GET` from the bytes of the request to the bytes of the page.
use simple_http_server.Common.{
  ap, ℕ, ◌∙◌, ◌^◌, ◌<◌, ◌≡◌, refl, Bool, true, [], ◌++◌, Option, some, none, length,
}
use simple_http_server.Common.Bytes.{Bytes, codes, equal}
use simple_http_server.Common.Outcome.{returned, ◌>>=◌}
use simple_http_server.Net.Buffer.{Buffer}
use simple_http_server.Net.Buffer.Laws.{Holds}
use simple_http_server.Http.Request.{HttpRequest, get}
use simple_http_server.Http.Response.{HttpResponse, StatusCode, new_response}
use simple_http_server.Http.Response.Render
use simple_http_server.Http.Context.{fresh}
use simple_http_server.Http.Context.Message
use simple_http_server.Http.Context.Message.{Message, expected, IsWellFormed}
use simple_http_server.Http.Server.{Callback, wants_close, on_message}
use simple_http_server.Http.Server.Serve.{answer, on_message-answer}
use simple_http_server.Sql.Pool.{SqlConnectionPool}
use simple_http_server.Sql.Operation.{Database}
use simple_http_server.App.{
  File, missing, mapped, unmappable, respond_with, found, not_found, file_to_string, find_from,
  file_of, on_request, on_request_with,
}

-- The program's callback as the HTTP server sees it.
abbrev pub callback_of : (Bytes → File) → Database → SqlConnectionPool → Callback
callback_of files db p q r = on_request files db q r p >>= λ done. returned done.0

-- The page of a file, and the answer where there is none.
abbrev pub page : Bytes → Bool → HttpResponse
page content close = record {
  headers = [];
  status_code = StatusCode.ok;
  status_message = codes "OK";
  close_connection = close;
  body = content;
}

abbrev pub missing_page : HttpResponse
missing_page = record {
  headers = [];
  status_code = StatusCode.not_found;
  status_message = codes "Not Found";
  close_connection = true;
  body = [];
}

abbrev pub page_of : File → Bool → Option HttpResponse
page_of (mapped content) close = some (page content close)
page_of missing close = some missing_page
page_of (unmappable size) close = none

file_to_string-page_of :
    (files : Bytes → File) (name : Bytes) (close : Bool) (r : HttpResponse) (f : File)
    → files name ≡ f
    → page_of f close ≡ some r
    → file_to_string files name (new_response close) ≡ returned r
unfolding file_to_string found not_found
file_to_string-page_of files name close r (mapped content) e h = rw (e, file_to_string) (cc)
file_to_string-page_of files name close r missing e h = rw (e, file_to_string) (cc)
file_to_string-page_of files name close r (unmappable size) e h = cc

answered :
    (files : Bytes → File) (p : SqlConnectionPool) (name : Bytes) (r r1 : HttpResponse)
    → file_to_string files name r ≡ returned r1
    → (respond_with files name r p >>= λ done. returned done.0) ≡ returned r1
answered files p name r r1 e = rw e refl

pub callback_of-get :
    (files : Bytes → File) (db : Database) (p : SqlConnectionPool) (q : HttpRequest) (close : Bool)
    (r : HttpResponse)
    → q.method ≡ get
    → page_of (files (file_of q.path)) close ≡ some r
    → callback_of files db p q (new_response close) ≡ returned r
unfolding on_request on_request_with
callback_of-get files db p q close r is_get e = rw is_get (
    answered files p (file_of q.path) (new_response close) r
      (file_to_string-page_of files (file_of q.path) close r (files (file_of q.path)) refl e))

-- A fresh context, and a valid buffer that holds a well-formed `GET` with any bytes behind it,
-- where the file that its path names can be mapped or is missing, and the text of the response is
-- shorter than 2 ^ 31 bytes. The server sends that file with status 200 and the message `OK`, or
-- status 404 and `Not Found`; it shuts down exactly if the request asks for it or the file is
-- missing, makes the parser fresh again, and leaves the bytes behind the request in the buffer.
pub on_message-get :
    (files : Bytes → File) (db : Database) (p : SqlConnectionPool) (time : ℕ) (m : Message)
    (rest : Bytes) (b : Buffer) (r : HttpResponse)
    → m.method ≡ get
    → IsWellFormed m
    → Holds (Message.render m rest) b
    → page_of (files (file_of m.path)) (wants_close (expected time m)) ≡ some r
    → length (Render.render r) < 2 ^ 31
    → (b' : Buffer) × (on_message (callback_of files db p) time (some fresh) b
        ≡ returned (some fresh, b', answer r))
      × Holds rest b'
on_message-get files db p time m rest b r is_get w v e small =
    on_message-answer (callback_of files db p) time m rest b r w v
      (callback_of-get files db p (expected time m) (wants_close (expected time m)) r is_get e)
      small

file_of-parent : (rest : Bytes) → file_of (codes "/../" ++ rest) ≡ codes "../root/../" ++ rest
unfolding file_of find_from equal
file_of-parent rest = refl

-- A `GET` whose path goes up from the root with `/../`, well formed, in a valid buffer with any
-- bytes behind it and a fresh context, where the file that lies there, outside the directory that
-- is served, can be mapped and the response is shorter than 2 ^ 31 bytes: it is sent like any page.
pub on_message-parent :
    (files : Bytes → File) (db : Database) (p : SqlConnectionPool) (time : ℕ) (m : Message)
    (name content rest : Bytes) (b : Buffer)
    → m.method ≡ get
    → m.path ≡ codes "/../" ++ name
    → IsWellFormed m
    → Holds (Message.render m rest) b
    → files (codes "../root/../" ++ name) ≡ mapped content
    → length (Render.render (page content (wants_close (expected time m)))) < 2 ^ 31
    → (b' : Buffer) × (on_message (callback_of files db p) time (some fresh) b
        ≡ returned (some fresh, b', answer (page content (wants_close (expected time m)))))
      × Holds rest b'
on_message-parent files db p time m name content rest b is_get goes_up w v there small =
    let close = wants_close (expected time m) in
    let served : files (file_of m.path) ≡ mapped content =
      ap (λ n. files (file_of n)) goes_up ∙ ap files (file_of-parent name) ∙ there in
    on_message-get files db p time m rest b (page content close) is_get w v
      (ap (λ f. page_of f close) served) small
