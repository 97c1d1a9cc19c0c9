-- ===== src/App.antt =====
-- example/test.cpp: the program's own callback, which serves files and lets users log in and
-- register. The file system and the database are parameters.
pub mod Names
pub mod Forms
pub mod Pages
pub mod Delivery
pub mod Main
mod Tests
mod MainTests
use simple_http_server.Common.{
  ℕ, zero, suc, ◌+◌, ◌-◌, Bool, true, false, ◌&&◌, ◌||◌, List, [], ◌∷◌, ◌++◌, Option, none, some,
  leb, ◌==◌, if◌then◌else◌, length, take, drop,
}
use simple_http_server.Common.Bytes.{Bytes, codes, equal}
use simple_http_server.Common.Outcome.{Outcome, returned, faulted, ◌>>=◌, bad_access}
use simple_http_server.Http.Request.{HttpRequest, Method, get, post}
use simple_http_server.Http.Response.{
  HttpResponse, StatusCode, set_status_code, set_status_message, set_close_connection, set_body,
}
use simple_http_server.Sql.Pool.{SqlConnectionPool}
use simple_http_server.Sql.Operation.{Database, get_query_res, insert_new_user}

-- A byte that `[0-9a-zA-Z_]` matches.
unfoldable pub is_word : ℕ → Bool
is_word c =
    (leb b'0' c && leb c b'9')
    || ((leb b'a' c && leb c b'z') || ((leb b'A' c && leb c b'Z') || c == b'_'))

unfoldable pub all_words : Bytes → Bool
unfolding is_word
all_words [] = true
all_words (c ∷ cs) = is_word c && all_words cs

-- `std::regex_match` with `^[0-9a-zA-Z_]{5,16}$`
unfoldable pub validate_string : Bytes → Bool
unfolding all_words
validate_string s = all_words s && (leb 5 (length s) && leb (length s) 16)

-- `missing`: `stat` fails. `unmappable`: `mmap` fails on a file of this size.
pub data File : Type 0 where
  missing : File
  mapped : Bytes → File
  unmappable : ℕ → File

-- What 404 responses have in common.
unfoldable pub not_found : HttpResponse → HttpResponse
unfolding set_close_connection set_status_message set_status_code
not_found r =
    set_close_connection true
      (set_status_message (codes "Not Found") (set_status_code StatusCode.not_found r))

unfoldable pub found : HttpResponse → HttpResponse
unfolding set_status_message set_status_code
found r = set_status_message (codes "OK") (set_status_code StatusCode.ok r)

-- A failed `mmap` is logged, and its result is read all the same.
unfoldable pub file_to_string : (Bytes → File) → Bytes → HttpResponse → Outcome HttpResponse
unfolding not_found found set_body
file_to_string files name r = elim (files name) [
  | missing ↦ returned (not_found r)
  | mapped content ↦ returned (set_body content (found r))
  | unmappable size ↦ if size == 0 then returned (set_body [] (found r)) else faulted bad_access
]

-- `std::string::find` of a byte from a position on; `none` is `npos`.
unfoldable pub find_from : ℕ → ℕ → Bytes → Option ℕ
find_from c skip [] = none
find_from c zero (x ∷ xs) =
    if x == c then some 0 else elim (find_from c zero xs) [ none ↦ none | some i ↦ some (i + 1) ]
find_from c (suc skip) (x ∷ xs) = elim (find_from c skip xs) [ none ↦ none | some i ↦ some (i + 1) ]

-- `find(c, pos)` with the position that an earlier search gave: past `npos` there is nothing.
abbrev pub find_behind : ℕ → Option ℕ → Bytes → Option ℕ
find_behind c none body = none
find_behind c (some i) body = find_from c i body

-- `substr(start, end - start)` on `int`s: where the end lies before the start, the length is
-- negative, which as a `size_t` reaches to the end of the string.
unfoldable pub cut : ℕ → ℕ → Bytes → Bytes
cut start end body = if leb start end then take (end - start) (drop start body) else drop start body

-- The user name and the password in a body, or `none` if a separator is missing.
abbrev pub fields_at : Option ℕ → Option ℕ → Option ℕ → Bytes → Option (Bytes × Bytes)
fields_at (some name_start) (some name_end) (some password_start) body =
    some (cut (name_start + 1) name_end body, drop (password_start + 1) body)
fields_at _ _ _ body = none

unfoldable pub form_fields : Bytes → Option (Bytes × Bytes)
unfolding find_from cut
form_fields body =
    let name_end = find_from b'&' 0 body in
    fields_at (find_from b'=' 0 body) name_end (find_behind b'=' name_end body) body

-- `username == query_res[1] && userpasswd == query_res[2]`; an index out of range is a fault.
unfoldable pub matches : Bytes → Bytes → List Bytes → Outcome Bool
unfolding equal
matches username password [] = returned false
matches username password (id ∷ []) = faulted bad_access
matches username password (id ∷ name ∷ []) =
    if equal username name then faulted bad_access else returned false
matches username password (id ∷ name ∷ stored ∷ rest) =
    returned (equal username name && equal password stored)

-- The names are looked up before they are validated.
unfoldable pub check_login :
    Database → Bytes × Bytes → SqlConnectionPool → Outcome (Bool × SqlConnectionPool)
unfolding get_query_res matches validate_string
check_login db (username, password) p = get_query_res db username p >>= λ answer.
    (if validate_string username && validate_string password
      then matches username password answer.0
      else returned false)
    >>= λ good. returned (good, answer.1)

abbrev pub respond_with :
    (Bytes → File)
    → Bytes
    → HttpResponse
    → SqlConnectionPool
    → Outcome (HttpResponse × SqlConnectionPool)
respond_with files name r p = file_to_string files name r >>= λ s. returned (s, p)

unfoldable pub login :
    (Bytes → File)
    → Database
    → Bytes
    → HttpResponse
    → SqlConnectionPool
    → Outcome (HttpResponse × SqlConnectionPool)
unfolding form_fields check_login file_to_string
login files db body r p = elim (form_fields body) [
  | none ↦ respond_with files (codes "../root/loginfail.html") r p
  | some fields ↦ check_login db fields p >>= λ checked.
      respond_with files
        (if checked.0 then codes "../root/index.html" else codes "../root/loginfail.html") r
        checked.1
]

-- Only valid names reach the database here.
unfoldable pub check_register :
    Database → Bytes × Bytes → SqlConnectionPool → Outcome (Bool × SqlConnectionPool)
unfolding insert_new_user validate_string
check_register db (username, password) p =
    if validate_string username && validate_string password
    then insert_new_user db username password p
    else returned (false, p)

unfoldable pub register :
    (Bytes → File)
    → Database
    → Bytes
    → HttpResponse
    → SqlConnectionPool
    → Outcome (HttpResponse × SqlConnectionPool)
unfolding form_fields check_register file_to_string
register files db body r p = elim (form_fields body) [
  | none ↦ respond_with files (codes "../root/loginfailuser404.html") r p
  | some fields ↦ check_register db fields p >>= λ checked.
      respond_with files
        (if checked.0
          then codes "../root/registersucceed.html"
          else codes "../root/registerfail.html")
        r checked.1
]

abbrev pub has_dot : Bytes → Bool
has_dot path = elim (find_from b'.' 0 path) [ none ↦ false | some i ↦ true ]

-- The file that a path names.
unfoldable pub file_of : Bytes → Bytes
unfolding find_from equal
file_of path =
    if equal path (codes "/")
    then codes "../root/login.html"
    else if has_dot path
    then codes "../root" ++ path
    else codes "../root" ++ (path ++ codes ".html")

-- `POST` to any other path falls through both tests: the response stays as it was prepared.
unfoldable pub on_request_with :
    Method
    → (Bytes → File)
    → Database
    → HttpRequest
    → HttpResponse
    → SqlConnectionPool
    → Outcome (HttpResponse × SqlConnectionPool)
unfolding file_of login register equal file_to_string not_found
on_request_with get files db q r p = respond_with files (file_of q.path) r p
on_request_with post files db q r p =
    if equal q.path (codes "/login")
    then login files db q.body r p
    else if equal q.path (codes "/register")
    then register files db q.body r p
    else returned (r, p)
on_request_with _ files db q r p = returned (not_found r, p)

unfoldable pub on_request :
    (Bytes → File)
    → Database
    → HttpRequest
    → HttpResponse
    → SqlConnectionPool
    → Outcome (HttpResponse × SqlConnectionPool)
unfolding on_request_with
on_request files db q r p = on_request_with q.method files db q r p
