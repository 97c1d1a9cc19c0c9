-- ===== src/Http/Context/RequestLine.antt =====
-- The request line: what is written is read back.
use simple_http_server.Common.{
  ◌≡◌, ◌≢◌, ◌⊎◌, inl, inr, refl, arith, ◌∙◌, ap, true, [], ◌∷◌, ◌++◌, some, append-nil,
}
use simple_http_server.Common.Bytes.{Bytes}
use simple_http_server.Common.Outcome.{returned, ◌>>=◌}
use simple_http_server.Http.Request.{
  HttpRequest, Method, invalid, Version, http10, http11, method_string, set_method, empty_request,
}
use simple_http_server.Http.Request.Text.{method_of-method_string}
use simple_http_server.Http.Context.{
  split_at, set_target, set_version, target_and_version, process_request_line,
}
use simple_http_server.Http.Context.Lines.{Lacks, Lacks-append, split_at-found, split_at-missing}
use simple_http_server.Http.Context.Message.{
  Message, version_string, request_line, IsQuery, IsWellFormed,
}

set_target-join :
    (path query : Bytes) (r : HttpRequest)
    → Lacks b'?' path
    → IsQuery query
    → r.query ≡ []
    → set_target (path ++ query) r ≡ record r { path = path; query = query }
unfolding set_target
set_target-join path [] r h k e =
    rw (append-nil path) (rw (split_at-missing b'?' path h, set_target) (ground arith))
set_target-join path (c ∷ query) r h k e =
    rw k (rw (split_at-found b'?' path query h, set_target) (ground arith))

set_version-version_string :
    (v : Version) (r : HttpRequest)
    → (v ≡ http10) ⊎ (v ≡ http11)
    → set_version (version_string v) r ≡ (true, record r { version = v })
unfolding set_version
set_version-version_string Version.http10 r h = refl
set_version-version_string Version.http11 r h = refl
set_version-version_string Version.unknown r (inl e) = cc
set_version-version_string Version.unknown r (inr e) = cc

pub method_string-Lacks :
    (m : Method) → Lacks b' ' (method_string m) × Lacks b'\r' (method_string m)
unfolding method_string
method_string-Lacks invalid = (omega arith, omega arith)
method_string-Lacks _ = (omega arith, omega arith)

set_method-method_string :
    (m : Method) (r : HttpRequest)
    → m ≢ invalid
    → r.method ≡ invalid
    → set_method r (method_string m) ≡ returned (true, record r { method = m })
unfolding set_method
set_method-method_string m r h e = ground (arith, method_of-method_string m h)

target_and_version-found :
    (rest target version : Bytes) (r : HttpRequest)
    → split_at b' ' rest ≡ some (target, version)
    → target_and_version rest (true, r) ≡ set_version version (set_target target r)
unfolding target_and_version
target_and_version-found rest target version r e = rw (e, target_and_version)

process_request_line-found :
    (line method rest : Bytes) (r r1 : HttpRequest)
    → split_at b' ' line ≡ some (method, rest)
    → set_method r method ≡ returned (true, r1)
    → process_request_line line r ≡ returned (target_and_version rest (true, r1))
unfolding process_request_line
process_request_line-found line method rest r r1 e f =
    rw (e, process_request_line)
      (ap (λ o. o >>= λ found. returned (target_and_version rest found)) f)

-- A request line of a known method and version, whose path has no space and no question mark and
-- whose query has no space, is accepted, and its parts become the fields of the request.
pub process_request_line-request_line :
    (m : Message)
    → IsWellFormed m
    → process_request_line (request_line m) empty_request
      ≡ returned (
        true,
        record empty_request {
          method = m.method;
          version = m.version;
          path = m.path;
          query = m.query;
        },
      )
process_request_line-request_line m w =
    let target = m.path ++ m.query in
    let rest = target ++ (b' ' ∷ version_string m.version) in
    let known = record empty_request { method = m.method } in
    let located = record known { path = m.path; query = m.query } in
    process_request_line-found (request_line m) (method_string m.method) rest empty_request known
      (split_at-found b' ' (method_string m.method) rest (method_string-Lacks m.method).0)
      (set_method-method_string m.method empty_request w.known refl)
    ∙ ap returned (
        target_and_version-found rest target (version_string m.version) known (
          split_at-found b' ' target (version_string m.version)
            (Lacks-append b' ' m.path m.query w.path_space w.query_space))
        ∙ ap (set_version (version_string m.version))
            (set_target-join m.path m.query known w.path_question w.query_question refl)
        ∙ set_version-version_string m.version located w.versioned)

pub request_line-Lacks : (m : Message) → IsWellFormed m → Lacks b'\r' (request_line m)
request_line-Lacks m w =
    Lacks-append b'\r' (method_string m.method) _ (method_string-Lacks m.method).1 (
      omega arith,
      Lacks-append b'\r' (m.path ++ m.query) _
          (Lacks-append b'\r' m.path m.query w.path_return w.query_return)
          (omega arith, version_string-lacks m.version),
    )
  where
    version_string-lacks : (v : Version) → Lacks b'\r' (version_string v)
    version_string-lacks Version.http10 = omega arith
    version_string-lacks Version.http11 = omega arith
    version_string-lacks Version.unknown = tt
