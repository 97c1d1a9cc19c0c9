-- ===== src/Http/Response/Render.antt =====
-- The text of a response, and that `appendToBuffer` writes it.
use simple_http_server.Common.{
  ◌^◌, ◌<◌, Bool, true, false, [], ◌∷◌, ◌++◌, length, if◌then◌else◌, ◌>>=◌, ◌≤◌, ◌≡◌, refl, subst,
  take_of_length-le, length-append, arith, ℕ,
}
use simple_http_server.Common.Bytes.{Bytes, codes}
use simple_http_server.Common.Decimal.{decimal, length-decimal}
use simple_http_server.Net.Buffer.{Buffer, append_string}
use simple_http_server.Net.Buffer.View.{IsValid}
use simple_http_server.Net.Buffer.Laws.{Fits}
use simple_http_server.Net.Buffer.Writers.{
  Wrote, Writes, append_string-Writes, nothing-Writes, bind-Writes,
}
use simple_http_server.Http.Headers.{Headers}
use simple_http_server.Http.Response.{
  StatusCode, unknown, ok, moved_permanently, bad_request, not_found, HttpResponse, number, printed,
  append_header, append_headers, append_status_line, append_connection, append_to_buffer,
}

abbrev pub line_end : Bytes
line_end = codes "\r\n"

abbrev pub header_text : Bytes × Bytes → Bytes
header_text (key, value) = key ++ (codes ": " ++ (value ++ line_end))

abbrev pub headers_text : Headers → Bytes
headers_text [] = []
headers_text (h ∷ hs) = header_text h ++ headers_text hs

abbrev pub status_text : StatusCode → Bytes
status_text code = codes "HTTP/1.1 " ++ (decimal (number code) ++ codes " ")

abbrev pub status_line : HttpResponse → Bytes
status_line r = status_text r.status_code ++ (r.status_message ++ line_end)

abbrev pub length_text : ℕ → Bytes
length_text n = codes "Content-Length: " ++ (decimal n ++ line_end)

abbrev pub connection_text : HttpResponse → Bytes
connection_text r =
    if r.close_connection
    then codes "Connection: close\r\n"
    else length_text (length r.body) ++ codes "Connection: Keep-Alive\r\n"

-- Status line, connection, headers in the order of their keys, a blank line, body.
abbrev pub render : HttpResponse → Bytes
render r = status_line r ++ (connection_text r ++ (headers_text r.headers ++ (line_end ++ r.body)))

append_header-Writes : (h : Bytes × Bytes) → Writes (header_text h) (append_header h)
unfolding append_header
append_header-Writes (key, value) = bind-Writes _ _ _ _ (append_string-Writes key) (
    bind-Writes _ _ _ _ (append_string-Writes (codes ": "))
      (bind-Writes _ _ _ _ (append_string-Writes value) (append_string-Writes line_end)))

append_headers-Writes : (hs : Headers) → Writes (headers_text hs) (append_headers hs)
unfolding append_headers
append_headers-Writes [] = nothing-Writes
append_headers-Writes (h ∷ hs) =
    bind-Writes (header_text h) (headers_text hs) (append_header h) (append_headers hs)
      (append_header-Writes h) (append_headers-Writes hs)

-- Nothing is cut off by the 32 bytes of `buf`.
printed-status_text : (code : StatusCode) → printed (status_text code) ≡ status_text code
unfolding decimal number
printed-status_text unknown = refl
printed-status_text ok = refl
printed-status_text moved_permanently = refl
printed-status_text bad_request = refl
printed-status_text not_found = refl

printed-length_text : (n : ℕ) → n < 2 ^ 31 → printed (length_text n) ≡ length_text n
printed-length_text n h = take_of_length-le 31 (length_text n) (
    omega (
      arith,
      length-decimal n h,
      length-append (codes "Content-Length: ") (decimal n ++ line_end),
      length-append (decimal n) line_end,
    ))

append_status_line-Writes : (r : HttpResponse) → Writes (status_line r) (append_status_line r)
unfolding append_status_line
append_status_line-Writes r =
    subst (λ t. Writes (t ++ (r.status_message ++ line_end)) (append_status_line r))
      (printed-status_text r.status_code)
      (bind-Writes _ _ _ _ (append_string-Writes (printed (status_text r.status_code))) (
        bind-Writes _ _ _ _ (append_string-Writes r.status_message)
          (append_string-Writes line_end)))

append_connection-Writes :
    (r : HttpResponse) → length r.body < 2 ^ 31 → Writes (connection_text r) (append_connection r)
unfolding append_connection
append_connection-Writes r small =
    subst
      (λ t.
        Writes
          (if r.close_connection
            then codes "Connection: close\r\n"
            else t ++ codes "Connection: Keep-Alive\r\n")
          (append_connection r))
      (printed-length_text (length r.body) small) (by_close r.close_connection)
  where
    keep : Bytes
    keep = printed (length_text (length r.body))

    by_close :
        (close : Bool)
        → Writes
            (if close
              then codes "Connection: close\r\n"
              else keep ++ codes "Connection: Keep-Alive\r\n")
            (λ b.
              if close
              then append_string (codes "Connection: close\r\n") b
              else append_string keep b >>= λ b1.
                  append_string (codes "Connection: Keep-Alive\r\n") b1)
    by_close true = append_string-Writes _
    by_close false = bind-Writes _ _ _ _ (append_string-Writes keep) (append_string-Writes _)

append_to_buffer-Writes :
    (r : HttpResponse) → length r.body < 2 ^ 31 → Writes (render r) (append_to_buffer r)
unfolding append_to_buffer
append_to_buffer-Writes r small = bind-Writes _ _ _ _ (append_status_line-Writes r) (
    bind-Writes _ _ _ _ (append_connection-Writes r small) (
      bind-Writes _ _ _ _ (append_headers-Writes r.headers)
        (bind-Writes _ _ _ _ (append_string-Writes line_end) (append_string-Writes r.body))))

body_below : (r : HttpResponse) → length r.body ≤ length (render r)
body_below r = omega (
  arith,
  length-append (status_line r)
      (connection_text r ++ (headers_text r.headers ++ (line_end ++ r.body))),
  length-append (connection_text r) (headers_text r.headers ++ (line_end ++ r.body)),
  length-append (headers_text r.headers) (line_end ++ r.body),
  length-append line_end r.body,
)

-- A response whose text is shorter than 2 ^ 31 bytes, and a valid buffer with address space for
-- it: `appendToBuffer` succeeds, the buffer stays valid, and it holds its old bytes followed by the
-- status line, the connection lines, the headers in the order of their keys, a blank line and the
-- body; the storage grows by no more than that text.
pub append_to_buffer-render :
    (r : HttpResponse) (b : Buffer)
    → length (render r) < 2 ^ 31
    → IsValid b
    → Fits (length (render r)) b
    → Wrote (render r) b (append_to_buffer r b)
append_to_buffer-render r b small v h =
    (append_to_buffer-Writes r (omega (arith, body_below r))).run b small v h
