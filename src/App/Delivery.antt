-- ===== src/App/Delivery.antt =====
-- A `GET` that comes in in pieces, from the bytes read to the bytes of the page on the wire.
use simple_http_server.Common.{◌+◌, ◌^◌, ◌<◌, ◌≡◌, true, List, [], ◌++◌, some, length}
use simple_http_server.Common.Bytes.{Bytes}
use simple_http_server.Net.Buffer.{WriteResult}
use simple_http_server.Net.Buffer.Laws.{Holds, Fits}
use simple_http_server.Net.Connection.{TcpConnection, is_connected}
use simple_http_server.Net.Connection.Parts.{IsSound}
use simple_http_server.Net.Connection.Send.{IsOpen}
use simple_http_server.Http.Request.{get, get_header}
use simple_http_server.Http.Response.{HttpResponse}
use simple_http_server.Http.Response.Render
use simple_http_server.Http.Context.{fresh}
use simple_http_server.Http.Context.Message
use simple_http_server.Http.Context.Message.{Message, expected, IsWellFormed}
use simple_http_server.Http.Server.{wants_close}
use simple_http_server.Http.Session.Pieces.{Piece, reads, joined, HasRoom, CutsBefore, Answers}
use simple_http_server.Http.Session.Reads.{Delivers, reads-Delivers}
use simple_http_server.Sql.Pool.{SqlConnectionPool}
use simple_http_server.Sql.Operation.{Database}
use simple_http_server.App.{File, file_of}
use simple_http_server.App.Pages.{callback_of, callback_of-get, page_of}

-- When a request came in has no influence on the page.
page-Answers :
    (files : Bytes → File) (db : Database) (p : SqlConnectionPool) (m : Message) (r : HttpResponse)
    → m.method ≡ get
    → page_of (files (file_of m.path)) (wants_close (expected 0 m)) ≡ some r
    → Answers (callback_of files db p) (λ time. expected time m) r
unfolding wants_close get_header
page-Answers files db p m r is_get e time =
    callback_of-get files db p (expected time m) (wants_close (expected 0 m)) r is_get e

-- A well-formed `GET`, and any bytes behind it, come in on an open connection of the program in one
-- or more reads, at whatever times: each read brings at least a byte and no more than it offers room
-- for, and behind each but the last, more bytes are still to come than stand behind the head of the
-- request. The parser is fresh, the input is empty; the file that the path names can be mapped or is
-- missing, and the text of the response is shorter than 2 ^ 31 bytes; `write` takes at most what it
-- is handed, the peer does not go away in the send, and the address space suffices. Then all reads
-- return; the file with status 200 and `OK`, or status 404 and `Not Found`, is sent once, behind all
-- that had been sent before; the connection stays open unless the request asks for its end or the
-- file is missing; the parser is fresh again, and the bytes behind the request are left.
pub reads-page :
    (files : Bytes → File) (db : Database) (p : SqlConnectionPool) (write : Bytes → WriteResult)
    (m : Message) (rest : Bytes) (r : HttpResponse) (ps : List Piece) (conn : TcpConnection)
    (sent : Bytes)
    → m.method ≡ get
    → IsWellFormed m
    → joined ps ≡ Message.render m rest
    → CutsBefore (length m.body + length rest) ps
    → page_of (files (file_of m.path)) (wants_close (expected 0 m)) ≡ some r
    → length (Render.render r) < 2 ^ 31
    → Holds [] conn.input
    → HasRoom (callback_of files db p) write ps (record { conn = conn; context = some fresh })
    → IsOpen write
    → is_connected conn.state ≡ true
    → Fits (length (Render.render r)) conn.output
    → IsSound sent conn
    → Delivers rest
        (sent ++ Render.render r)
        r.close_connection
        (reads (callback_of files db p) write ps (record { conn = conn; context = some fresh }))
reads-page files db p write m rest r ps conn sent is_get w all cuts e small empty room o live fits
      s =
    reads-Delivers (callback_of files db p) write m rest r ps conn sent w all cuts
      (page-Answers files db p m r is_get e) small empty room o live fits s
