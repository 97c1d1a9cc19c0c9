-- ===== src/Http/Session/Conversation.antt =====
-- One request after another on a connection that is kept alive.
use simple_http_server.Common.{
  ◌+◌, ◌^◌, ◌<◌, ◌≡◌, refl, sym, ap, subst, ◌∙◌, Bool, true, false, not, List, [], ◌∷◌, ◌++◌, some,
  length, append-nil, append_assoc,
}
use simple_http_server.Common.Bytes.{Bytes}
use simple_http_server.Common.Outcome.{Outcome, returned, ◌>>=◌}
use simple_http_server.Net.Buffer.{WriteResult}
use simple_http_server.Net.Buffer.Laws.{Holds, Fits}
use simple_http_server.Net.Connection.{is_connected}
use simple_http_server.Net.Connection.Parts.{IsSound}
use simple_http_server.Net.Connection.Send.{IsOpen}
use simple_http_server.Http.Response.{HttpResponse}
use simple_http_server.Http.Response.Render.{render}
use simple_http_server.Http.Context.{fresh}
use simple_http_server.Http.Context.Message.{Message, expected, IsWellFormed}
use simple_http_server.Http.Context.Message
use simple_http_server.Http.Server.{Callback}
use simple_http_server.Http.Session.{Session}
use simple_http_server.Http.Session.Pieces.{
  Piece, reads, joined, Then, HasRoom, CutsBefore, Answers,
}
use simple_http_server.Http.Session.Reads.{Delivers, reads-Delivers}

-- A request, the pieces in which it comes in, and its response.
pub record Exchange : Type 0 where
  pub request : Message
  pub pieces : List Piece
  pub response : HttpResponse

-- The request comes in whole, with no cut within its body; the callback gives that response to it,
-- whenever it came in; the response is short enough and leaves the connection open.
pub record IsKept (callback : Callback) (e : Exchange) : Type 0 where
  pub well_formed : IsWellFormed e.request
  pub whole : joined e.pieces ≡ Message.render e.request []
  pub cuts : CutsBefore (length (e.request).body + 0) e.pieces
  pub answers : Answers callback (λ time. expected time e.request) e.response
  pub small : length (render e.response) < 2 ^ 31
  pub kept : (e.response).close_connection ≡ false

abbrev pub AreKept : Callback → List Exchange → Type 0
AreKept callback [] = Unit
AreKept callback (e ∷ es) = IsKept callback e × AreKept callback es

abbrev pub converse : Callback → (Bytes → WriteResult) → List Exchange → Session → Outcome Session
converse callback write [] s = returned s
converse callback write (e ∷ es) s = reads callback write e.pieces s >>= converse callback write es

abbrev pub responses : List Exchange → Bytes
responses [] = []
responses (e ∷ es) = render e.response ++ responses es

-- There is room for each piece that comes in and each response that goes out.
abbrev pub HasSpace : Callback → (Bytes → WriteResult) → List Exchange → Session → Type 0
HasSpace callback write [] s = Unit
HasSpace callback write (e ∷ es) s =
    HasRoom callback write e.pieces s
    × Fits (length (render e.response)) s.conn.output
    × Then (HasSpace callback write es) (reads callback write e.pieces s)

-- Behind the last response the session is as behind the first.
Delivers-as :
    (rest text more : Bytes) (closes : Bool) (o : Outcome Session)
    → text ≡ more
    → Delivers rest text closes o
    → Delivers rest more closes o
Delivers-as rest text more closes o e d = subst (λ t. Delivers rest t closes o) e d

-- Any number of requests come in one after the other on an open connection, each in one or more
-- reads with no cut within its body, as above, and each with a response that keeps the connection
-- open. The parser is fresh at the beginning and the input is empty, `write` takes at most what it
-- is handed, the peer does not go away in a send, and the address space suffices. Then all reads
-- return, and what has been sent is exactly the responses, each once and in the order of the
-- requests; the connection is open, the parser fresh and the input empty, as at the beginning.
pub converse-Delivers :
    (callback : Callback) (write : Bytes → WriteResult) (es : List Exchange) (s : Session)
    (sent : Bytes)
    → AreKept callback es
    → s.context ≡ some fresh
    → Holds [] s.conn.input
    → HasSpace callback write es s
    → IsOpen write
    → is_connected s.conn.state ≡ true
    → IsSound sent s.conn
    → Delivers [] (sent ++ responses es) false (converse callback write es s)
converse-Delivers callback write [] s sent kept new empty space o live sound =
    let e : sent ≡ sent ++ [] = sym (append-nil sent) in
    (s, refl, new, empty, sound.in_order ∙ e, subst (λ t. IsSound t s.conn) e sound, live)
converse-Delivers callback write (e ∷ es) s sent (k, ks) new empty (room, fits, more) o live sound =
    let start : Session = record { conn = s.conn; context = some fresh } in
    let same : s ≡ start = ap (λ c. record s { context = c }) new in
    let (s1, done, new1, empty1, ordered, sound1, live1) =
      reads-Delivers callback write e.request [] e.response e.pieces s.conn sent k.well_formed
        k.whole k.cuts k.answers k.small empty (subst (HasRoom callback write e.pieces) same room) o
        live fits sound in
    let read_all : reads callback write e.pieces s ≡ returned s1 =
      ap (reads callback write e.pieces) same ∙ done in
    let rest =
      converse-Delivers callback write es s1 (sent ++ render e.response) ks new1 empty1
        (subst (Then (HasSpace callback write es)) read_all more) o (live1 ∙ ap not k.kept)
        sound1 in
    rw read_all (
      Delivers-as [] _ _ false (converse callback write es s1)
        (append_assoc sent (render e.response) (responses es)) rest)
