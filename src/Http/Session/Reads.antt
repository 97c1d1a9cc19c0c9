-- ===== src/Http/Session/Reads.antt =====
-- A request that comes in in several reads is answered once, when its last piece is there.
use simple_http_server.Common.{
  ℕ, ◌+◌, ◌^◌, ◌<◌, ◌≡◌, ◌≢◌, refl, ap, subst, ◌∙◌, arith, Bool, true, false, not, List, [], ◌∷◌,
  ◌++◌, some, length, inl, inr, Bool-cases, if◌then◌else◌,
}
use simple_http_server.Common.Bytes.{Bytes}
use simple_http_server.Common.Outcome.{Outcome, returned}
use simple_http_server.Net.Buffer.{WriteResult}
use simple_http_server.Net.Buffer.View.{IsValid, contents}
use simple_http_server.Net.Buffer.Laws.{Holds, Fits}
use simple_http_server.Net.Channel.{is_writing}
use simple_http_server.Net.Connection.{
  TcpConnection, is_connected, send, shutdown, shutdown_in_loop,
}
use simple_http_server.Net.Connection.Parts.{IsSound}
use simple_http_server.Net.Connection.Send.{IsOpen, send_in_loop-IsSound}
use simple_http_server.Net.Connection.Delivery.{shutdown-IsSound}
use simple_http_server.Net.Connection.Disconnected.{send_in_loop-state}
use simple_http_server.Http.Request.{HttpRequest}
use simple_http_server.Http.Response.{HttpResponse}
use simple_http_server.Http.Response.Render.{render}
use simple_http_server.Http.Context.{HttpContext, got_all, fresh}
use simple_http_server.Http.Context.Message.{Message, expected, IsWellFormed}
use simple_http_server.Http.Context.Message
use simple_http_server.Http.Context.Text.{parse_text}
use simple_http_server.Http.Context.RoundTrip.{parse_text-render}
use simple_http_server.Http.Context.Pieces.{Awaits}
use simple_http_server.Http.Server.{Callback, Call}
use simple_http_server.Http.Server.Serve.{answer}
use simple_http_server.Http.Session.{Session, perform}
use simple_http_server.Http.Session.Ready.{perform-input}
use simple_http_server.Http.Session.Pieces.{
  Piece, reads, joined, Then, HasRoom, CutsBefore, Answered, Answers, last_piece, middle_piece,
}

pieces-Answered :
    (callback : Callback) (write : Bytes → WriteResult) (r : ℕ → HttpRequest) (body tail : Bytes)
    (response : HttpResponse) (ps : List Piece) (conn : TcpConnection) (c : HttpContext)
    → IsValid conn.input
    → c.state ≢ got_all
    → Awaits r tail (joined ps) c (contents conn.input)
    → ((t : ℕ) → (r t).body ≡ body)
    → Answers callback r response
    → length (render response) < 2 ^ 31
    → CutsBefore (length body + length tail) ps
    → HasRoom callback write ps (record { conn = conn; context = some c })
    → Answered write response tail conn
        (reads callback write ps (record { conn = conn; context = some c }))
pieces-Answered callback write r body tail response [] conn c v live a sized answers small cuts
      room =
    absurd cuts
pieces-Answered callback write r body tail response (p ∷ []) conn c v live a sized answers small
      cuts (h, fit, fits, rest) =
    let (b, e, left) =
      last_piece callback write r tail response p.time p.bytes conn c v a answers small h fit
        fits in
    (b, rw e, left)
pieces-Answered callback write r body tail response (p ∷ q ∷ ps) conn c v live a sized answers small
      cuts (h, fit, fits, rest) =
    let on =
      middle_piece callback write r body tail p.time p.bytes (joined (q ∷ ps)) conn c v live a sized
        cuts.0 h fit fits in
    rw (on.carried) (
      pieces-Answered callback write r body tail response (q ∷ ps)
        (record conn { input = on.input }) on.context on.valid on.live on.awaits sized answers small
        cuts.1 (subst (Then (HasRoom callback write (q ∷ ps))) on.carried rest))

-- `shutdown` on an open connection leaves it not open.
shutdown-shut :
    (write : Bytes → WriteResult) (c : TcpConnection)
    → is_connected c.state ≡ true
    → is_connected (shutdown write true c).state ≡ false
unfolding shutdown shutdown_in_loop
shutdown-shut write c live = elim (Bool-cases (is_writing c.watch.channel)) [
  | inl e ↦ ground (arith, live, e)
  | inr e ↦ ground (arith, live, e)
]

-- What the calls of an answer do on an open connection.
record Sent (text : Bytes) (closes : Bool) (c : TcpConnection) : Type 0 where
  sound : IsSound text c
  status : is_connected c.state ≡ not closes

send-Sent :
    (write : Bytes → WriteResult) (bytes sent : Bytes) (c : TcpConnection)
    → IsOpen write
    → is_connected c.state ≡ true
    → Fits (length bytes) c.output
    → IsSound sent c
    → Sent (sent ++ bytes) false (send write true bytes c)
unfolding send
send-Sent write bytes sent c o live fits s = rw live (record {
  sound = send_in_loop-IsSound write bytes sent c o live fits s;
  status =
      ap (λ (d : TcpConnection). is_connected d.state) (send_in_loop-state write bytes c c.state)
      ∙ live;
})

perform-Sent :
    (closes : Bool) (write : Bytes → WriteResult) (text sent : Bytes) (c : TcpConnection)
    → IsOpen write
    → is_connected c.state ≡ true
    → Fits (length text) c.output
    → IsSound sent c
    → Sent (sent ++ text) closes (
        perform write
          (if closes then Call.send text ∷ Call.shutdown ∷ [] else Call.send text ∷ [])
          c)
unfolding perform
perform-Sent true write text sent c o live fits s =
    let t = send-Sent write text sent c o live fits s in
    record {
      sound = shutdown-IsSound write (sent ++ text) (send write true text c) t.sound;
      status = shutdown-shut write (send write true text c) t.status;
    }
perform-Sent false write text sent c o live fits s = send-Sent write text sent c o live fits s

-- After the reads the parser starts afresh and `rest` is left in the input; what the kernel has
-- taken, and what waits in the output buffer, is what had been sent before, and behind it `text`,
-- once; what waits is waited for, and the connection is half closed only behind the last byte; it is
-- still open unless it is to be closed.
abbrev pub Delivers : Bytes → Bytes → Bool → Outcome Session → Type 0
Delivers rest text closes o =
    (s : Session) × (o ≡ returned s)
    × (s.context ≡ some fresh)
    × Holds rest s.conn.input
    × (s.conn.wire ++ contents s.conn.output ≡ text)
    × IsSound text s.conn
    × (is_connected s.conn.state ≡ not closes)

-- A well-formed request, and any bytes behind it, come in on an open connection in one or more
-- reads, at whatever times: each read brings at least a byte and no more than it offers room for,
-- and behind each but the last, more bytes are still to come than the body and those behind the
-- request have, so that no cut is within the body. The parser is fresh, the input is empty, and the
-- callback answers the request with the same response, of fewer than 2 ^ 31 bytes, whenever it was
-- received; `write` takes at most what it is handed, the peer does not go away in the send, and the
-- address space suffices. Then all reads return; exactly one response is sent, behind all
-- that had been sent before, and the channel waits for writing while some of it waits; the
-- connection stays open unless the response closes it; the parser
-- is fresh again, and exactly the bytes behind the request are left in the input buffer.
pub reads-Delivers :
    (callback : Callback) (write : Bytes → WriteResult) (m : Message) (rest : Bytes)
    (response : HttpResponse) (ps : List Piece) (conn : TcpConnection) (sent : Bytes)
    → IsWellFormed m
    → joined ps ≡ Message.render m rest
    → CutsBefore (length m.body + length rest) ps
    → Answers callback (λ time. expected time m) response
    → length (render response) < 2 ^ 31
    → Holds [] conn.input
    → HasRoom callback write ps (record { conn = conn; context = some fresh })
    → IsOpen write
    → is_connected conn.state ≡ true
    → Fits (length (render response)) conn.output
    → IsSound sent conn
    → Delivers rest
        (sent ++ render response)
        response.close_connection
        (reads callback write ps (record { conn = conn; context = some fresh }))
unfolding parse_text
reads-Delivers callback write m rest response ps conn sent w all cuts answers small empty room o
      live fits s =
    let awaits : Awaits (λ time. expected time m) rest (joined ps) fresh (contents conn.input) =
      λ time. rw (empty.holds, all) ((time, parse_text-render time m rest w)) in
    let (b, e, left) =
      pieces-Answered callback write (λ time. expected time m) m.body rest response ps conn fresh
        empty.valid (λ k. cc) awaits (λ t. refl) answers small cuts room in
    let d =
      perform-Sent response.close_connection write (render response) sent
        (record conn { input = b }) o live fits
        (record {
          valid = s.valid;
          mask = s.mask;
          in_order = s.in_order;
          awaited = s.awaited;
          last = s.last;
        }) in
    (
      _,
      e,
      refl,
      rw (perform-input write (answer response) (record conn { input = b })) left,
      d.sound.in_order,
      d.sound,
      d.status,
    )
