-- ===== src/App/MainTests.antt =====
-- The program as it is started, and a page that is asked for in two pieces.
use simple_http_server.Common.{
  ℕ, ◌^◌, ◌<◌, ◌≡◌, refl, sym, subst, arith, true, false, List, [], ◌∷◌, ◌+◌, Option, some, length,
  if◌then◌else◌,
}
use simple_http_server.Common.Bytes.{Bytes, codes, equal}
use simple_http_server.Common.Decimal.{decimal}
use simple_http_server.Common.Outcome.{returned, ℤ, pos}
use simple_http_server.Net.Buffer.{
  offered, read_fd, absorb, writable_bytes, append, ensure_writable_bytes, make_space, copy_to,
  find_crlf, search_two, init,
}
use simple_http_server.Net.Connection.{new_connection, connect_established}
use simple_http_server.Net.InetAddress.{new_address}
use simple_http_server.Http.Request.{method_string}
use simple_http_server.Http.Response.{number}
use simple_http_server.Http.Response.Render
use simple_http_server.Http.Context.{fresh, parse_request, parse_loop}
use simple_http_server.Http.Context.Message
use simple_http_server.Http.Context.Message.{Message, expected, IsWellFormed}
use simple_http_server.Http.Server.{respond, on_message, wants_close}
use simple_http_server.Http.Samples.{
  home, home-IsWellFormed, client, takes_all, takes_all-IsOpen, client-IsSound, Then-returned,
}
use simple_http_server.Http.Session.{perform, http_message, read_event}
use simple_http_server.Http.Session.Pieces.{Piece, gives, reads, joined, HasRoom, Then}
use simple_http_server.Http.Session.Reads.{Delivers}
use simple_http_server.Sql.Pool
use simple_http_server.Sql.Pool.{new_pool, connect_from}
use simple_http_server.Sql.Operation.{Database, no_row}
use simple_http_server.App.{File, missing, mapped, file_of}
use simple_http_server.App.Pages.{page, page_of, callback_of}
use simple_http_server.App.Delivery.{reads-page}
use simple_http_server.App.Main.{address_of, both_idle, settings, server_of, start_up}

abbrev empty_table : Database
empty_table = record { select = λ text. no_row; execute = λ text. true; others = λ q. q }

abbrev login_only : Bytes → File
login_only name =
    if equal name (codes "../root/login.html") then mapped (codes "<form>") else missing

abbrev first_piece : Piece
first_piece = record { time = 4; bytes = codes "GET / HT" }

abbrev second_piece : Piece
second_piece = record { time = 5; bytes = codes "TP/1.1\r\n\r\nG" }

both_joined : joined (first_piece ∷ second_piece ∷ []) ≡ Message.render home (codes "G")
unfolding method_string
both_joined = refl

first_read :
    read_event
      (callback_of login_only empty_table (both_idle 11 12))
      takes_all
      (gives first_piece.bytes)
      4
      (record { conn = client; context = some fresh })
    ≡ returned (record {
      conn = record client { input = absorb first_piece.bytes client.input };
      context = some fresh;
    })
unfolding read_event http_message on_message respond perform read_fd absorb writable_bytes copy_to
    parse_request parse_loop find_crlf search_two append ensure_writable_bytes make_space
first_read = refl

both-HasRoom :
    HasRoom
      (callback_of login_only empty_table (both_idle 11 12))
      takes_all
      (first_piece ∷ second_piece ∷ [])
      (record { conn = client; context = some fresh })
unfolding offered absorb append copy_to ensure_writable_bytes make_space
both-HasRoom = (
  λ e. cc,
  omega arith,
  omega arith,
  subst
      (Then (
        HasRoom (callback_of login_only empty_table (both_idle 11 12)) takes_all
          (second_piece ∷ [])))
      (sym first_read) ((λ e. cc), omega arith, omega arith, Then-returned _),
)

served :
    page_of (login_only (file_of home.path)) (wants_close (expected 0 home))
    ≡ some (page (codes "<form>") false)
unfolding file_of wants_close
served = refl

form-small : length (Render.render (page (codes "<form>") false)) < 2 ^ 30
unfolding decimal number
form-small = omega arith

reads-page_example : Delivers (codes "G") (Render.render (page (codes "<form>") false)) false (
    reads
      (callback_of login_only empty_table (both_idle 11 12))
      takes_all
      (first_piece ∷ second_piece ∷ [])
      (record { conn = client; context = some fresh }))
unfolding connect_established new_connection init
reads-page_example =
    reads-page login_only empty_table (both_idle 11 12) takes_all home (codes "G")
      (page (codes "<form>") false) (first_piece ∷ second_piece ∷ []) client [] refl
      home-IsWellFormed both_joined (omega arith, tt) served (omega (arith, form-small))
      (record { valid = omega arith; holds = refl }) both-HasRoom takes_all-IsOpen refl
      (omega (arith, form-small)) client-IsSound

-- A stand-in for `atoi`.
abbrev two_or_70000 : Bytes → ℤ
two_or_70000 text = if equal text (codes "2") then pos 2 else pos 70000

abbrev short_text : Bytes → Bytes
short_text text = codes "127.0.0.1"

abbrev accepts : ℕ → Option ℕ
accepts i = some (i + 11)

abbrev arguments : List Bytes
arguments = codes "2" ∷ codes "localhost" ∷ codes "70000" ∷ []

-- With these arguments the program comes to its loop, with both connections idle and a server that
-- listens with the callback of the program.
arguments_start :
    start_up short_text two_or_70000 accepts (λ i. i + 2) 1 login_only empty_table arguments
    ≡ returned (
      both_idle 11 12,
      server_of short_text
          (λ i. i + 2)
          1
          login_only
          empty_table
          (settings two_or_70000 arguments)
          (both_idle 11 12),
    )
unfolding start_up Pool.init connect_from new_pool
arguments_start = refl

-- The port is 70000 cut to 16 bits.
port_cut : (address_of short_text (settings two_or_70000 arguments)).port ≡ 4464
unfolding settings equal new_address
port_cut = refl
