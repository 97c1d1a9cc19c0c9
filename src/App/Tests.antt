-- ===== src/App/Tests.antt =====
-- Requests to the program, and forms.
use simple_http_server.Common.{
  ◌+◌, ◌^◌, ◌<◌, ◌≡◌, refl, arith, true, [], ◌∷◌, some, length, inr, if◌then◌else◌,
}
use simple_http_server.Common.Bytes.{Bytes, codes, equal}
use simple_http_server.Common.Decimal.{decimal}
use simple_http_server.Common.Outcome.{returned, pos}
use simple_http_server.Net.Buffer.{Buffer}
use simple_http_server.Net.Buffer.Laws.{Holds}
use simple_http_server.Http.Request.{Method, Version, method_string}
use simple_http_server.Http.Response.{number}
use simple_http_server.Http.Response.Render
use simple_http_server.Http.Context.{fresh}
use simple_http_server.Http.Context.Message
use simple_http_server.Http.Context.Message.{Message, expected, IsWellFormed}
use simple_http_server.Http.Server.{on_message, wants_close}
use simple_http_server.Http.Server.Serve.{answer}
use simple_http_server.Sql.Pool.{SqlConnectionPool}
use simple_http_server.Sql.Operation.{Database, row, no_row, select_text}
use simple_http_server.App.{File, missing, mapped, form_fields, check_register}
use simple_http_server.App.Names.{IsPlain, AgreeOnPlain, check_register-agree}
use simple_http_server.App.Forms.{form, form_fields-form}
use simple_http_server.App.Pages.{page, callback_of, on_message-parent}

form_fields-form_example :
    form_fields (form (codes "user") (codes "a=b") (codes "pw") (codes "x&y"))
    ≡ some (codes "a=b", codes "x&y")
form_fields-form_example =
    form_fields-form (codes "user") (codes "a=b") (codes "pw") (codes "x&y") (ground arith)
      (ground arith) (ground arith) (ground arith)

abbrev pool : SqlConnectionPool
pool = record { max_conn = pos 1; cur_conn = pos 0; free_conn = pos 1; conn_list = 11 ∷ [] }

abbrev empty_table : Database
empty_table = record { select = λ text. no_row; execute = λ text. true; others = λ q. q }

-- It gives a row to one statement that no plain name makes.
abbrev injected : Database
injected = record {
  select = λ text. if equal text (select_text (codes "' OR 1=1 -- ")) then row [] else no_row;
  execute = λ text. true;
  others = λ q. q;
}

injected-AgreeOnPlain : AgreeOnPlain injected empty_table
unfolding select_text equal
injected-AgreeOnPlain = record { others = refl; select = same_rows; execute = λ u p h k. refl }
  where
    same_rows :
        (u : Bytes)
        → IsPlain u
        → injected.select (select_text u) ≡ empty_table.select (select_text u)
    same_rows [] h = absurd (omega (arith, h.long_enough))
    same_rows (c ∷ cs) h = ground (arith, h.unquoted.0)

check_register-agree_example :
    check_register injected (codes "mallory", codes "' OR 1=1 -- ") pool
    ≡ check_register empty_table (codes "mallory", codes "' OR 1=1 -- ") pool
check_register-agree_example =
    check_register-agree injected empty_table injected-AgreeOnPlain
      (codes "mallory", codes "' OR 1=1 -- ") pool

abbrev home : Message
home = record {
  method = Method.get;
  path = codes "/";
  query = [];
  version = Version.http11;
  headers = [];
  body = [];
}

abbrev up : Message
up = record home { path = codes "/../my.cnf" }

up-IsWellFormed : IsWellFormed up
up-IsWellFormed = record {
  known = λ e. cc;
  versioned = inr refl;
  path_space = ground arith;
  path_question = ground arith;
  path_return = ground arith;
  query_question = tt;
  query_space = tt;
  query_return = tt;
  header_lines = tt;
  sized = refl;
}

abbrev secret_files : Bytes → File
secret_files name =
    if equal name (codes "../root/../my.cnf") then mapped (codes "password") else missing

abbrev up_arrived : Buffer
up_arrived = record {
  buffer = 0 ∷ 0 ∷ 0 ∷ 0 ∷ 0 ∷ 0 ∷ 0 ∷ 0 ∷ Message.render up [];
  reader_index = 8;
  writer_index = 8 + length (Message.render up []);
}

up_arrived-Holds : Holds (Message.render up []) up_arrived
unfolding method_string
up_arrived-Holds = record { valid = omega arith; holds = refl }

on_message-parent_example :
    (b' : Buffer) × (on_message
        (callback_of secret_files empty_table pool)
        9
        (some fresh)
        up_arrived
      ≡ returned (some fresh, b', answer (page (codes "password") (wants_close (expected 9 up)))))
    × Holds [] b'
on_message-parent_example =
    on_message-parent secret_files empty_table pool 9 up (codes "my.cnf") (codes "password") []
      up_arrived refl refl up-IsWellFormed up_arrived-Holds (unfold equal in refl) small_enough
  where
    small_enough :
        length (Render.render (page (codes "password") (wants_close (expected 9 up)))) < 2 ^ 31
    small_enough = unfold wants_close in unfold decimal in unfold number in omega arith
