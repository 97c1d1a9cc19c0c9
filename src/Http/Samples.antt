-- ===== src/Http/Samples.antt =====
-- A connection, a kernel and a request that the tests of sessions share.
use simple_http_server.Common.{ℕ, ap, arith, refl, [], ◌∷◌, length, inr}
use simple_http_server.Common.Bytes.{Bytes, codes}
use simple_http_server.Common.Outcome.{Outcome, returned}
use simple_http_server.Net.Buffer.{Buffer, WriteResult, wrote, write_error}
use simple_http_server.Net.Poller.{new_poller}
use simple_http_server.Net.Connection.{TcpConnection, new_connection, connect_established}
use simple_http_server.Net.Connection.Parts.{IsSound}
use simple_http_server.Net.Connection.Send.{IsOpen}
use simple_http_server.Net.Connection.Disconnected.{connect_established-IsSound}
use simple_http_server.Http.Request.{Method, Version}
use simple_http_server.Http.Context.Message.{Message, IsWellFormed}
use simple_http_server.Http.Session.{Session}
use simple_http_server.Http.Session.Pieces.{Then}

abbrev pub home : Message
home = record {
  method = Method.get;
  path = codes "/";
  query = [];
  version = Version.http11;
  headers = [];
  body = [];
}

pub home-IsWellFormed : IsWellFormed home
home-IsWellFormed = record {
  known = λ e. cc;
  versioned = inr refl;
  path_space = ground arith;
  path_question = ground arith;
  path_return = ground arith;
  query_question = tt;
  query_space = tt;
  query_return = tt;
  header_lines = tt;
  sized = refl;
}

-- The input buffer of a connection that has read nothing, without its initial room.
abbrev pub empty_input : Buffer
empty_input = record {
  buffer = 0 ∷ 0 ∷ 0 ∷ 0 ∷ 0 ∷ 0 ∷ 0 ∷ 0 ∷ [];
  reader_index = 8;
  writer_index = 8;
}

abbrev pub client : TcpConnection
client = record (connect_established (new_connection 1 5 new_poller)) { input = empty_input }

pub client-IsSound : IsSound [] client
client-IsSound =
    let s = (connect_established-IsSound 1 5 new_poller).0 in
    record {
      valid = s.valid;
      mask = s.mask;
      in_order = s.in_order;
      awaited = s.awaited;
      last = s.last;
    }

-- The kernel takes all.
abbrev pub takes_all : Bytes → WriteResult
takes_all bytes = wrote (length bytes)

pub takes_all-IsOpen : IsOpen takes_all
takes_all-IsOpen = record {
  bounded = λ bytes n e. omega (arith, ap counted e);
  no_reset = λ bytes e h. cc;
}
  where
    counted : WriteResult → ℕ
    counted (wrote n) = n
    counted (write_error e) = 0

-- Nothing is asked for behind the last piece.
pub Then-returned : (o : Outcome Session) → Then (λ s. Unit) o
Then-returned (returned s) = tt
Then-returned _ = tt
