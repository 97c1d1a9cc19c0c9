-- ===== src/App/Main.antt =====
-- `main` of example/test.cpp: from the arguments of the command line to the server that listens.
-- `atoi` is that of the C library, `connect` what the database gives, and `dotted` the text that
-- `inet_ntop` gives for what `inet_addr` makes of a text. The set-up of the logger is left out.
use simple_http_server.Common.{ℕ, ◌-◌, ◌^◌, ◌%◌, Bool, List, [], ◌∷◌, Option}
use simple_http_server.Common.Bytes.{Bytes, codes}
use simple_http_server.Common.Outcome.{Outcome, returned, ◌>>=◌, ℤ, pos, negsuc}
use simple_http_server.Net.InetAddress.{InetAddress, new_address}
use simple_http_server.Http.Server.Setup.{HttpServer, started}
use simple_http_server.Sql.Pool.{SqlConnectionPool, new_pool, init}
use simple_http_server.Sql.Operation.{Database}
use simple_http_server.App.{File}
use simple_http_server.App.Pages.{callback_of}

-- An `int` as an unsigned number of `w` bits.
abbrev pub unsigned : ℕ → ℤ → ℕ
unsigned w (pos n) = n % 2 ^ w
unsigned w (negsuc n) = 2 ^ w - 1 - n % 2 ^ w

-- `listenPort` is an `unsigned int`.
pub record Settings : Type 0 where
  pub num_threads : ℤ
  pub listen_addr : Bytes
  pub listen_port : ℕ

abbrev pub defaults : Settings
defaults = record { num_threads = pos 4; listen_addr = codes "0.0.0.0"; listen_port = 8000 }

-- The arguments behind the name of the program.
unfoldable pub settings : (Bytes → ℤ) → List Bytes → Settings
settings atoi [] = defaults
settings atoi (n ∷ []) = record defaults { num_threads = atoi n }
settings atoi (n ∷ a ∷ []) = record defaults { num_threads = atoi n; listen_addr = a }
settings atoi (n ∷ a ∷ p ∷ more) = record {
  num_threads = atoi n;
  listen_addr = a;
  listen_port = unsigned 32 (atoi p);
}

-- A pool of threads with a negative number starts none.
abbrev pub count_of : ℤ → ℕ
count_of (pos n) = n
count_of (negsuc n) = 0

-- The port is cut to 16 bits by the constructor of InetAddress.
abbrev pub address_of : (Bytes → Bytes) → Settings → InetAddress
address_of dotted s = new_address dotted s.listen_port s.listen_addr

-- The server behind `start`.
abbrev pub server_of :
    (Bytes → Bytes)
    → (ℕ → ℕ)
    → ℕ
    → (Bytes → File)
    → Database
    → Settings
    → SqlConnectionPool
    → Bool × HttpServer
server_of dotted start_loop loop files db s pool =
    started start_loop loop (count_of s.num_threads) (address_of dotted s) (codes "dummy")
      (callback_of files db pool)

-- All of `main` before the loop.
unfoldable pub start_up :
    (Bytes → Bytes)
    → (Bytes → ℤ)
    → (ℕ → Option ℕ)
    → (ℕ → ℕ)
    → ℕ
    → (Bytes → File)
    → Database
    → List Bytes
    → Outcome (SqlConnectionPool × (Bool × HttpServer))
unfolding settings init
start_up dotted atoi connect start_loop loop files db args = init connect 2 new_pool >>= λ pool.
    returned (pool, server_of dotted start_loop loop files db (settings atoi args) pool)

abbrev pub both_idle : ℕ → ℕ → SqlConnectionPool
both_idle a b = record {
  max_conn = pos 2;
  cur_conn = pos 0;
  free_conn = pos 2;
  conn_list = a ∷ b ∷ [];
}
