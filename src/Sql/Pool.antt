-- ===== src/Sql/Pool.antt =====
-- mymuduo/sql/SqlConnectionPool.h and SqlConnectionPool.cpp: the pool of database connections.
-- A connection is the number that stands for its `MYSQL *`; null is `none`. The section that a
-- call runs under the mutex is one step.
pub mod Threads
pub mod Ownership
pub mod Start
use simple_http_server.Common.{
  ℕ, zero, suc, ◌+◌, ◌≡◌, Bool, true, false, List, [], ◌∷◌, ◌++◌, Option, none, some, if◌then◌else◌,
}
use simple_http_server.Common.Outcome.{
  Outcome, returned, faulted, ◌>>=◌, exited, ℤ, pos, increment, decrement, is_positive,
}

pub record SqlConnectionPool : Type 0 where
  pub max_conn : ℤ
  pub cur_conn : ℤ
  pub free_conn : ℤ
  pub conn_list : List ℕ

-- The constructor leaves `m_MaxConn` unset; 0 stands for it.
unfoldable pub new_pool : SqlConnectionPool
new_pool = record { max_conn = pos 0; cur_conn = pos 0; free_conn = pos 0; conn_list = [] }

-- The loop of `init`, from round `i` on with `left` rounds to go. `connect` is `mysql_init` and
-- `mysql_real_connect`; a failure exits.
unfoldable pub connect_from : (ℕ → Option ℕ) → ℕ → ℕ → SqlConnectionPool → Outcome SqlConnectionPool
connect_from connect i zero p = returned p
connect_from connect i (suc left) p = elim (connect i) [
  | none ↦ faulted exited
  | some con ↦
      connect_from connect (i + 1) left
        (record p { conn_list = p.conn_list ++ con ∷ []; free_conn = increment p.free_conn })
]

unfoldable pub init : (ℕ → Option ℕ) → ℕ → SqlConnectionPool → Outcome SqlConnectionPool
unfolding connect_from
init connect max_conn p =
    connect_from connect 0 max_conn p >>= λ q. returned (record q { max_conn = q.free_conn })

unfoldable pub get_free_conn : SqlConnectionPool → ℤ
get_free_conn p = p.free_conn

abbrev pub is_empty : List ℕ → Bool
is_empty [] = true
is_empty (c ∷ cs) = false

-- `front` and `pop_front`.
abbrev pub pop_front : List ℕ → Option ℕ × List ℕ
pop_front [] = (none, [])
pop_front (c ∷ cs) = (some c, cs)

-- What `GetConnection` does once it has the mutex again: the wait has ended with a free
-- connection, or by its time.
unfoldable pub take_connection : SqlConnectionPool → Option ℕ × SqlConnectionPool
unfolding get_free_conn
take_connection p =
    if is_positive (get_free_conn p)
    then (
      (pop_front p.conn_list).0,
      record p {
        conn_list = (pop_front p.conn_list).1;
        free_conn = decrement p.free_conn;
        cur_conn = increment p.cur_conn;
      },
    )
    else (none, p)

-- `waited` is what the other threads do to the pool until the wait ends.
unfoldable pub get_connection :
    (SqlConnectionPool → SqlConnectionPool) → SqlConnectionPool → Option ℕ × SqlConnectionPool
unfolding take_connection
get_connection waited p = if is_empty p.conn_list then (none, p) else take_connection (waited p)

unfoldable pub release_connection : Option ℕ → SqlConnectionPool → Bool × SqlConnectionPool
release_connection none p = (false, p)
release_connection (some con) p = (
  true,
  record p {
    conn_list = p.conn_list ++ con ∷ [];
    free_conn = increment p.free_conn;
    cur_conn = decrement p.cur_conn;
  },
)

-- Returns also the connections that are closed.
unfoldable pub destroy_pool : SqlConnectionPool → List ℕ × SqlConnectionPool
destroy_pool p =
    if is_empty p.conn_list
    then ([], p)
    else (p.conn_list, record p { cur_conn = pos 0; free_conn = pos 0; conn_list = [] })

-- `connectionRAII`: a connection for as long as a scope runs; `body` is what happens in the scope,
-- to the pool too, as other threads go on.
unfoldable pub with_connection {ℓ} :
    {A : Type ℓ}
    → (SqlConnectionPool → SqlConnectionPool)
    → (Option ℕ → SqlConnectionPool → A × SqlConnectionPool)
    → SqlConnectionPool
    → A × SqlConnectionPool
unfolding get_connection release_connection
with_connection waited body p =
    let (con, q) = get_connection waited p in
    let (result, r) = body con q in (result, (release_connection con r).1)
