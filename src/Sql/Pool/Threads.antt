-- ===== src/Sql/Pool/Threads.antt =====
-- The pool among the threads that use it: each step is what one thread does under the mutex, or
-- its unlocked test at the start of `GetConnection`.
use simple_http_server.Common.{ℕ, ◌+◌, ◌≡◌, true, false, List, ◌∷◌, ◌++◌, Option, none, some}
use simple_http_server.Sql.Pool.{SqlConnectionPool, is_empty, take_connection, release_connection}

-- The pool, the number of threads between the first test and the end of their wait, and the
-- connections that are handed out.
pub record World : Type 0 where
  pub pool : SqlConnectionPool
  pub inside : ℕ
  pub held : List ℕ

-- The connection that a call gives, added to those handed out.
abbrev pub handed : Option ℕ → List ℕ → List ℕ
handed none held = held
handed (some c) held = c ∷ held

pub data Step (w : World) : World → Type 0 where
  -- the first test finds the list empty, and the call returns null
  refuse : is_empty w.pool.conn_list ≡ true → Step w w
  enter : is_empty w.pool.conn_list ≡ false → Step w (record w { inside = w.inside + 1 })
  -- a thread inside goes on, with a connection or by the end of its time
  go_on :
      (n : ℕ)
      → w.inside ≡ n + 1
      → Step w (record {
        pool = (take_connection w.pool).1;
        inside = n;
        held = handed (take_connection w.pool).0 w.held;
      })
  -- a connection that has been handed out comes back
  give_back :
      (before after : List ℕ) (c : ℕ)
      → w.held ≡ before ++ c ∷ after
      → Step w (record w { pool = (release_connection (some c) w.pool).1; held = before ++ after })
  -- a call without a connection gives null back
  give_back_null : Step w (record w { pool = (release_connection none w.pool).1 })

pub data Reach (w : World) : World → Type 0 where
  here : Reach w w
  next : {u v : World} → Reach w u → Step u v → Reach w v
