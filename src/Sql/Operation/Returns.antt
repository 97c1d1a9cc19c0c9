-- ===== src/Sql/Operation/Returns.antt =====
-- A query gives its connection back, whatever the database answers.
use simple_http_server.Common.{
  ℕ, refl, Bool, false, List, [], ◌∷◌, Option, some, none, inl, inr, Bool-cases,
}
use simple_http_server.Common.Bytes.{Bytes}
use simple_http_server.Common.Outcome.{
  Outcome, returned, faulted, running, ◌>>=◌, Settles, Ends, bind-Ends,
}
use simple_http_server.Sql.Pool.{SqlConnectionPool, is_empty, get_connection, release_connection}
use simple_http_server.Sql.Pool.Threads.{World, handed}
use simple_http_server.Sql.Pool.Ownership.{IsSound, go_on-IsSound, give_back-IsSound}
use simple_http_server.Sql.Operation.{
  Database, QueryResult, query_error, no_row, row, columns, query_with, select_text, get_query_res,
  insert_text, insert_row, insert_unless_found, insert_new_user,
}

-- The pool while the other threads hold these connections.
abbrev pub beside : List ℕ → SqlConnectionPool → World
beside held p = record { pool = p; inside = 0; held = held }

-- By the end of a wait, the other threads hold the connections that they held at its start.
abbrev pub IsFair : List ℕ → List ℕ → Database → Type 0
IsFair all held db =
    (q : SqlConnectionPool) → IsSound all (beside held q) → IsSound all (beside held (db.others q))

-- The result of a call is the pool with every connection that the call has taken given back.
abbrev pub GivesBack {ℓ} : {A : Type ℓ} → List ℕ → List ℕ → A × SqlConnectionPool → Type 0
GivesBack all held (result, q) = IsSound all (beside held q)

module _ (all held : List ℕ) (db : Database) (fair : IsFair all held db) where
  get_connection-IsSound :
      (p : SqlConnectionPool)
      → IsSound all (beside held p)
      → let (con, q) = get_connection db.others p in IsSound all (beside (handed con held) q)
  unfolding get_connection
  get_connection-IsSound p s = elim (Bool-cases (is_empty p.conn_list)) [
    | inl e ↦ rw (e, get_connection) s
    | inr e ↦
        rw (e, get_connection)
          (go_on-IsSound (db.others p).conn_list (beside held (db.others p)) 0 refl (fair p s))
  ]

  release-IsSound :
      (c : ℕ) (p : SqlConnectionPool)
      → IsSound all (beside (c ∷ held) p)
      → IsSound all (beside held (release_connection (some c) p).1)
  release-IsSound c p s = give_back-IsSound [] held c (beside (c ∷ held) p) refl s

  columns-Settles : (cs : List (Option Bytes)) → Settles (columns cs)
  unfolding columns
  columns-Settles [] = tt
  columns-Settles (none ∷ cs) = tt
  columns-Settles (some text ∷ cs) =
      bind-Ends (λ _. Unit) (columns cs) _ (columns-Settles cs) (λ _. tt)

  query_with-GivesBack :
      (answer : QueryResult) (c : ℕ) (q : SqlConnectionPool)
      → IsSound all (beside (c ∷ held) q)
      → Ends (GivesBack all held) (query_with answer (some c) q)
  unfolding query_with
  query_with-GivesBack query_error c q s = release-IsSound c q s
  query_with-GivesBack no_row c q s = release-IsSound c q s
  query_with-GivesBack (row cs) c q s =
      bind-Ends (GivesBack all held) (columns cs) _ (columns-Settles cs)
        (λ _. release-IsSound c q s)

  query_on :
      (username : Bytes) (con : Option ℕ) (q : SqlConnectionPool)
      → IsSound all (beside (handed con held) q)
      → Ends (GivesBack all held) (elim con [
        | none ↦ returned ([], q)
        | some c ↦ query_with (db.select (select_text username)) (some c) q
      ])
  query_on username none q s = s
  query_on username (some c) q s = query_with-GivesBack (db.select (select_text username)) c q s

  insert_on :
      (username password : Bytes) (con : Option ℕ) (q : SqlConnectionPool)
      → IsSound all (beside (handed con held) q)
      → Ends {A = Bool × SqlConnectionPool} (GivesBack all held) (elim con [
        | none ↦ returned (false, q)
        | some c ↦
            returned (db.execute (insert_text username password), (release_connection (some c) q).1)
      ])
  insert_on username password none q s = s
  insert_on username password (some c) q s = release-IsSound c q s

  insert_row-GivesBack :
      (username password : Bytes) (p : SqlConnectionPool)
      → IsSound all (beside held p)
      → Ends (GivesBack all held) (insert_row db username password p)
  unfolding insert_row
  insert_row-GivesBack username password p s =
      insert_on username password _ _ (get_connection-IsSound p s)

  -- A sound pool, and other threads that hold the same connections at the end of a wait as at its
  -- start. Unless it stops with a fault, `getQueryRes` leaves the pool sound with the others
  -- holding just what they held: the connection of the query is back, with the counters, on every
  -- path.
  pub get_query_res-GivesBack :
      (username : Bytes) (p : SqlConnectionPool)
      → IsSound all (beside held p)
      → Ends (GivesBack all held) (get_query_res db username p)
  unfolding get_query_res
  get_query_res-GivesBack username p s = query_on username _ _ (get_connection-IsSound p s)

  insert_after :
      (username password : Bytes) (o : Outcome (List Bytes × SqlConnectionPool))
      → Ends (GivesBack all held) o
      → Ends (GivesBack all held) (o >>= insert_unless_found db username password)
  insert_after username password (returned ([], q)) s = insert_row-GivesBack username password q s
  insert_after username password (returned (x ∷ xs, q)) s = s
  insert_after username password (faulted e) s = tt
  insert_after username password running s = absurd s

  -- A sound pool, and other threads that hold the same connections at the end of a wait as at its
  -- start. Unless it stops with a fault, `insertNewUser`, which takes a connection twice, leaves
  -- the pool sound with the others holding just what they held.
  pub insert_new_user-GivesBack :
      (username password : Bytes) (p : SqlConnectionPool)
      → IsSound all (beside held p)
      → Ends (GivesBack all held) (insert_new_user db username password p)
  unfolding insert_new_user
  insert_new_user-GivesBack username password p s =
      insert_after username password (get_query_res db username p)
        (get_query_res-GivesBack username p s)
