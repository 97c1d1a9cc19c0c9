-- ===== src/Sql/Operation.antt =====
-- mymuduo/sql/SqlOperation.cpp: the two queries of the program. The database is a parameter: what
-- it answers to the text of a statement. A column is `none` where it is NULL.
pub mod Returns
use simple_http_server.Common.{ℕ, Bool, false, List, [], ◌∷◌, ◌++◌, Option, none, some}
use simple_http_server.Common.Bytes.{Bytes, codes}
use simple_http_server.Common.Outcome.{Outcome, returned, faulted, ◌>>=◌, bad_access}
use simple_http_server.Sql.Pool.{SqlConnectionPool, get_connection, release_connection}

pub data QueryResult : Type 0 where
  query_error no_row : QueryResult
  row : List (Option Bytes) → QueryResult

-- `others`: what other threads do to the pool during a wait in `GetConnection`.
pub record Database : Type 0 where
  pub select : Bytes → QueryResult
  pub execute : Bytes → Bool
  pub others : SqlConnectionPool → SqlConnectionPool

unfoldable pub select_text : Bytes → Bytes
select_text username = codes "select * from userdata WHERE username='" ++ (username ++ codes "';")

unfoldable pub insert_text : Bytes → Bytes → Bytes
insert_text username password =
    codes "INSERT INTO userdata (username,password) VALUES ('"
    ++ (username ++ (codes "','" ++ (password ++ codes "')")))

-- `std::string(res_row[i])` for every column; a null pointer is not a string.
unfoldable pub columns : List (Option Bytes) → Outcome (List Bytes)
columns [] = returned []
columns (none ∷ cs) = faulted bad_access
columns (some text ∷ cs) = columns cs >>= λ texts. returned (text ∷ texts)

-- The result, and the pool behind the call.
unfoldable pub query_with :
    QueryResult → Option ℕ → SqlConnectionPool → Outcome (List Bytes × SqlConnectionPool)
unfolding columns release_connection
query_with query_error con p = returned ([], (release_connection con p).1)
query_with no_row con p = returned ([], (release_connection con p).1)
query_with (row cs) con p = columns cs >>= λ texts. returned (texts, (release_connection con p).1)

unfoldable pub get_query_res :
    Database → Bytes → SqlConnectionPool → Outcome (List Bytes × SqlConnectionPool)
unfolding query_with select_text get_connection
get_query_res db username p =
    let (con, q) = get_connection db.others p in
    elim con [
      | none ↦ returned ([], q)
      | some c ↦ query_with (db.select (select_text username)) (some c) q
    ]

-- The second half of `insertNewUser`: the name is free.
unfoldable pub insert_row :
    Database → Bytes → Bytes → SqlConnectionPool → Outcome (Bool × SqlConnectionPool)
unfolding insert_text get_connection release_connection
insert_row db username password p =
    let (con, q) = get_connection db.others p in
    elim con [
      | none ↦ returned (false, q)
      | some c ↦
          returned (db.execute (insert_text username password), (release_connection (some c) q).1)
    ]

abbrev pub insert_unless_found :
    Database → Bytes → Bytes → List Bytes × SqlConnectionPool → Outcome (Bool × SqlConnectionPool)
insert_unless_found db username password (x ∷ xs, q) = returned (false, q)
insert_unless_found db username password ([], q) = insert_row db username password q

unfoldable pub insert_new_user :
    Database → Bytes → Bytes → SqlConnectionPool → Outcome (Bool × SqlConnectionPool)
unfolding get_query_res insert_row
insert_new_user db username password p =
    get_query_res db username p >>= insert_unless_found db username password
