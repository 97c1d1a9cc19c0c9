-- ===== src/Sql/Tests.antt =====
-- The pool of connections with three of them, and two threads.
use mathlib.Core.List.Perm
use simple_http_server.Common.{if◌then◌else◌, true, ◌+◌, ◌≡◌, refl, [], ◌∷◌, some}
use simple_http_server.Common.Outcome.{Ends, pos, returned}
use simple_http_server.Sql.Pool.{
  SqlConnectionPool, new_pool, init, take_connection, release_connection, get_free_conn,
}
use simple_http_server.Sql.Pool.Threads.{World, Reach, here, next, enter, go_on, give_back}
use simple_http_server.Common.Bytes.{codes, equal}
use simple_http_server.Sql.Pool.Start.{Opened, init-Opened}
use simple_http_server.Sql.Operation.{
  Database, row, no_row, select_text, get_query_res, insert_new_user,
}
use simple_http_server.Sql.Operation.Returns.{
  beside, GivesBack, get_query_res-GivesBack, insert_new_user-GivesBack,
}
use simple_http_server.Sql.Pool.Ownership.{IsSound, Reach-IsSound}

-- As `init` leaves the pool.
abbrev full : SqlConnectionPool
full = record {
  max_conn = pos 3;
  cur_conn = pos 0;
  free_conn = pos 3;
  conn_list = 11 ∷ 12 ∷ 13 ∷ [];
}

full-init : init (λ i. some (i + 11)) 3 new_pool ≡ returned full
unfolding init new_pool
full-init = refl

abbrev idle : World
idle = record { pool = full; inside = 0; held = [] }

idle-IsSound : IsSound (11 ∷ 12 ∷ 13 ∷ []) idle
idle-IsSound = record { owned = Perm.refl _; free = refl; used = refl }

-- Two threads have taken one each, and the first has given its own back.
abbrev one_back : World
one_back = record {
  pool = record { max_conn = pos 3; cur_conn = pos 1; free_conn = pos 2; conn_list = 13 ∷ 11 ∷ [] };
  inside = 0;
  held = 12 ∷ [];
}

one_back-Reach : Reach idle one_back
unfolding take_connection release_connection get_free_conn
one_back-Reach =
    next (next (next (next (next here (enter refl)) (enter refl)) (go_on 1 refl)) (go_on 0 refl))
      (give_back (12 ∷ []) [] 11 refl)

Reach-IsSound_example : IsSound (11 ∷ 12 ∷ 13 ∷ []) one_back
Reach-IsSound_example = Reach-IsSound (11 ∷ 12 ∷ 13 ∷ []) idle one_back idle-IsSound one_back-Reach

init-Opened_example : Ends (Opened 3) (init (λ i. some (i + 11)) 3 new_pool)
init-Opened_example = init-Opened (λ i. some (i + 11)) 3

-- A database with one user, and threads that do nothing.
abbrev one_user : Database
one_user = record {
  select = λ text.
      if equal text (select_text (codes "alice")) then row (some (codes "1") ∷ []) else no_row;
  execute = λ text. true;
  others = λ q. q;
}

-- One connection is in other hands.
abbrev two_idle : SqlConnectionPool
two_idle = record {
  max_conn = pos 3;
  cur_conn = pos 1;
  free_conn = pos 2;
  conn_list = 12 ∷ 13 ∷ [];
}

two_idle-IsSound : IsSound (12 ∷ 13 ∷ 11 ∷ []) (beside (11 ∷ []) two_idle)
two_idle-IsSound = record { owned = Perm.refl _; free = refl; used = refl }

get_query_res-GivesBack_example :
    Ends (GivesBack (12 ∷ 13 ∷ 11 ∷ []) (11 ∷ [])) (get_query_res one_user (codes "alice") two_idle)
get_query_res-GivesBack_example =
    get_query_res-GivesBack (12 ∷ 13 ∷ 11 ∷ []) (11 ∷ []) one_user (λ q s. s) (codes "alice")
      two_idle two_idle-IsSound

insert_new_user-GivesBack_example :
    Ends
      (GivesBack (12 ∷ 13 ∷ 11 ∷ []) (11 ∷ []))
      (insert_new_user one_user (codes "bob") (codes "secret") two_idle)
insert_new_user-GivesBack_example =
    insert_new_user-GivesBack (12 ∷ 13 ∷ 11 ∷ []) (11 ∷ []) one_user (λ q s. s) (codes "bob")
      (codes "secret") two_idle two_idle-IsSound
