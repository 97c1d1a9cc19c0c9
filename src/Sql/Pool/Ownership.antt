-- ===== src/Sql/Pool/Ownership.antt =====
-- Connections are neither lost nor shared, and the counters count them.
use mathlib.Core.List.{Perm, Nodup, perm_middle}
use mathlib.Core.List.Perm
use simple_http_server.Common.{
  ℕ, suc, ◌≡◌, refl, ap, ◌∙◌, arith, List, [], ◌∷◌, ◌++◌, none, some, length, length-append,
  append_assoc,
}
use simple_http_server.Common.Outcome.{pos, increment}
use simple_http_server.Sql.Pool.{SqlConnectionPool, take_connection, release_connection}
use simple_http_server.Sql.Pool.Threads.{
  World, Step, refuse, enter, go_on, give_back, give_back_null, Reach, here, next, handed,
}

-- The connections of the pool are `all`: idle or handed out, each as often as in `all`.
pub record IsSound (all : List ℕ) (w : World) : Type 0 where
  pub owned : Perm (w.pool.conn_list ++ w.held) all
  pub free : w.pool.free_conn ≡ pos (length w.pool.conn_list)
  pub used : w.pool.cur_conn ≡ pos (length w.held)

take_connection-nil :
    (p : SqlConnectionPool)
    → p.conn_list ≡ []
    → p.free_conn ≡ pos (length p.conn_list)
    → take_connection p ≡ (none, p)
unfolding take_connection
take_connection-nil p e f = rw (f, e, take_connection)

take_connection-cons :
    (p : SqlConnectionPool) (c : ℕ) (l : List ℕ)
    → p.conn_list ≡ c ∷ l
    → p.free_conn ≡ pos (length p.conn_list)
    → take_connection p ≡ (
      some c,
      record p { conn_list = l; free_conn = pos (length l); cur_conn = increment p.cur_conn },
    )
unfolding take_connection
take_connection-cons p c l e f = rw (f, e, take_connection)

moved_back :
    (idle before after : List ℕ) (c : ℕ)
    → Perm ((idle ++ c ∷ []) ++ (before ++ after)) (idle ++ (before ++ c ∷ after))
moved_back idle before after c =
    rw (append_assoc idle (c ∷ []) (before ++ after))
      (Perm.append_left idle (Perm.symm (perm_middle before after)))

module _ {all : List ℕ} where
  pub go_on-IsSound :
      (l : List ℕ) (w : World) (n : ℕ)
      → w.pool.conn_list ≡ l
      → IsSound all w
      → IsSound all (record w {
        pool = (take_connection w.pool).1;
        inside = n;
        held = handed (take_connection w.pool).0 w.held;
      })
  go_on-IsSound [] w n e s =
      rw (take_connection-nil w.pool e s.free)
        (record { owned = s.owned; free = s.free; used = s.used })
  go_on-IsSound (c ∷ l) w n e s = rw (take_connection-cons w.pool c l e s.free) (record {
    owned = Perm.trans (perm_middle l w.held) (rw e at s.owned);
    free = refl;
    used = rw (s.used) (ground arith);
  })

  pub give_back-IsSound :
      (before after : List ℕ) (c : ℕ) (w : World)
      → w.held ≡ before ++ c ∷ after
      → IsSound all w
      → IsSound all
          (record w { pool = (release_connection (some c) w.pool).1; held = before ++ after })
  unfolding release_connection
  give_back-IsSound before after c w e s = record {
    owned = Perm.trans (moved_back w.pool.conn_list before after c) (rw e at s.owned);
    free = rw (s.free, length-append w.pool.conn_list (c ∷ [])) (ground arith);
    used =
        let n : length w.held ≡ suc (length (before ++ after)) =
          ap length e
          ∙ omega (arith, length-append before (c ∷ after), length-append before after) in
        rw (s.used, n);
  }

  Step-IsSound : {u v : World} → Step u v → IsSound all u → IsSound all v
  unfolding release_connection
  Step-IsSound (refuse e) s = s
  Step-IsSound (enter e) s = record { owned = s.owned; free = s.free; used = s.used }
  Step-IsSound {u} (go_on n e) s = go_on-IsSound u.pool.conn_list u n refl s
  Step-IsSound {u} (give_back before after c e) s = give_back-IsSound before after c u e s
  Step-IsSound give_back_null s = record { owned = s.owned; free = s.free; used = s.used }

-- Whatever the threads do, in any interleaving: from a sound pool every reachable one is sound.
-- The idle connections and those handed out are together those that there were, each as often,
-- and the two counters are the numbers of them.
pub Reach-IsSound : (all : List ℕ) (u v : World) → IsSound all u → Reach u v → IsSound all v
Reach-IsSound all u v s here = s
Reach-IsSound all u v s (next {u = m} r st) = Step-IsSound st (Reach-IsSound all u m s r)

-- Whatever the threads do, from a sound pool of distinct connections: none is ever handed out twice
-- at a time, or idle while handed out.
pub Reach-Nodup :
    (all : List ℕ) (u v : World)
    → IsSound all u
    → Nodup all
    → Reach u v
    → Nodup (v.pool.conn_list ++ v.held)
Reach-Nodup all u v s d r = Perm.nodup (Perm.symm (Reach-IsSound all u v s r).owned) d
