-- ===== src/Sql/Pool/Start.antt =====
-- The pool after `init`.
use mathlib.Core.List.Perm
use simple_http_server.Common.{
  ℕ, zero, suc, ◌+◌, ◌≡◌, refl, ap, ◌∙◌, arith, [], ◌∷◌, ◌++◌, Option, length, length-append,
  append-nil, inl, inr, Option-cases,
}
use simple_http_server.Common.Outcome.{
  Outcome, returned, faulted, running, Ends, ◌>>=◌, pos, increment,
}
use simple_http_server.Sql.Pool.{SqlConnectionPool, new_pool, connect_from, init}
use simple_http_server.Sql.Pool.Ownership.{IsSound}

-- `n` more connections are idle, and counted; none is in use.
record Grown (n : ℕ) (p q : SqlConnectionPool) : Type 0 where
  count : length q.conn_list ≡ length p.conn_list + n
  free : q.free_conn ≡ pos (length q.conn_list)
  used : q.cur_conn ≡ p.cur_conn

connect_from-Grown :
    (connect : ℕ → Option ℕ) (i n : ℕ) (p : SqlConnectionPool)
    → p.free_conn ≡ pos (length p.conn_list)
    → Ends (Grown n p) (connect_from connect i n p)
unfolding connect_from
connect_from-Grown connect i zero p f = record { count = omega arith; free = f; used = refl }
connect_from-Grown connect i (suc n) p f = elim (Option-cases (connect i)) [
  | inl e ↦ rw (e, connect_from) tt
  | inr (con, e) ↦
      let p1 : SqlConnectionPool = record p {
        conn_list = p.conn_list ++ con ∷ [];
        free_conn = increment p.free_conn;
      } in
      let one : length p1.conn_list ≡ length p.conn_list + 1 =
        length-append p.conn_list (con ∷ []) in
      rw (e, connect_from)
        (Grown-later n p p1 one refl _ (connect_from-Grown connect (i + 1) n p1 (rw (f, one) refl)))
]
  where
    Grown-later :
        (n : ℕ) (p p1 : SqlConnectionPool)
        → length p1.conn_list ≡ length p.conn_list + 1
        → p1.cur_conn ≡ p.cur_conn
        → (o : Outcome SqlConnectionPool) → Ends (Grown n p1) o
        → Ends (Grown (suc n) p) o
    Grown-later n p p1 one u (returned q) g = record {
      count = omega (arith, g.count);
      free = g.free;
      used = g.used ∙ u;
    }
    Grown-later n p p1 one u (faulted e) g = tt
    Grown-later n p p1 one u running g = absurd g

-- A pool of `n` connections, all of them idle, its bound and its counters set to match.
pub record Opened (n : ℕ) (q : SqlConnectionPool) : Type 0 where
  pub count : length q.conn_list ≡ n
  pub bound : q.max_conn ≡ pos n
  pub sound : IsSound q.conn_list (record { pool = q; inside = 0; held = [] })

-- `init` on a new pool, for any number of connections and whatever the connecting gives: unless a
-- connection fails, which exits, the pool has that many connections, all of them idle, `m_MaxConn`
-- is that number, and the pool is sound with nothing handed out.
pub init-Opened : (connect : ℕ → Option ℕ) (n : ℕ) → Ends (Opened n) (init connect n new_pool)
unfolding init new_pool
init-Opened connect n =
    opened (connect_from connect 0 n new_pool) (connect_from-Grown connect 0 n new_pool refl)
  where
    opened :
        (o : Outcome SqlConnectionPool)
        → Ends (Grown n new_pool) o
        → Ends (Opened n) (o >>= λ q. returned (record q { max_conn = q.free_conn }))
    opened (returned q) g =
        let all_idle : length q.conn_list ≡ n = omega (arith, g.count) in
        record {
          count = all_idle;
          bound = g.free ∙ ap pos all_idle;
          sound = record {
            owned = rw (append-nil q.conn_list) (Perm.refl q.conn_list);
            free = g.free;
            used = g.used;
          };
        }
    opened (faulted e) g = tt
    opened running g = absurd g
