-- ===== src/Net/TcpServer/Refinement.antt =====
-- Every state of the server among its loops implements a specified one.
use simple_http_server.Common.{
  ℕ, ◌^◌, ◌≤◌, ◌<◌, ◌≡◌, refl, subst, ap, [], ◌∷◌, ◌++◌, Option, none, some, length,
}
use simple_http_server.Common.Outcome.{Outcome, returned}
use simple_http_server.Net.LoopThreadPool.{EventLoopThreadPool, get_next_loop}
use simple_http_server.Net.TcpServer.{
  Connection, TcpServer, connect_established, remove_connection_in_loop, new_connection,
  accepted_in, find,
}
use simple_http_server.Net.TcpServer.Lives.{unborn, nobody, post}
use simple_http_server.Net.TcpServer.System.{World, run_in_loop, Step, Reach, next}
use simple_http_server.Net.TcpServer.System
use simple_http_server.Net.TcpServer.Simulation.{
  Simulated, runs_Simulated, at_once_Simulated, closes_Simulated, born_Simulated, new_of, with_new,
}

-- What a successful `newConnection` gives.
connection_of : Connection × TcpServer → Outcome (Connection × TcpServer) → Connection × TcpServer
connection_of d (returned r) = r
connection_of d _ = d

accepted_Simulated :
    (w : World) (fd : ℕ) (c : Connection) (s : TcpServer) (o : Option ℕ × EventLoopThreadPool)
    → Simulated w
    → accepted_in fd w.server o ≡ returned (c, s)
    → w.server.next_conn_id < 2 ^ 31
    → Simulated (record w { server = s; posts = w.posts ++ post connect_established c ∷ [] })
unfolding connection_of
accepted_Simulated w fd c s (none, pool) m e small = cc
accepted_Simulated w fd c s (some io_loop, pool) m e small =
    let d = new_of fd w.server io_loop in
    let same : ◌≡◌ {A = Connection × TcpServer} (d, with_new d pool w.server) (c, s) =
      ap (connection_of (c, s)) e in
    subst
      (λ (r : Connection × TcpServer).
        Simulated (record w { server = r.1; posts = w.posts ++ post connect_established r.0 ∷ [] }))
      same (born_Simulated w fd io_loop pool m small)

Step-Simulated : {u v : World} → Step u v → Simulated u → Simulated v
unfolding new_connection
Step-Simulated {u} (System.accepts fd c s e small) m =
    at_once_Simulated (record u { server = s }) s.base_loop c.io_loop (post connect_established c)
      (accepted_Simulated u fd c s (get_next_loop u.server.thread_pool) m e small)
Step-Simulated {u} (System.closes before after c e) m =
    at_once_Simulated (record u { opened = before ++ after }) c.io_loop u.server.base_loop
      (post remove_connection_in_loop c) (closes_Simulated u before after c m e)
Step-Simulated {u} (System.runs before after p e) m = runs_Simulated u before after p m e

-- A server that no connection has come to yet.
abbrev pub idle : TcpServer → World
idle s = record { server = s; posts = []; opened = []; ran = [] }

idle-Simulated :
    (s : TcpServer)
    → s.connections ≡ []
    → length s.ip_port ≤ 21
    → s.next_conn_id ≤ 2 ^ 31
    → Simulated (idle s)
unfolding find
idle-Simulated s empty short small = (
  (λ id. unborn),
  nobody,
  record {
    address = short;
    bounded = small;
    fresh = λ id h. refl;
    named = λ id r c e. cc;
    shows = λ id. record {
      posts = refl;
      open_here = refl;
      ran = refl;
      in_map = λ fits. rw (empty, find) refl;
    };
  },
)

-- A server without connections, whose address has at most 21 bytes, as every address with a port
-- has. Whatever connections come in, of which there are fewer than 2 ^ 31, whatever open ones are
-- closed, and in whatever order the loops run the functors that wait: the state of the server and of
-- the queues implements a state that the specification of the lives of connections allows. So for
-- each connection at most one functor waits, the functors run for it are some of establishing,
-- removing and destroying it, each once and in this order, and the map has it, under its own name,
-- from when it is accepted until it is removed.
pub Reach-Simulated :
    (s : TcpServer) (w : World)
    → s.connections ≡ []
    → length s.ip_port ≤ 21
    → s.next_conn_id ≤ 2 ^ 31
    → Reach (idle s) w
    → Simulated w
Reach-Simulated s w empty short small System.here = idle-Simulated s empty short small
Reach-Simulated s w empty short small (next {u} r st) =
    Step-Simulated st (Reach-Simulated s u empty short small r)
