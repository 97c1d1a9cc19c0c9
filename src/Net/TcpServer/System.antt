-- ===== src/Net/TcpServer/System.antt =====
-- The server among the loops: the functors that wait in their queues, and which connections are
-- open. The steps of different loops come in any order, and so do functors of one loop, so that
-- what holds here does not rest on the order of the queues.
use simple_http_server.Common.{ℕ, ◌^◌, ◌<◌, ◌≡◌, List, [], ◌∷◌, ◌++◌, ◌==◌, if◌then◌else◌}
use simple_http_server.Common.Outcome.{returned}
use simple_http_server.Net.TcpServer.{
  Connection, connect_established, remove_connection_in_loop, connect_destroyed, TcpServer,
  new_connection, forget,
}
use simple_http_server.Net.TcpServer.Lives.{Post, post}

-- `posts` wait in the loops; `opened` are the connections that have been established and not been
-- closed; `ran` are the functors that have been run, the latest last.
pub record World : Type 0 where
  pub server : TcpServer
  pub posts : List Post
  pub opened : List Connection
  pub ran : List Post

-- A functor runs in its loop.
unfoldable pub run_job : Post → World → World
unfolding forget
run_job p w =
    let v = record w { ran = w.ran ++ p ∷ [] } in
    elim p.job [
      | connect_established ↦ record v { opened = v.opened ++ p.conn ∷ [] }
      | remove_connection_in_loop ↦ record v {
        server = forget p.conn v.server;
        posts = v.posts ++ post connect_destroyed p.conn ∷ [];
      }
      | connect_destroyed ↦ v
    ]

-- `runInLoop`, called in the loop `here`.
unfoldable pub run_in_loop : ℕ → ℕ → Post → World → World
unfolding run_job
run_in_loop here loop p w =
    if here == loop then run_job p w else record w { posts = w.posts ++ p ∷ [] }

pub data Step (w : World) : World → Type 0 where
  -- the acceptor hands over a descriptor, and the count of connections fits an `int`
  accepts :
      (fd : ℕ) (c : Connection) (s : TcpServer)
      → new_connection fd w.server ≡ returned (c, s)
      → w.server.next_conn_id < 2 ^ 31
      → Step w
          (run_in_loop s.base_loop c.io_loop (post connect_established c) (record w { server = s }))
  -- an open connection is closed in its loop, once, and tells the server by `removeConnection`
  closes :
      (before after : List Connection) (c : Connection)
      → w.opened ≡ before ++ c ∷ after
      → Step w (
          run_in_loop c.io_loop w.server.base_loop
            (post remove_connection_in_loop c)
            (record w { opened = before ++ after }))
  -- some loop runs a functor that waits
  runs :
      (before after : List Post) (p : Post)
      → w.posts ≡ before ++ p ∷ after
      → Step w (run_job p (record w { posts = before ++ after }))

pub data Reach (w : World) : World → Type 0 where
  here : Reach w w
  next : {u v : World} → Reach w u → Step u v → Reach w v
