-- ===== src/Net/TcpServer/Teardown.antt =====
-- The destructor of mymuduo/net/TcpServer.cpp: every connection of the map is destroyed in its loop.
use simple_http_server.Common.{
  ℕ, ◌≡◌, refl, sym, ◌∙◌, Bool, true, false, List, [], ◌∷◌, ◌++◌, ◌==◌, if◌then◌else◌, inl, inr,
  Bool-cases, append-nil, append_assoc,
}
use simple_http_server.Common.Bytes.{Bytes}
use simple_http_server.Net.TcpServer.{Connection, connect_destroyed}
use simple_http_server.Net.TcpServer.Lives.{Post, post}
use simple_http_server.Net.TcpServer.System.{World, run_job, run_in_loop}

unfoldable pub destroy_all : ℕ → List (Bytes × Connection) → World → World
unfolding run_in_loop
destroy_all here [] w = w
destroy_all here ((n, c) ∷ m) w =
    destroy_all here m (run_in_loop here c.io_loop (post connect_destroyed c) w)

-- Called in the loop `here`.
unfoldable pub destroy_server : ℕ → World → World
unfolding destroy_all
destroy_server here w = destroy_all here w.server.connections w

-- The destructions in a loop, or in the others.
abbrev pub destructions : (ℕ → Bool) → List (Bytes × Connection) → List Post
destructions in_ [] = []
destructions in_ ((n, c) ∷ m) =
    let rest = destructions in_ m in if in_ c.io_loop then post connect_destroyed c ∷ rest else rest

abbrev pub is_not : ℕ → ℕ → Bool
is_not here loop = if here == loop then false else true

destroy_all_lem :
    (here : ℕ) (m : List (Bytes × Connection)) (w : World)
    → ((destroy_all here m w).ran ≡ w.ran ++ destructions (λ l. here == l) m)
      × ((destroy_all here m w).posts ≡ w.posts ++ destructions (is_not here) m)
      × ((destroy_all here m w).opened ≡ w.opened)
unfolding destroy_all run_in_loop run_job
destroy_all_lem here [] w = (sym (append-nil w.ran), sym (append-nil w.posts), refl)
destroy_all_lem here ((n, c) ∷ m) w =
    let p = post connect_destroyed c in
    elim (Bool-cases (here == c.io_loop)) [
      | inl e ↦
          let (ran, posts, opened) = destroy_all_lem here m (record w { ran = w.ran ++ p ∷ [] }) in
          rw (e, destroy_all)
            (ran ∙ append_assoc w.ran (p ∷ []) (destructions (λ l. here == l) m), posts, opened)
      | inr e ↦
          let (ran, posts, opened) =
            destroy_all_lem here m (record w { posts = w.posts ++ p ∷ [] }) in
          rw (e, destroy_all)
            (ran, posts ∙ append_assoc w.posts (p ∷ []) (destructions (is_not here) m), opened)
    ]

-- The destructor runs the destruction of each connection of its own loop at once, and queues that of
-- each other one for its loop, each once.
pub destroy_server_lem :
    (here : ℕ) (w : World)
    → let m = w.server.connections in
      ((destroy_server here w).ran ≡ w.ran ++ destructions (λ l. here == l) m)
      × ((destroy_server here w).posts ≡ w.posts ++ destructions (is_not here) m)
      × ((destroy_server here w).opened ≡ w.opened)
unfolding destroy_server
destroy_server_lem here w = destroy_all_lem here w.server.connections w
