-- ===== src/Net/TcpServer/Simulation.antt =====
-- The server implements the specification: whatever the loops do, each connection lives as it says.
use simple_http_server.Common.{
  ℕ, ◌+◌, ◌^◌, ◌<◌, ◌≡◌, ◌≢◌, refl, sym, subst, ap, ◌∙◌, arith, true, false, List, [], ◌∷◌, ◌++◌,
  some, inl, inr, Bool-cases, ◌==◌, ==_iff, if◌then◌else◌, append-nil,
}
use simple_http_server.Common.Bytes.{equal_iff}
use simple_http_server.Net.LoopThreadPool.{EventLoopThreadPool}
use simple_http_server.Net.TcpServer.{
  Connection, Job, connect_established, remove_connection_in_loop, connect_destroyed, TcpServer,
  find, put, conn_name,
}
use simple_http_server.Net.TcpServer.Names.{find-put, conn_name-equal}
use simple_http_server.Net.TcpServer.Lives.{
  Stage, accepted, open_, closing, removed, destroyed, unborn, at, opens, closes, leaves, ends,
  Lives, become, Allowed, born, moves, Post, post, opened,
}
use simple_http_server.Net.TcpServer.Views.{
  only, only_other, only_lone, only_behind, only_behind_other, length-opened, opened-inv,
}
use simple_http_server.Net.TcpServer.System.{World, run_job, run_in_loop}
use simple_http_server.Net.TcpServer.Moves.{
  post_id, conn_id, Shows, Implements, conn_of, moved, run_established, run_removed, run_destroyed,
  waits,
}

-- A specified state that the system implements.
abbrev pub Simulated : World → Type 0
Simulated w = (lives : Lives) × Allowed lives × Implements w lives

run_as :
    (w : World) (lives : Lives) (before after : List Post) (job : Job) (c : Connection)
    → Allowed lives
    → Implements w lives
    → w.posts ≡ before ++ post job c ∷ after
    → Simulated (run_job (post job c) (record w { posts = before ++ after }))
run_as w lives before after connect_established c a m e =
    let stage = (waits w lives before after (post connect_established c) m e).0 in
    (
      become (at open_ c) c.id lives,
      moves c accepted open_ a stage opens,
      moved w _ lives c accepted open_ m stage (run_established w lives before after c m e),
    )
run_as w lives before after remove_connection_in_loop c a m e =
    let stage = (waits w lives before after (post remove_connection_in_loop c) m e).0 in
    (
      become (at removed c) c.id lives,
      moves c closing removed a stage leaves,
      moved w _ lives c closing removed m stage (run_removed w lives before after c m e),
    )
run_as w lives before after connect_destroyed c a m e =
    let stage = (waits w lives before after (post connect_destroyed c) m e).0 in
    (
      become (at destroyed c) c.id lives,
      moves c removed destroyed a stage ends,
      moved w _ lives c removed destroyed m stage (run_destroyed w lives before after c m e),
    )

pub runs_Simulated :
    (w : World) (before after : List Post) (p : Post)
    → Simulated w
    → w.posts ≡ before ++ p ∷ after
    → Simulated (run_job p (record w { posts = before ++ after }))
runs_Simulated w before after p (lives, a, m) e = run_as w lives before after p.job p.conn a m e

-- A functor that may wait may also be run at once.
pub at_once_Simulated :
    (w : World) (this loop : ℕ) (p : Post)
    → Simulated (record w { posts = w.posts ++ p ∷ [] })
    → Simulated (run_in_loop this loop p w)
unfolding run_in_loop
at_once_Simulated w this loop p s = elim (Bool-cases (this == loop)) [
  | inl e ↦ rw e (
      subst (λ ps. Simulated (run_job p (record w { posts = ps }))) (append-nil w.posts)
        (runs_Simulated (record w { posts = w.posts ++ p ∷ [] }) w.posts [] p s refl))
  | inr e ↦ rw e s
]

pub closes_Simulated :
    (w : World) (before after : List Connection) (c : Connection)
    → Simulated w
    → w.opened ≡ before ++ c ∷ after
    → Simulated (record w {
      opened = before ++ after;
      posts = w.posts ++ post remove_connection_in_loop c ∷ [];
    })
unfolding conn_name
closes_Simulated w before after c (lives, a, m) e =
    let p = post remove_connection_in_loop c in
    let l = lives c.id in
    let (one, gone) =
      only_lone conn_id before c after (opened l)
        (ap (only conn_id c.id) (sym e) ∙ (m.shows c.id).open_here) (length-opened l) in
    let stage : lives c.id ≡ at open_ c = opened-inv c l one in
    let now : Shows w c.id (at open_ c) = subst (Shows w c.id) stage (m.shows c.id) in
    (
      become (at closing c) c.id lives,
      moves c open_ closing a stage closes,
      moved w _ lives c open_ closing m stage (record {
        same_address = refl;
        same_next = refl;
        same_names = λ id. refl;
        others = λ id h l s. record {
          posts = only_behind_other post_id id w.posts p h ∙ s.posts;
          open_here =
              sym (only_other conn_id id before c after h)
              ∙ ap (only conn_id id) (sym e)
              ∙ s.open_here;
          ran = s.ran;
          in_map = s.in_map;
        };
        this = record {
          posts = only_behind post_id w.posts p ∙ ap (λ t. t ++ p ∷ []) now.posts;
          open_here = gone;
          ran = now.ran;
          in_map = now.in_map;
        };
      }),
    )

-- The connection that `newConnection` makes, and the server behind it.
abbrev pub new_of : ℕ → TcpServer → ℕ → Connection
new_of fd s io_loop = record {
  id = s.next_conn_id;
  name = conn_name s s.next_conn_id;
  fd = fd;
  io_loop = io_loop;
}

abbrev pub with_new : Connection → EventLoopThreadPool → TcpServer → TcpServer
with_new c pool s = record s {
  thread_pool = pool;
  next_conn_id = s.next_conn_id + 1;
  connections = put c.name c s.connections;
}

pub born_Simulated :
    (w : World) (fd io_loop : ℕ) (pool : EventLoopThreadPool)
    → Simulated w
    → w.server.next_conn_id < 2 ^ 31
    → let c = new_of fd w.server io_loop in
      Simulated (record w {
        server = with_new c pool w.server;
        posts = w.posts ++ post connect_established c ∷ [];
      })
unfolding conn_name
born_Simulated w fd io_loop pool (lives, a, m) small = (
  become (at accepted c) c.id lives,
  born c a unborn_yet,
  record {
    address = m.address;
    bounded = omega arith;
    fresh = λ id h.
        let other : (c.id == id) ≡ false = ground arith in rw other (m.fresh id (omega arith));
    named = λ id r d f. elim (Bool-cases (c.id == id)) [
      | inl same ↦ born_name id r d same (rw same at f)
      | inr other ↦ m.named id r d (rw other at f)
    ];
    shows = λ id. elim (Bool-cases (c.id == id)) [
      | inl same ↦ rw same (subst (λ j. Shows v j (at accepted c)) ((==_iff c.id id).0 same) this)
      | inr other ↦ rw other (others id other)
    ];
  },
)
  where
    c : Connection
    c = new_of fd w.server io_loop

    v : World
    v = record w {
      server = with_new c pool w.server;
      posts = w.posts ++ post connect_established c ∷ [];
    }

    unborn_yet : lives c.id ≡ unborn
    unborn_yet = m.fresh c.id (omega arith)

    born_name :
        (id : ℕ) (r : Stage) (d : Connection)
        → (c.id == id) ≡ true
        → at accepted c ≡ at r d
        → (d.id ≡ id) × (d.name ≡ conn_name v.server id)
    born_name id r d same f =
        let eq : c.id ≡ id = (==_iff c.id id).0 same in
        let who : c ≡ d = ap (conn_of c) f in
        (
          sym (ap conn_id who) ∙ eq,
          sym (ap (λ (x : Connection). x.name) who) ∙ ap (conn_name w.server) eq,
        )

    now : Shows w c.id unborn
    now = subst (Shows w c.id) unborn_yet (m.shows c.id)

    this : Shows v c.id (at accepted c)
    this = record {
      posts =
          only_behind post_id w.posts (post connect_established c)
          ∙ ap (λ t. t ++ post connect_established c ∷ []) now.posts;
      open_here = now.open_here;
      ran = now.ran;
      in_map = λ fits.
          find-put c.name c.name c w.server.connections
          ∙ ap (λ b. if b then some c else find c.name w.server.connections)
              ((equal_iff c.name c.name).1 refl);
    }

    others : (id : ℕ) → (c.id == id) ≡ false → Shows v id (lives id)
    others id other =
        let h : c.id ≢ id = ground (arith, other) in
        let s = m.shows id in
        record {
          posts = only_behind_other post_id id w.posts (post connect_established c) h ∙ s.posts;
          open_here = s.open_here;
          ran = s.ran;
          in_map = λ fits.
              find-put (conn_name w.server id) c.name c w.server.connections
              ∙ ap (λ b. if b then some c else find (conn_name w.server id) w.server.connections)
                  (conn_name-equal w.server c.id id m.address small fits ∙ other)
              ∙ s.in_map fits;
        }
