-- ===== src/Net/TcpServer/Moves.antt =====
-- When a loop runs a functor, one connection moves to its next stage, and no other is affected.
use simple_http_server.Common.{
  ℕ, ◌^◌, ◌≤◌, ◌<◌, ◌≡◌, ◌≢◌, refl, sym, subst, ap, ◌∙◌, arith, leb, true, false, List, [], ◌∷◌,
  ◌++◌, none, inl, inr, Bool-cases, ◌==◌, ==_iff, if◌then◌else◌, length,
}
use simple_http_server.Common.Bytes.{equal, equal_iff}
use simple_http_server.Net.TcpServer.{
  Connection, connect_established, remove_connection_in_loop, connect_destroyed, find, conn_name,
  forget,
}
use simple_http_server.Net.TcpServer.Names.{find-erase, conn_name-equal}
use simple_http_server.Net.TcpServer.Lives.{
  Stage, accepted, open_, closing, removed, destroyed, Life, unborn, at, Lives, become, Post, post,
  waiting, opened, done, known,
}
use simple_http_server.Net.TcpServer.Views.{
  only, only_other, only_lone, only_behind, only_behind_other, length-waiting, stage_of,
  waiting-inv,
}
use simple_http_server.Net.TcpServer.System.{World, run_job}

abbrev pub post_id : Post → ℕ
post_id p = p.conn.id

abbrev pub conn_id : Connection → ℕ
conn_id c = c.id

-- The system shows this life for the connection of this number.
pub record Shows (w : World) (id : ℕ) (l : Life) : Type 0 where
  pub posts : only post_id id w.posts ≡ waiting l
  pub open_here : only conn_id id w.opened ≡ opened l
  pub ran : only post_id id w.ran ≡ done l
  pub in_map : id < 2 ^ 31 → find (conn_name w.server id) w.server.connections ≡ known l

pub record Implements (w : World) (lives : Lives) : Type 0 where
  pub address : length w.server.ip_port ≤ 21
  pub bounded : w.server.next_conn_id ≤ 2 ^ 31
  pub fresh : (id : ℕ) → w.server.next_conn_id ≤ id → lives id ≡ unborn
  pub named :
      (id : ℕ) (s : Stage) (c : Connection)
      → lives id ≡ at s c
      → (c.id ≡ id) × (c.name ≡ conn_name w.server id)
  pub shows : (id : ℕ) → Shows w id (lives id)

-- A connection that is born has a number that fits.
pub number_fits :
    {w : World} {lives : Lives} (m : Implements w lives) (id : ℕ) (s : Stage) (c : Connection)
    → lives id ≡ at s c
    → (id < w.server.next_conn_id) × (id < 2 ^ 31)
number_fits {w} {lives} m id s c e = elim (Bool-cases (leb w.server.next_conn_id id)) [
  | inl late ↦ absurd (unborn_at (sym (m.fresh id (ground (arith, late))) ∙ e))
  | inr early ↦ (ground (arith, early), ground (arith, early, m.bounded))
]
  where
    unborn_at : unborn ≡ at s c → ⊥
    unborn_at e = cc

-- One connection moves on, and nothing changes for the others.
pub record Moves (w v : World) (c : Connection) (t : Stage) : Type 0 where
  pub same_address : v.server.ip_port ≡ w.server.ip_port
  pub same_next : v.server.next_conn_id ≡ w.server.next_conn_id
  pub same_names : (id : ℕ) → conn_name v.server id ≡ conn_name w.server id
  pub others : (id : ℕ) → c.id ≢ id → (l : Life) → Shows w id l → Shows v id l
  pub this : Shows v c.id (at t c)

abbrev pub conn_of : Connection → Life → Connection
conn_of c unborn = c
conn_of c (at s d) = d

pub moved :
    (w v : World) (lives : Lives) (c : Connection) (s t : Stage)
    → Implements w lives
    → lives c.id ≡ at s c
    → Moves w v c t
    → Implements v (become (at t c) c.id lives)
moved w v lives c s t m e k = record {
  address = omega (arith, ap length k.same_address, m.address);
  bounded = omega (arith, k.same_next, m.bounded);
  fresh = λ id h. elim (Bool-cases (c.id == id)) [
    | inl same ↦ absurd (ground (arith, same, number_fits m c.id s c e, k.same_next))
    | inr other ↦ rw other (m.fresh id (omega (arith, k.same_next)))
  ];
  named = λ id r d f. elim (Bool-cases (c.id == id)) [
    | inl same ↦ moved_name id r d same (rw same at f)
    | inr other ↦
        let (number, name) = m.named id r d (rw other at f) in
        (number, name ∙ sym (k.same_names id))
  ];
  shows = λ id. elim (Bool-cases (c.id == id)) [
    | inl same ↦ rw same (subst (λ j. Shows v j (at t c)) ((==_iff c.id id).0 same) k.this)
    | inr other ↦ rw other (k.others id (λ eq. cc_other id other eq) (lives id) (m.shows id))
  ];
}
  where
    cc_other : (id : ℕ) → (c.id == id) ≡ false → c.id ≡ id → ⊥
    cc_other id other eq = ground (arith, other, eq)

    moved_name :
        (id : ℕ) (r : Stage) (d : Connection)
        → (c.id == id) ≡ true
        → at t c ≡ at r d
        → (d.id ≡ id) × (d.name ≡ conn_name v.server id)
    moved_name id r d same f =
        let eq : c.id ≡ id = (==_iff c.id id).0 same in
        let who : c ≡ d = ap (conn_of c) f in
        let name = (m.named c.id s c e).1 in
        (
          sym (ap conn_id who) ∙ eq,
          sym (ap (λ (x : Connection). x.name) who)
              ∙ name
              ∙ ap (conn_name w.server) eq
              ∙ sym (k.same_names id),
        )

-- A functor that waits is run: the connection had reached the stage that the functor belongs to.
pub waits :
    (w : World) (lives : Lives) (before after : List Post) (p : Post)
    → Implements w lives
    → w.posts ≡ before ++ p ∷ after
    → (lives p.conn.id ≡ at (stage_of p.job) p.conn)
      × (only post_id p.conn.id (before ++ after) ≡ [])
waits w lives before after p m e =
    let l = lives p.conn.id in
    let (one, rest) =
      only_lone post_id before p after (waiting l)
        (ap (only post_id p.conn.id) (sym e) ∙ (m.shows p.conn.id).posts) (length-waiting l) in
    (waiting-inv p.job p.conn l one, rest)

pub others_posts :
    (w : World) (before after : List Post) (p : Post) (id : ℕ) (l : Life)
    → w.posts ≡ before ++ p ∷ after
    → p.conn.id ≢ id
    → Shows w id l
    → only post_id id (before ++ after) ≡ waiting l
others_posts w before after p id l e h s =
    sym (only_other post_id id before p after h) ∙ ap (only post_id id) (sym e) ∙ s.posts

pub run_established :
    (w : World) (lives : Lives) (before after : List Post) (c : Connection)
    → Implements w lives
    → w.posts ≡ before ++ post connect_established c ∷ after
    → Moves w (run_job (post connect_established c) (record w { posts = before ++ after })) c open_
unfolding run_job conn_name
run_established w lives before after c m e =
    let p = post connect_established c in
    let (stage, gone) = waits w lives before after p m e in
    let now : Shows w c.id (at accepted c) = subst (Shows w c.id) stage (m.shows c.id) in
    record {
      same_address = refl;
      same_next = refl;
      same_names = λ id. refl;
      others = λ id h l s. record {
        posts = others_posts w before after p id l e h s;
        open_here = only_behind_other conn_id id w.opened c h ∙ s.open_here;
        ran = only_behind_other post_id id w.ran p h ∙ s.ran;
        in_map = s.in_map;
      };
      this = record {
        posts = gone;
        open_here = only_behind conn_id w.opened c ∙ ap (λ t. t ++ c ∷ []) now.open_here;
        ran = only_behind post_id w.ran p ∙ ap (λ t. t ++ p ∷ []) now.ran;
        in_map = now.in_map;
      };
    }

-- Another name is not touched by a change under this one.
pub name_differs :
    (w : World) (lives : Lives) (s : Stage) (c : Connection) (id : ℕ)
    → Implements w lives
    → lives c.id ≡ at s c
    → c.id ≢ id
    → id < 2 ^ 31
    → equal c.name (conn_name w.server id) ≡ false
name_differs w lives s c id m e h small =
    ap (λ n. equal n (conn_name w.server id)) (m.named c.id s c e).1
    ∙ conn_name-equal w.server c.id id m.address (number_fits m c.id s c e).1 small
    ∙ ground (arith, h)

pub run_removed :
    (w : World) (lives : Lives) (before after : List Post) (c : Connection)
    → Implements w lives
    → w.posts ≡ before ++ post remove_connection_in_loop c ∷ after
    → Moves w
        (run_job (post remove_connection_in_loop c) (record w { posts = before ++ after }))
        c
        removed
unfolding run_job conn_name forget
run_removed w lives before after c m e =
    let p = post remove_connection_in_loop c in
    let q = post connect_destroyed c in
    let (stage, gone) = waits w lives before after p m e in
    let now : Shows w c.id (at closing c) = subst (Shows w c.id) stage (m.shows c.id) in
    record {
      same_address = refl;
      same_next = refl;
      same_names = λ id. refl;
      others = λ id h l s. record {
        posts =
            only_behind_other post_id id (before ++ after) q h
            ∙ others_posts w before after p id l e h s;
        open_here = s.open_here;
        ran = only_behind_other post_id id w.ran p h ∙ s.ran;
        in_map = λ small.
            find-erase (conn_name w.server id) c.name w.server.connections
            ∙ ap (λ b. if b then none else find (conn_name w.server id) w.server.connections)
                (name_differs w lives closing c id m stage h small)
            ∙ s.in_map small;
      };
      this = record {
        posts = only_behind post_id (before ++ after) q ∙ ap (λ t. t ++ q ∷ []) gone;
        open_here = now.open_here;
        ran = only_behind post_id w.ran p ∙ ap (λ t. t ++ p ∷ []) now.ran;
        in_map = λ small.
            find-erase (conn_name w.server c.id) c.name w.server.connections
            ∙ ap (λ b. if b then none else find (conn_name w.server c.id) w.server.connections)
                ((equal_iff c.name (conn_name w.server c.id)).1 (m.named c.id closing c stage).1);
      };
    }

pub run_destroyed :
    (w : World) (lives : Lives) (before after : List Post) (c : Connection)
    → Implements w lives
    → w.posts ≡ before ++ post connect_destroyed c ∷ after
    → Moves w
        (run_job (post connect_destroyed c) (record w { posts = before ++ after }))
        c
        destroyed
unfolding run_job conn_name
run_destroyed w lives before after c m e =
    let p = post connect_destroyed c in
    let (stage, gone) = waits w lives before after p m e in
    let now : Shows w c.id (at removed c) = subst (Shows w c.id) stage (m.shows c.id) in
    record {
      same_address = refl;
      same_next = refl;
      same_names = λ id. refl;
      others = λ id h l s. record {
        posts = others_posts w before after p id l e h s;
        open_here = s.open_here;
        ran = only_behind_other post_id id w.ran p h ∙ s.ran;
        in_map = s.in_map;
      };
      this = record {
        posts = gone;
        open_here = now.open_here;
        ran = only_behind post_id w.ran p ∙ ap (λ t. t ++ p ∷ []) now.ran;
        in_map = now.in_map;
      };
    }
