-- ===== src/Net/TcpServer/Lives.antt =====
-- The specification: what becomes of a connection. It is accepted, opened, closed, taken out of the
-- server's map and destroyed, in this order and each once; connections do not affect one another.
use simple_http_server.Common.{ℕ, ◌≡◌, List, [], ◌∷◌, Option, none, some, ◌==◌, if◌then◌else◌}
use simple_http_server.Net.TcpServer.{
  Connection, Job, connect_established, remove_connection_in_loop, connect_destroyed,
}

pub data Stage : Type 0 where
  accepted open_ closing removed destroyed : Stage

pub data Life : Type 0 where
  unborn : Life
  at : Stage → Connection → Life

pub data Follows : Stage → Stage → Type 0 where
  opens : Follows accepted open_
  closes : Follows open_ closing
  leaves : Follows closing removed
  ends : Follows removed destroyed

-- The connection of each number.
abbrev pub Lives : Type 0
Lives = ℕ → Life

abbrev pub become : Life → ℕ → Lives → Lives
become l id lives j = if id == j then l else lives j

pub data Allowed : Lives → Type 0 where
  nobody : Allowed (λ id. unborn)
  born :
      {lives : Lives} (c : Connection)
      → Allowed lives
      → lives c.id ≡ unborn
      → Allowed (become (at accepted c) c.id lives)
  moves :
      {lives : Lives} (c : Connection) (s t : Stage)
      → Allowed lives
      → lives c.id ≡ at s c
      → Follows s t
      → Allowed (become (at t c) c.id lives)

pub record Post : Type 0 where
  pub job : Job
  pub conn : Connection

abbrev pub post : Job → Connection → Post
post job c = record { job = job; conn = c }

-- What a life looks like from outside: the job that waits for it, the connection if it is open, the
-- jobs that have been run for it, and what the server's map has of it.
abbrev pub waiting : Life → List Post
waiting (at accepted c) = post connect_established c ∷ []
waiting (at closing c) = post remove_connection_in_loop c ∷ []
waiting (at removed c) = post connect_destroyed c ∷ []
waiting _ = []

abbrev pub opened : Life → List Connection
opened (at open_ c) = c ∷ []
opened _ = []

abbrev pub done : Life → List Post
done unborn = []
done (at accepted c) = []
done (at open_ c) = post connect_established c ∷ []
done (at closing c) = post connect_established c ∷ []
done (at removed c) = post connect_established c ∷ post remove_connection_in_loop c ∷ []
done (at destroyed c) =
    post connect_established c ∷ post remove_connection_in_loop c ∷ post connect_destroyed c ∷ []

abbrev pub known : Life → Option Connection
known (at accepted c) = some c
known (at open_ c) = some c
known (at closing c) = some c
known _ = none
