-- ===== src/Net/TcpServer.antt =====
-- mymuduo/net/TcpServer.h and TcpServer.cpp, and Acceptor.cpp: connections come in at the base loop,
-- are dealt out to the loops of the pool, and leave through the base loop again.
-- A connection is what the server keeps of it: `id` is the value of `nextConnId_` that names it.
-- What a call binds into a functor for a loop is a `Job`; how connections work in their loops is in
-- Net/Connection. The address that `getsockname` gives is only handed on, and is left out.
pub mod Names
pub mod Lives
pub mod Views
pub mod System
pub mod Moves
pub mod Simulation
pub mod Refinement
pub mod Teardown
use simple_http_server.Common.{
  ℕ, ◌+◌, ◌≡◌, Bool, true, false, List, [], ◌∷◌, ◌++◌, Option, none, some, ◌==◌, if◌then◌else◌,
  take,
}
use simple_http_server.Common.Bytes.{Bytes, codes, equal}
use simple_http_server.Common.Decimal.{decimal}
use simple_http_server.Common.Outcome.{Outcome, returned, faulted, bad_access}
use simple_http_server.Net.Channel.{Channel, new_channel}
use simple_http_server.Net.Poller.{EPollPoller, Watched, enable_reading}
use simple_http_server.Net.LoopThreadPool
use simple_http_server.Net.LoopThreadPool.{EventLoopThreadPool, get_next_loop, new_pool}

pub record Connection : Type 0 where
  pub id : ℕ
  pub name : Bytes
  pub fd : ℕ
  pub io_loop : ℕ

-- The functors that the server gives to loops.
pub data Job : Type 0 where
  connect_established remove_connection_in_loop connect_destroyed : Job

pub record TcpServer : Type 0 where
  pub base_loop : ℕ
  pub ip_port : Bytes
  pub name : Bytes
  pub thread_pool : EventLoopThreadPool
  pub started : ℕ
  pub next_conn_id : ℕ
  pub connections : List (Bytes × Connection)

unfoldable pub new_server : ℕ → Bytes → Bytes → TcpServer
unfolding new_pool
new_server loop ip_port name = record {
  base_loop = loop;
  ip_port = ip_port;
  name = name;
  thread_pool = new_pool loop;
  started = 0;
  next_conn_id = 1;
  connections = [];
}

unfoldable pub set_thread_num : ℕ → TcpServer → TcpServer
set_thread_num n s = record s { thread_pool = LoopThreadPool.set_thread_num n s.thread_pool }

-- Returns also whether the acceptor is made to listen: on the first call only.
unfoldable pub start : (ℕ → ℕ) → Bool → TcpServer → Bool × TcpServer
start start_loop has_callback s =
    if s.started == 0
    then (
      true,
      record s {
        started = 1;
        thread_pool = (LoopThreadPool.start start_loop has_callback s.thread_pool).0;
      },
    )
    else (false, record s { started = s.started + 1 })

-- `connections_` is a map by name; its order is never looked at.
unfoldable pub find : Bytes → List (Bytes × Connection) → Option Connection
find n [] = none
find n ((k, c) ∷ m) = if equal k n then some c else find n m

unfoldable pub put : Bytes → Connection → List (Bytes × Connection) → List (Bytes × Connection)
put n c [] = (n, c) ∷ []
put n c ((k, d) ∷ m) = if equal k n then (k, c) ∷ m else (k, d) ∷ put n c m

-- Every entry of the name goes; a map has one at most.
unfoldable pub erase : Bytes → List (Bytes × Connection) → List (Bytes × Connection)
erase n [] = []
erase n ((k, d) ∷ m) = let rest = erase n m in if equal k n then rest else (k, d) ∷ rest

-- `snprintf` into the 64 bytes of `buf` keeps 63 of them.
unfoldable pub conn_name : TcpServer → ℕ → Bytes
unfolding decimal
conn_name s id = s.name ++ take 63 (codes "-" ++ (s.ip_port ++ (codes "#" ++ decimal id)))

abbrev pub accepted_in :
    ℕ → TcpServer → Option ℕ × EventLoopThreadPool → Outcome (Connection × TcpServer)
accepted_in sockfd s (none, pool) = faulted bad_access
accepted_in sockfd s (some io_loop, pool) =
    let c : Connection = record {
      id = s.next_conn_id;
      name = conn_name s s.next_conn_id;
      fd = sockfd;
      io_loop = io_loop;
    } in
    returned (
      c,
      record s {
        thread_pool = pool;
        next_conn_id = s.next_conn_id + 1;
        connections = put c.name c s.connections;
      },
    )

-- `newConnection` up to its last call, by which the loop of the connection runs
-- `connect_established`. A loop outside the vector of loops is a fault.
unfoldable pub new_connection : ℕ → TcpServer → Outcome (Connection × TcpServer)
unfolding get_next_loop conn_name put
new_connection sockfd s = accepted_in sockfd s (get_next_loop s.thread_pool)

-- `removeConnectionInLoop` up to its last call, which queues `connect_destroyed`.
unfoldable pub forget : Connection → TcpServer → TcpServer
unfolding erase
forget c s = record s { connections = erase c.name s.connections }
