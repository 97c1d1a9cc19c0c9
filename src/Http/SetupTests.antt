-- ===== src/Http/SetupTests.antt =====
-- A server that is put together and started.
use simple_http_server.Common.{◌+◌, ◌≡◌, refl, arith, Bool, true, []}
use simple_http_server.Common.Bytes.{codes}
use simple_http_server.Net.InetAddress.{InetAddress, to_ip_port}
use simple_http_server.Net.LoopThreadPool
use simple_http_server.Net.LoopThreadPool.{new_pool, get_next_loop}
use simple_http_server.Net.TcpServer
use simple_http_server.Net.TcpServer.{
  TcpServer, Connection, connect_established, new_server, conn_name, put, new_connection,
}
use simple_http_server.Net.TcpServer.Lives.{post}
use simple_http_server.Net.TcpServer.System.{World, Reach, here, next, accepts, run_in_loop}
use simple_http_server.Net.TcpServer.Refinement.{idle}
use simple_http_server.Net.TcpServer.Simulation.{Simulated}
use simple_http_server.Http.Server.{default_http_callback}
use simple_http_server.Http.Server.Setup.{
  HttpServer, new_http_server, set_http_callback, set_thread_num, start, started, start-Simulated,
}

abbrev everywhere : InetAddress
everywhere = record { ip = codes "0.0.0.0"; port = 8000 }

everywhere_text : to_ip_port everywhere ≡ codes "0.0.0.0:8000"
unfolding to_ip_port
everywhere_text = refl

abbrev dummy : Bool × HttpServer
dummy = started (λ i. i + 2) 1 4 everywhere (codes "dummy") default_http_callback

abbrev dummy_conn : Connection
dummy_conn = record { id = 1; name = conn_name (dummy.1.server) 1; fd = 7; io_loop = 2 }

abbrev with_dummy_conn : TcpServer
with_dummy_conn = record (dummy.1.server) {
  thread_pool = record (dummy.1.server.thread_pool) { next = 1 };
  next_conn_id = 2;
  connections = put dummy_conn.name dummy_conn [];
}

abbrev dummy_world : World
dummy_world =
    run_in_loop 1 2 (post connect_established dummy_conn)
      (record (idle dummy.1.server) { server = with_dummy_conn })

dummy-Reach : Reach (idle dummy.1.server) dummy_world
unfolding start set_thread_num set_http_callback new_http_server new_server TcpServer.start
    TcpServer.set_thread_num LoopThreadPool.start LoopThreadPool.set_thread_num new_pool
    new_connection get_next_loop
dummy-Reach = next here (accepts 7 dummy_conn with_dummy_conn refl (omega arith))

start-Simulated_example :
    (dummy.0 ≡ true) × (dummy.1.http_callback ≡ default_http_callback) × Simulated dummy_world
start-Simulated_example =
    start-Simulated (λ i. i + 2) 1 4 everywhere (codes "dummy") default_http_callback dummy_world
      (omega arith) dummy-Reach
