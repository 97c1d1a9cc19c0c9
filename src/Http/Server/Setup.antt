-- ===== src/Http/Server/Setup.antt =====
-- mymuduo/http/HttpServer.h and HttpServer.cpp: the server as it is put together and started.
use simple_http_server.Common.{ℕ, ◌≡◌, refl, arith, Bool, true, false}
use simple_http_server.Common.Bytes.{Bytes}
use simple_http_server.Net.InetAddress.{InetAddress, IsValid, to_ip_port, length-to_ip_port}
use simple_http_server.Net.TcpServer
use simple_http_server.Net.TcpServer.{TcpServer, new_server}
use simple_http_server.Net.TcpServer.System.{World, Reach}
use simple_http_server.Net.TcpServer.Simulation.{Simulated}
use simple_http_server.Net.TcpServer.Refinement.{idle, Reach-Simulated}
use simple_http_server.Http.Server.{Callback, default_http_callback}

-- The connection and the message callback are always the server's own.
pub record HttpServer : Type 0 where
  pub server : TcpServer
  pub http_callback : Callback

unfoldable pub new_http_server : ℕ → InetAddress → Bytes → HttpServer
unfolding new_server to_ip_port default_http_callback
new_http_server loop address name = record {
  server = new_server loop (to_ip_port address) name;
  http_callback = default_http_callback;
}

unfoldable pub set_http_callback : Callback → HttpServer → HttpServer
set_http_callback callback h = record h { http_callback = callback }

unfoldable pub set_thread_num : ℕ → HttpServer → HttpServer
set_thread_num n h = record h { server = TcpServer.set_thread_num n h.server }

-- Returns also whether the acceptor is made to listen.
unfoldable pub start : (ℕ → ℕ) → HttpServer → Bool × HttpServer
start start_loop h =
    let (listens, server) = TcpServer.start start_loop false h.server in
    (listens, record h { server = server })

-- A server on an address, with a number of threads and a callback, when it has been started.
abbrev pub started : (ℕ → ℕ) → ℕ → ℕ → InetAddress → Bytes → Callback → Bool × HttpServer
started start_loop loop threads address name callback =
    start start_loop
      (set_thread_num threads (set_http_callback callback (new_http_server loop address name)))

-- A server on a valid address, with any callback and any number of threads, listens when it is
-- started; then, whatever connections come in, of which there are fewer than 2 ^ 31, whatever open
-- ones are closed, and in whatever order the loops run their functors, it keeps to the
-- specification of the lives of connections.
pub start-Simulated :
    (start_loop : ℕ → ℕ) (loop threads : ℕ) (address : InetAddress) (name : Bytes)
    (callback : Callback) (w : World)
    → IsValid address
    → Reach (idle (started start_loop loop threads address name callback).1.server) w
    → ((started start_loop loop threads address name callback).0 ≡ true)
      × ((started start_loop loop threads address name callback).1.http_callback ≡ callback)
      × Simulated w
unfolding start set_thread_num set_http_callback new_http_server new_server TcpServer.start
    TcpServer.set_thread_num
start-Simulated start_loop loop threads address name callback w v r =
    (refl, refl, Reach-Simulated _ w refl (length-to_ip_port address v) (omega arith) r)
