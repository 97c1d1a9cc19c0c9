-- ===== src/Net.antt =====
-- mymuduo/net: the network library.
pub mod Buffer
pub mod LoopThreadPool
pub mod Channel
pub mod Poller
pub mod Connection
pub mod EventLoop
pub mod TimerQueue
pub mod LoopThread
pub mod TcpServer
pub mod Acceptor
pub mod InetAddress
pub mod Socket
pub mod Thread
mod Tests
mod LoopTests
mod ThreadTests
mod TimerTests
mod AcceptorTests
