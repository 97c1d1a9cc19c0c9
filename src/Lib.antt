-- ===== src/Lib.antt =====
-- SimpleHttpServer: an HTTP server in the style of muduo, and a verification library for its core.
--
-- The parts of the program. One thread runs each event loop: it polls, calls the callbacks of the
-- channels that are ready, and runs the functors that other threads have queued. A connection
-- reads from its socket into a buffer and hands the buffer to the HTTP server, which parses
-- requests out of it, has the program's callback fill in a response, and sends the response back
-- through the connection. The example program serves files and keeps its users in a database, with
-- which it speaks over a pool of connections.
--
-- Files and code:
--   Common          names shared by all, native lists, bytes, outcomes of calls, decimal numerals.
--   Net/Buffer      mymuduo/net/Buffer.h and .cpp: `buffer_`, `readerIndex_` and `writerIndex_`, and
--                   each operation under its name in snake_case. View and Laws state it as a queue
--                   of bytes, Io is about `readFd` and `writeFd`, Writers about chains of appends.
--   Net/Channel     mymuduo/net/Channel.h and .cpp: the masks of events, and `handleEvent`.
--   Net/Poller      mymuduo/net/Poller.h, Poller.cpp and EPollPoller.cpp: `updateChannel`,
--                   `removeChannel` and `poll`, with the calls of `epoll_ctl` in a list.
--   Net/Connection  mymuduo/net/TcpConnection.h and .cpp: `send`, `sendInLoop`, `shutdown` and the
--                   handlers of events. Closing is about how often it is closed, Late about a send
--                   that is run behind its end.
--   Net/EventLoop   mymuduo/net/EventLoop.cpp: `runInLoop`, `queueInLoop`, `doPendingFunctors`,
--                   `wakeup`, `quit` and `loop`; `queueInLoop` and `quit` are cut into the sections
--                   between which another thread may come. Threads has the loop's thread among
--                   others as a step relation, Sections and Queue what holds in it, Alone and
--                   Progress the steps of the loop's own thread, Rounds the end of `loop`, Channels
--                   the constructors and destructors.
--   Net/TcpServer   mymuduo/net/TcpServer.h and .cpp: `newConnection`, `removeConnectionInLoop` and
--                   `start`; System has the server among its loops as a step relation, Lives the
--                   specification that Refinement states of it, Teardown the destructor.
--   Net/TimerQueue  mymuduo/net/TimerQueue.cpp, Timer.h and Timer.cpp: `addTimerInLoop`,
--                   `cancelInLoop`, `handleRead` and what they call; Alarm has any sequence of them.
--                   Calls has `addTimer`, `cancel` and the timer calls of EventLoop.cpp, Clock what
--                   the timerfd is set to; Later and Cancelled are about a timer that has been
--                   cancelled, Within about one that a callback cancels; Order keeps the set of active timers in order.
--   Net/LoopThread  mymuduo/net/EventLoopThread.cpp: `threadFunc`, `startLoop` and the destructor,
--                   each cut where the other thread may come between.
--   Utils/Atomic    mymuduo/utils/Atomic.h.
--   Net/LoopThreadPool  mymuduo/net/EventLoopThreadPool.cpp: `start` and `getNextLoop`.
--   Net/InetAddress, Net/Thread  the files of these names in mymuduo/net, and
--                   mymuduo/utils/CurrentThread.h and .cpp.
--   Net/Socket      mymuduo/net/Socket.h and Socket.cpp, and the socket of Acceptor.cpp, with the
--                   kernel as a function from calls to results, and whether the logger returns
--                   behind a `LOG_FATAL` as a parameter.
--   Net/Acceptor    mymuduo/net/Acceptor.h and .cpp: the listening channel and `handleRead`.
--   Http/Headers    the `std::map` of headers, in requests and in responses.
--   Http/Request    mymuduo/http/HttpRequest.h.
--   Http/Context    mymuduo/http/HttpContext.h and .cpp: `parseRequest` as a loop of turns.
--                   Text is the same parser as a function of what the buffer holds, to which
--                   Agreement relates it; Prefix, Chunks, Timeless, Resumed and Pieces are about a
--                   text of which only a part has come in.
--   Http/Response   mymuduo/http/HttpResponse.h and .cpp.
--   Http/Server     mymuduo/http/HttpServer.cpp: `onConnection`, `onMessage` and `onRequest`; Setup has
--                   the constructor and `start`.
--   Http/Session    one HTTP connection as a whole: `handleRead`, `onMessage` and the calls of `send`
--                   and `shutdown` on the same connection; Ready is about any session, Reads about
--                   a request that comes in in pieces, Conversation about one after the other,
--                   Dispatch and Events about the rounds of the loop.
--   Sql/Pool        mymuduo/sql/SqlConnectionPool.h and .cpp; Threads has the threads that use the
--                   pool as a step relation.
--   Sql/Operation   mymuduo/sql/SqlOperation.cpp: the two queries.
--   App             example/test.cpp: the HTTP callback of the program; Main has `main` up to the loop,
--                   Delivery a page from the bytes read to those sent.
--
-- Bounds and fuel. Bytes are natural numbers, and literals stand for their code points. `size_t`
-- arithmetic in the buffer wraps at 2 ^ 64, and an `int` has 32 bits. The loop of `parseRequest`
-- has two turns more of fuel than there are readable bytes: each turn that goes on takes a line
-- from the buffer, but the one that enters the body. A decimal numeral has twenty digits at most,
-- which is enough below 2 ^ 64.
--
-- Parameters. The kernel's `readv` and `write` are functions of what they are handed; their
-- hypotheses are the documented bounds on the result. The database answers texts of statements,
-- the file system names of files, and the callback of the HTTP server is any function.
--
-- Not modelled: the clock, `std::thread`, and what the logger does behind an entry. The steps of
-- Net/EventLoop/Threads begin in the first `poll`, with nothing queued; `poll` may return at any
-- time there, and in Alone only if the eventfd is ready. In
-- Net/TcpServer/System the functors of a loop run in any order, and a connection is closed once, for
-- which Http/Session/Events gives the conditions.
-- `timerQueue_` is never set in mymuduo/net/EventLoop.cpp; Net/TimerQueue is about a queue that is.
pub mod Common
pub mod Utils
pub mod Net
pub mod Http
pub mod Sql
pub mod App
