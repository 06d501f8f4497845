-- ===== src/Lib.antt =====
-- CoroutineRPC-Scheduler: a scheduler that keeps tasks in MySQL, lets several nodes compete for
-- them over Redis locks, and runs them on workers over a framed RPC. The paths below start at the
-- repository's root.
--
-- The parts and the files that model them:
--   Common                  names of the libraries, tests, lists over native numbers, maps.
--   Protocol                include/corpcron/rpc/protocol.hpp: tryEncode, tryDecodeFrame; Stream the
--                           frames of a stream of bytes.
--   Tasks                   include/corpcron/mysql/mysql_client.hpp and src/mysql/mysql_client.cpp:
--                           Store the statements that change the table `tasks`, Queries the reads
--                           of the scheduler, History the table `task_history`, Pages listTasks,
--                           listHistory, getHistory and getAllTasks, Connections the pool of
--                           connections, Schema ensureSchema, Errors the kinds of errors
--                           (src/common/storage_error.cpp).
--   Cancellation            include/corpcron/common/cancellation.hpp and
--                           src/scheduler/task_cancellation_registry.cpp (Registry).
--   Redis                   src/redis/redis_client.cpp: Server what is assumed of the server and
--                           the retries of `command`, Lock the distributed lock, Services the
--                           registration and discovery of workers.
--   Metrics                 src/metrics/metrics.cpp, and src/metrics/alert_rules.cpp (Alerts).
--   Pool                    src/rpc/rpc_client_pool.cpp: the operations on an endpoint, Address its
--                           parsing, Candidates the choice of endpoints, Call the loop of `call`.
--   Scheduler               src/scheduler/task_scheduler.cpp: Retry and Outcome what follows an
--                           execution, LockRenewer, Execute the call of a worker, Dispatch the
--                           scan of one due task, Job the enqueued job and the recovery of a stale
--                           execution, Scan the whole of scanAndDispatch, World the state that
--                           they share.
--   ThreadPool              src/common/thread_pool.cpp: the queue and the workers.
--   Client                  src/rpc/rpc_client.cpp: the options and the loops on a socket, Call
--                           connect and call, Stream callStream; Deadline, Transfer, Call.Laws,
--                           Call.Failure and Stream.Laws what is proved of them.
--   Server                  src/net/tcp_server.cpp: clientHandler and RpcDispatchAwaitable, Accept
--                           handleAccept; Requests, Chunks, Responses and Replies what is proved of
--                           a connection; EventLoop src/net/epoll_loop.cpp.
--   EndToEnd                a call of Client on a connection of Server.
--   Handlers                src/rpc/handler_registry.cpp, and src/worker/builtin_handlers.cpp
--                           (Builtin).
--   Dispatcher              src/rpc/rpc_dispatcher.cpp: Auth the tokens, Control the handlers that
--                           submit, update, enable, delete and cancel a task, RunNow the handler
--                           that runs one on request, Worker its way to a worker (invokeWorker),
--                           Execution the handler of a worker, Reading the handlers that only read,
--                           Core dispatchCore and the ways in, and Interceptors
--                           src/rpc/rpc_interceptor.cpp.
--   Examples                tests, and the theorems at concrete inputs.
-- The scheduler claims a row of the store under a lock of Redis, registers its cancellation source
-- and its lease, and enqueues a job, which asks a worker through the pool and completes the row. A
-- request goes from the client to the coroutine of its connection, to the thread pool, through the
-- interceptors to a handler of the dispatcher, and back.
--
-- State is passed on explicitly: an operation takes the table, the server's state, the registry or
-- the endpoint's state and returns it with its answer. What is outside of the program is an
-- argument: clocks, cron expressions, protobuf, the reply of each call to MySQL (`Reply`: not sent,
-- refused, done but lost, answered) and to Redis (`Attempt`), and what other threads and clients do
-- meanwhile. A statement of MySQL, a script of Redis and an operation under a mutex is one step, so
-- that interleavings are lists of calls (Tasks.Trace, Cancellation.Registry,
-- Pool.Breaker, ThreadPool.Invariant).
--
-- Numbers: int columns, counts of failures and times are natural numbers; a uint64_t of Metrics
-- wraps around, and a frame's length is 4 bytes. An int option that is not positive is 0. Times are
-- seconds in the store, nanoseconds in the deadlines of a call, and milliseconds of the clocks
-- elsewhere.
--
-- Two loops have fuel. `lock` takes one unit for a round, and Redis.LockLaws.lock_total says how
-- much is enough; a dispatch gives it 4 units for 100 ms, and a recovery 1 for 0 ms. `drain`, which
-- takes frames from a buffer, is given one unit more than the buffer has bytes, and a frame has 8
-- at least: Server.Chunks.client_handler_requests says that no whole frame is left. The other loops
-- run on the lists of what the environment answers; a list that ends is a loop that still runs, and
-- its result says so (pending, reading, suspended).
--
-- Not modelled: system calls, with TcpServer::start and EpollLoop::init; the connections to Redis;
-- the exporter of metrics, printing, configuration, logging, and the applications, which wire the
-- parts together. The scheduler's step takes the answer of the thread pool as an argument, and a
-- run on request what the worker hands back.
pub mod Common
pub mod Protocol
pub mod Client
pub mod Server
pub mod EndToEnd
pub mod Tasks
pub mod Cancellation
pub mod Examples
pub mod Metrics
pub mod Pool
pub mod Redis
pub mod Scheduler
pub mod ThreadPool
pub mod Handlers
pub mod Dispatcher
