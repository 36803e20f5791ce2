-- ===== src/Lib.antt =====
-- TrantorNet: a model of its buffer, its text functions, its event loop, its timer, its threads,
-- its connections and its asynchronous files, with the theorems about them.
--
-- The program is a library of network servers in C++. A loop (`src/net`) waits for events of file
-- descriptors and calls the pipes that stand for them; other threads hand it tasks and wake it
-- through an eventfd; a timerfd runs its timers. Connections (`src/tcp`) read and write through byte
-- buffers (`src/tool`). Thread pools and locks stand in `src/thread`, asynchronous files in `src/aio`.
--
-- Base: shared names, Boolean tests, lists, sums over lists, memory as a list of bytes with reads
--   and writes of slices, words of 8 to 64 bits with their wrap-around, signed integers.
-- Tool/StringBuffer: `StringBuffer` of src/tool/inc/StringBuffer.h and src/tool/src/StringBuffer.cc.
--   The state is the allocation of the vector, its size and the two indices, words of 64 bits. How
--   far a vector grows is the parameter `grow`, with what the standard says of it as hypothesis.
--   Children: Append (writing and growing), Consume (reading), Lines (lines and `unwrite`), History
--   (all calls as a queue of bytes), Faults (branches on which bytes are lost).
-- Tool/Funcs: Hex, Quote, Base64, Url and Split model functions of src/tool/src/Funcs.cc, on lists
--   of bytes. Split/Pieces holds the split byte by byte that `split_string` is compared with.
-- Tool/Timestamp: `TrantorTimestamp` of src/tool/src/TrantorTimestamp.cc, by signed integers.
-- Tool/TimeWheel: `TimeWheel` of src/tool/src/TimeWheel.cc, with the owners of each entry counted.
--   Rotation is about the tick at which an entry is due.
-- Tool/Any: `TrantorAny` of src/tool/inc/TrantorAny.h, as variables that point to holders on a heap.
--   The types of C++ are the parameter `Code`, with their values and their comparison. Copies is
--   about variables as values, Casts about what a cast gives.
-- Net/Pipe: `TrantorPipe` of src/net/src/TrantorPipe.cc: event masks, callbacks and their dispatch.
-- Net/EPoll: `TrantorEPoll` of src/net/src/TrantorEPoll.cc. The kernel's epoll is the parameter
--   `Kernel`, with laws from its manual page.
-- Net/Loop: `TrantorLoop` of src/net/src/TrantorLoop.cc and the eventfd of
--   src/net/src/TrantorEvent.cc. What a user's task does to the loop is the parameter `run_user`.
--   One round of `loop` is a function of the state; Sync compares the map of pipes with what epoll
--   watches. Interleaving is a second model of the queue of tasks, as a step relation of the loop and
--   of any number of posting threads.
-- Net/Timer: `TrantorTimer` of src/net/src/TrantorTimer.cc: the callbacks by trigger time and the
--   settings of the timerfd. The clock is an argument. Order is about the map, Arming and Firing
--   about the timerfd.
-- Net/TimedLoop: the loop with its timer and its eventfd: `runAt`, `runAfter` and `runEvery` from any
--   thread, and rounds in which the timerfd is handled like other pipes. Counts, Calls
--   and Decent are about single calls, Kept and Rounds about rounds, Promises about histories
--   and Due about the firing.
-- Net/LoopPool: `TrantorLoopThreadPool` of src/net/src/TrantorLoopThreadPool.cc; a loop is its number.
-- Tcp/Socket: `SocketOperator` of src/tcp/src/SocketOperator.cc, with the kernel's results as
--   arguments.
-- Tcp/Connection: `TcpConnection` of src/tcp/src/TcpConnection.cc in the thread of its loop. Its calls
--   of the loop, the kernel and the user are a list of effects. Invariant and Steps hold what every
--   event keeps, Stream what follows for whole histories.
-- Tcp/Server: `TcpServer` and `TcpAcceptor` of src/tcp/src/TcpServer.cc and
--   src/tcp/src/TcpAcceptor.cc: a heap of connections, the map that owns them, and the pipes that
--   loops hold. Its step relation runs the events of Tcp/Connection and reacts to their effects.
--   Conduct and Tidy are about one event, Owners, Kept and Leaks about all histories, Dangling about a
--   close by force.
-- Tcp/Listen: the same two classes from the constructors over `init` and `start` to the sockets that
--   are accepted in the main loop; Tcp/Listen/Placement follows them into the pool of Net/LoopPool.
-- Aio/Operator: `FdOperator` of src/aio/src/FdOperator.cc, built like Tcp/Connection; what a callback
--   does to the operator is the parameter `run_user`.
-- Aio/Manager: `FdOperatorManager` of src/aio/src/FdOperatorManager.cc.
-- Aio/Files: any number of operators with their manager and the map of the poll. A call of an
--   operator runs the model of Aio/Operator, and what it noted as effects is then done to the manager,
--   to the poll and to the other operators. Keeps says what all calls keep, Standing and Watching what
--   one operator notes and waits for, Managed and Alert what the manager and its readers make of it,
--   Opening, Reached and Outcome are about histories.
-- Aio/Poll: `FdPoll`, `FdLoop` and `getLoop` of `FdLoopPool`, of src/aio/src/FdPoll.cc,
--   src/aio/src/FdLoop.cc and src/aio/src/FdLoopPool.cc; what operators and tasks do to the loop are
--   parameters.
-- Aio/Log: `FdLog` of src/aio/src/FdLog.cc: the text of a message and the rotation of the files.
-- Thread/Pool: `TrantorFixedThreadPool` and `TrantorSingleThread` of
--   src/thread/src/TrantorThreadPool.cc as a step relation of the threads in `threadFunc`; Cached is
--   `pushTask` of `TrantorCachedThreadPool` on the queues of one moment.
-- Thread/Waking: the same pool with its condition variables: a thread that sleeps wakes by a
--   notification only, and `waitUntilFinished` has at most one caller. Awake is about a pool that is
--   alive, Destroy about its destructor.
-- Thread/ShareMutex, Thread/Semaphore, Thread/BlockQueue: src/thread/src/TrantorShareMutex.cc,
--   src/thread/src/TrantorSemaphore.cc and src/thread/inc/TrantorBlockQueue.h. An operation that
--   stays in its wait gives `none`; the step relations add the users.
-- The files named Examples hold concrete runs.
--
-- Bounds: a move inside StringBuffer is a `memcpy`, which C++ defines only for ranges that do not
-- overlap; a buffer records an overlap for good, and theorems about its bytes ask that there was
-- none. Lengths of buffers are assumed below 2^61 or 2^62 where the theorem says so, so that sums
-- of two of them fit 64 bits; the memory of a process is smaller. Texts whose loops count in an
-- `int` are taken to be shorter than 2^31. Times fit 64 bits with sign. Only `split_string` uses
-- fuel, for its two loops; a separator that is not empty needs no more than the length of the text.
-- All else is structural.
--
-- Not modelled: the starting of threads, the wake-up of the loop of src/aio between threads, the
-- formatting by localtime_r and a stringstream, and the kernel. But for Thread/Waking, condition
-- variables are modelled by their predicates: a waiting thread may go on when its predicate holds.
-- `waitUntilFinished` of the cached pool, `unregisterFromLoop` of the acceptor and `TrantorTimerLoop`,
-- whose constructor does not return, are left out, and so are tests and templates that only format.
-- In Aio/Files what a callback asks of other operators are calls of their own, and an operator that
-- has been used is not opened again.
pub mod Base
pub mod Tool
pub mod Net
pub mod Thread
pub mod Tcp
pub mod Aio
