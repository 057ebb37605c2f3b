-- ===== src/Lib.antt =====
-- qing, an asynchronous network library in C++: a timer engine, a byte buffer, the poller over
-- IOCP, epoll or kqueue, and the sockets, listeners and clients that it serves.
--
-- A client's loop calls `Update` of its timer engine, which runs the callbacks that are due, and
-- polls. The poller hands the events of the system to the sockets of its pool by `onRead` and
-- `onWrite`. A listener puts the sockets that it accepts into the pool.
--
-- Timer: include/qing/util/time_engine.h and src/util/time_engine.cpp.
--   Clock and LocalClock: the arithmetic of the clocks, `Init` and `IfTriggerLocalTimer`.
--   Defs: `ETimer` and `TimerThread` as records, the two maps as association lists in the order of
--     their keys (Common/OrdMap), `Register`, `RegisterByMilSec`, `UnRegister` and `Update`. A
--     callback is a number, and the host says which calls of `Register`, `RegisterByMilSec` and
--     `UnRegister` each run of a callback makes. A callback that calls `Update`, which the recursive
--     mutexes allow, is in Reentry alone. A registration carries the outcomes of its `try_lock`
--     calls, so that it stands for any contention with other threads; the calls and the passes of
--     `Update` are wholes here. The loops of `Update` run on fuel: one round for each node and one
--     more is enough where the callbacks put no timer into the map of the loop (Termination).
--   Reentry, ReentryCalls, Reentered: `Update` in one thread, with callbacks that call `Update`
--     too. The depth is a bound on the calls of `Update` in one another; none is made where no
--     callback calls it.
--   FunTime, Watches: `fun_time_test_begin`, `fun_time_test_end` and `print_all_fun_time`.
--   Tables, Register, Visit, Frame, Passes, Growth: what single steps do to the two maps.
--   Valid and Preserve: the engine's invariant. Deleted and Doomed: timers that were unregistered.
--     OneShot: timers that run once. History: calls and passes in any order. Termination: the end of
--     the loops. Due and Timing: when a timer runs. Reads, Pace and Rate: how often. Rising and
--     Order: in which order a pass runs them. Thread: the destructor and what else the header
--     declares. Unending: a callback that keeps a pass from ending. Walk, Reference: `Update`
--     without calls, against a walk. Tests, PassTests, OrderTests, ReentryTests, RateTests,
--     ThreadTests, LocalTests: the engine at concrete inputs.
--   Threads: `Register` in several threads, statement by statement; the other calls and the passes
--     of `Update` come between as wholes, and `++_cur_timer_id` is one step. ThreadSteps, Ids, Race:
--     its invariant. Overtake: one thread alone, and two that cross.
--   Locks: the same with nothing whole: `Update` node by node, and the calls, those of the
--     callbacks too, statement by statement, in any number of threads under the two recursive
--     mutexes. Callbacks do not call `Update` here. A thread holds a mutex from one step to the next
--     in a loop of `Update` alone. Deeds, Nodes: what a statement does to the engine. Moves, Calls,
--     Frames: and to its thread. Runners, Safe: the invariant. Iterators, Awaited, Marked: the
--     loops' iterators, and `UnRegister`, under it. Onces, Shots, OneShot: a timer that runs once.
--     Alone, Whole, Events: one thread's statements against the calls and the passes of Defs.
--     Deadlock, Crossing: two threads in `Update`. Tests, OnceTests, CrossingTests: threads at
--     concrete inputs.
--   LocalTrigger, LocalZone: what the local clock decides.
-- Net: src/net and include/qing/net.
--   Buffer (buffer.cpp), Stream: a buffer against the stream of its bytes.
--   Client (tcp_client.cpp), Connect: `connect` on ten attempts; the fuel, 11 rounds, is never
--     used up. Which attempts the system refuses is a parameter.
--   Run (tcp_client.cpp), RunHistory: `TcpClient`, and the loop of `run`, round by round; what the
--     handlers call under `RunPoll`, which the repository has no code of, is an argument.
--   Poller (poller.cpp), Dispatch, Events: the constructor, the destructor, the pool, and the
--     three versions of `poll`. A socket's object is a number; the events of the system are the
--     arguments.
--   Interest (poller.cpp), Interests: `convertEventMask`, what `add` registers a socket for, and
--     the versions of `modify`, over the masks of sys/epoll.h and the filters of sys/event.h.
--   Util (util.cpp), Sizes: `getNewSocket`, `getHostByName` and `cenvertBytesToSize`.
--   Address (address.cpp): addresses over the system's conversions, a record of functions.
--   Listener (tcp_listener.cpp), Listening: the versions of `listen` and `accept`.
--   Socket (tcp_socket.cpp), SocketLaws: constructors, handlers, `write`, `read`, `onRead`,
--     `close`. `onRead` tests `_ioData.bytes`, which `IO_DATA` has under HAVE_IOCP alone: this is
--     the socket of IOCP. SocketLife: these operations and the system's completions in any order. A
--     socket that only `TcpSocket(poller)` has made, in which no member of `_ioData` is set, is not
--     among them.
--   Server: a listener and the sockets that `accept` makes, on epoll, where nothing is concluded
--     from what `onRead` finds in `_ioData.bytes`. The listener is registered with the socket
--     manager: who calls its `onRead` is open, and it is a step of its own. Targets, Objects,
--     Serving: the server's objects under any order of steps.
--   Iocp, Completions: the requests of listeners and sockets, as the poller on IOCP finds them.
--   Linux: the same server over an epoll instance. Epoll: the instance as an interface, with what
--     epoll's documentation says of it while its waits do not fail. Serve: the server's steps.
--     Events, Watched, Polls, Accepts, Calls: what it calls over its life.
--   Tests, InterestTests, RunTests, SocketTests: the parts at concrete inputs.
-- Logger: `print_log` and `print_log_local` of src/util/logger.cpp. Files: the files after any calls.
-- Platform: the conditions of include/qing/define.hpp and include/qing/net/define.hpp, as functions
--   of the macros that the compiler predefines, and those under which the sources define `IO_DATA`,
--   `poll` and `listen`. Selection: the back ends that they choose. LocalTime: `GetLocalTime` of
--   src/util/timer.cpp by these macros. Tests: some systems.
-- Tasks: `createTask` of include/qing/util/timer.hpp, of one caller, with the threads that it makes;
--   a thread wakes at its time or later. Sleepers, Kept: what becomes of the tasks. Tests: two calls.
-- Common: names of the library, Boolean tests, lists, integers and machine words over ℕ, partial
--   results, and `std::map`.
--
-- Machine integers are natural numbers with their wrap-around written out. A result of `none` is a
-- run that the language does not define, such as a null pointer that is followed or a missing
-- `return`, or fuel that ran out.
--
-- Not modelled: the calls of the operating system, which are parameters or arguments; the socket
-- manager, of which the repository has no code; what vfprintf and snprintf print; base64 and the
-- lock-free queue, which are copies of other libraries; base_socket.hpp and tcp_server.hpp, which
-- declare what no source defines; the samples; callbacks that call `Update` while other threads use
-- the engine.
pub mod Common
pub mod Timer
pub mod Net
pub mod Logger
pub mod Platform
pub mod Tasks
