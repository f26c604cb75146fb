-- ===== src/Lib.antt =====
-- Verification library of socketpp, an asynchronous socket library in C++.
--
-- The program has layers. An event loop runs on one thread: it runs callbacks that other threads
-- post, and polls a dispatcher, which watches sockets and timers. On it stand TCP connections, whose
-- reads, writes and closes happen on the loop's thread, TCP servers that accept them, and datagram
-- sockets whose peers can be claimed. What users are told goes through a serial queue for each object,
-- which runs callbacks one at a time on a shared thread pool. Below are the asynchronous connect, the
-- accept loop, sockets with their options, addresses and error codes.
--
-- - Base: booleans, lists measured by native numbers, association lists for `std::unordered_map`.
-- - ThreadPool: src/high/thread_pool.cpp. `submit`, `worker` and `shutdown` are the critical sections
--   of the functions of those names; ThreadPool.System interleaves them over any number of threads, and
--   leaves it open when a waiting worker looks again; ThreadPool.Sleeping has the condition variable.
-- - SerialQueue: src/high/serial_queue.hpp. `submit` and `drain_once` are the critical sections of
--   `submit` and `drain`; SerialQueue.System runs them on a pool that others use too.
-- - EventLoop: include/socketpp/event/loop.hpp and src/event/loop.cpp. `post`, `stop`, `swap`,
--   `clear_drained`, `enter_run` and `leave_run` are the parts of `post`, `stop`, `drain_posts` and
--   `run`; EventLoop.System is the loop's thread among posting threads.
-- - Epoll: src/event/epoll.cpp, `epoll_dispatcher` over the kernel's epoll set, with a function for
--   each of `add`, `modify`, `remove`, `schedule_timer` and `cancel_timer`; Epoll.System is the loop of
--   `poll`, whose callbacks do what they like with the dispatcher; Epoll.Handles is `timer_handle` of
--   include/socketpp/event/timer.hpp with `defer` and `repeat` of include/socketpp/event/loop.hpp.
-- - Connection: src/high/connection_engine.hpp and src/high/stream_connection_impl.hpp. One function
--   for each method or part of a method between two points at which another thread may come between;
--   Connection.System is the loop's thread among users that send, close, pause and resume.
-- - Stream: src/high/stream.cpp. The accept handler of a server (`on_accept`), its map of connections,
--   its counter, and what pauses, resumes and destroys it; Stream.System is the order in which
--   connections come and go.
-- - Dgram: src/high/dgram.cpp and src/high/dgram_peer_impl.hpp. The readable handler with its batches
--   (`recv_loop`, `survey`, `gather`, `route`), in Dgram.Claims how peers are claimed, armed and
--   relinquished, from any thread and step by step, and in Dgram.Arming how the socket is registered, paused and
--   resumed.
-- - UdpMux: src/socket/udp_mux.hpp, the multiplexer of Windows: `register_peer`, `dispatch` and the
--   poll thread's completions, and the registry with its lock, `get_or_create` and the destructor;
--   UdpMux.Peers is how src/socket/udp_peer.cpp makes a peer socket on it.
-- - Accept: src/socket/tcp_accept_loop.cpp, the accept callback and its back-off.
-- - Connect: src/socket/tcp_connect_async.cpp, the connect that a timer and an event race for.
-- - Net: src/net/inet4.cpp, src/net/inet6.cpp and their headers under include/socketpp/net: addresses
--   byte by byte, as they lie in memory; Net.SockAddress is `sock_address` of
--   include/socketpp/net/address.hpp and src/net/address.cpp.
-- - Socket: include/socketpp/socket/socket.hpp and src/socket/socket.cpp, a function for each of
--   `create`, `close`, `release`, the moves, `bind`, `shutdown`, `set_non_blocking` and `apply`, over a
--   log of the system calls; Socket.Open is `open` of src/socket/udp.cpp, `create_connected_udp` of
--   src/socket/udp_peer.cpp, `open` and `accept_raw` of src/socket/tcp_listener.cpp and `connect_impl` of
--   src/socket/tcp_connector.cpp.
-- - Udp: `send_to_raw` and `send_batch` of src/socket/udp.cpp under `do_send_batch` of
--   src/high/dgram.cpp.
-- - Options: include/socketpp/socket/options.hpp, src/socket/options.cpp and
--   include/socketpp/platform/capabilities.hpp, for each of the three platforms: Options.Build has the
--   methods that collect options, Options.Requests what an option asks of the system, Options.Apply
--   `apply_to`, `apply_pre_bind`, `apply_post_bind` and `leave_all_multicast`.
-- - SmallVector: `small_vector` of include/socketpp/socket/options.hpp, slot by slot; a slot that is
--   made twice, or destroyed or read while it is empty, is a fault.
-- - Errors: include/socketpp/platform/error.hpp and src/platform/error.cpp, `normalize_error`.
--
-- Threads are interleavings of such steps. A mutex or spinlock makes a step atomic. Relaxed loads of
-- `closed_` are read as loads of the current value; where the value may be stale the step is allowed
-- whatever the flag says. Sizes are natural numbers without a bound; ports, words and hash values have
-- their widths. What system calls return (`recv`, `send`, `poll`, `accept`, `timerfd_create`) is chosen
-- by the environment, in the step relations or as arguments; the values of `errno`, `inet_pton`,
-- `inet_ntop`, `std::to_string` and `std::hash`, the layout of `sockaddr` and the answers of `setsockopt`
-- and the other calls on sockets are parameters. The one fuel is the code's own bound of
-- batches for a readable event; the other loops are structural or steps of a relation, and what ends
-- is stated as a theorem.
--
-- Not modelled: src/event/kqueue.cpp and src/event/iocp.cpp, which implement the dispatcher on other
-- platforms; what else sends and receives under src/socket, system calls but for its checks; the
-- client's connection under src/high; the platform layer; task bodies.
pub mod Base
pub mod Errors
pub mod Accept
pub mod Connect
pub mod Dgram
pub mod Epoll
pub mod Connection
pub mod EventLoop
pub mod SerialQueue
pub mod Net
pub mod SmallVector
pub mod Socket
pub mod Options
pub mod Stream
pub mod ThreadPool
pub mod Udp
pub mod UdpMux
