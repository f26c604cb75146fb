-- ===== src/Options/Methods.antt =====
-- From a method of socket_options (include/socketpp/socket/options.hpp) to the call that
-- src/socket/options.cpp makes for it.
use socketpp.Base.{ℕ, ◌%◌, ◌^◌, Bool, [], ◌∷◌, ◌++◌, ◌≡◌}
use socketpp.Options.{
  Platform, linux, macos, windows, OptionEntry, SocketOptions, Layout, OptName, int_option,
  so_linger,
}
use socketpp.Options.Build
use socketpp.Options.Build.{bit, as_int}
use socketpp.Options.Requests.{
  Request, call, remember_idle, remember_interval, unsupported, request,
}

-- The methods of one value, and `linger`.
pub data Method : Type 0 where
  reuse_addr reuse_port exclusive_addr tcp_nodelay tcp_cork keep_alive : (enable : Bool) → Method
  ipv6_only broadcast multicast_loop multicast_loop_v6 : (enable : Bool) → Method
  recv_buf send_buf tcp_notsent_lowat tcp_user_timeout tcp_fastopen : (value : ℕ) → Method
  tcp_defer_accept keep_alive_idle keep_alive_interval keep_alive_count : (value : ℕ) → Method
  ip_tos multicast_ttl multicast_ttl_v6 multicast_interface_v6 : (value : ℕ) → Method
  linger : (enable : Bool) (seconds : ℕ) → Method

unfoldable pub build : Platform → Method → SocketOptions → SocketOptions
build p (Method.reuse_addr b) o = Build.reuse_addr b o
build p (Method.reuse_port b) o = Build.reuse_port p b o
build p (Method.exclusive_addr b) o = Build.exclusive_addr p b o
build p (Method.tcp_nodelay b) o = Build.tcp_nodelay b o
build p (Method.tcp_cork b) o = Build.tcp_cork p b o
build p (Method.keep_alive b) o = Build.keep_alive b o
build p (Method.ipv6_only b) o = Build.ipv6_only b o
build p (Method.broadcast b) o = Build.broadcast b o
build p (Method.multicast_loop b) o = Build.multicast_loop b o
build p (Method.multicast_loop_v6 b) o = Build.multicast_loop_v6 b o
build p (Method.recv_buf v) o = Build.recv_buf v o
build p (Method.send_buf v) o = Build.send_buf v o
build p (Method.tcp_notsent_lowat v) o = Build.tcp_notsent_lowat p v o
build p (Method.tcp_user_timeout v) o = Build.tcp_user_timeout p v o
build p (Method.tcp_fastopen v) o = Build.tcp_fastopen p v o
build p (Method.tcp_defer_accept v) o = Build.tcp_defer_accept p v o
build p (Method.keep_alive_idle v) o = Build.keep_alive_idle v o
build p (Method.keep_alive_interval v) o = Build.keep_alive_interval v o
build p (Method.keep_alive_count v) o = Build.keep_alive_count p v o
build p (Method.ip_tos v) o = Build.ip_tos v o
build p (Method.multicast_ttl v) o = Build.multicast_ttl v o
build p (Method.multicast_ttl_v6 v) o = Build.multicast_ttl_v6 v o
build p (Method.multicast_interface_v6 v) o = Build.multicast_interface_v6 v o
build p (Method.linger b s) o = Build.linger b s o

-- What a method asks for, by platform.
unfoldable pub promise : Platform → Method → Request
promise p (Method.reuse_addr b) = call (int_option OptName.so_reuseaddr (bit b))
promise windows (Method.reuse_port b) = unsupported
promise _ (Method.reuse_port b) = call (int_option OptName.so_reuseport (bit b))
promise windows (Method.exclusive_addr b) = call (int_option OptName.so_exclusiveaddruse (bit b))
promise _ (Method.exclusive_addr b) = unsupported
promise p (Method.tcp_nodelay b) = call (int_option OptName.tcp_nodelay (bit b))
promise linux (Method.tcp_cork b) = call (int_option OptName.tcp_cork (bit b))
promise macos (Method.tcp_cork b) = call (int_option OptName.tcp_nopush (bit b))
promise windows (Method.tcp_cork b) = unsupported
promise p (Method.keep_alive b) = call (int_option OptName.so_keepalive (bit b))
promise p (Method.ipv6_only b) = call (int_option OptName.ipv6_v6only (bit b))
promise p (Method.broadcast b) = call (int_option OptName.so_broadcast (bit b))
promise p (Method.multicast_loop b) = call (int_option OptName.ip_multicast_loop (bit b))
promise p (Method.multicast_loop_v6 b) = call (int_option OptName.ipv6_multicast_loop (bit b))
promise p (Method.recv_buf v) = call (int_option OptName.so_rcvbuf (as_int v))
promise p (Method.send_buf v) = call (int_option OptName.so_sndbuf (as_int v))
promise windows (Method.tcp_notsent_lowat v) = unsupported
promise _ (Method.tcp_notsent_lowat v) = call (int_option OptName.tcp_notsent_lowat (as_int v))
promise linux (Method.tcp_user_timeout v) = call (int_option OptName.tcp_user_timeout (as_int v))
promise _ (Method.tcp_user_timeout v) = unsupported
promise windows (Method.tcp_fastopen v) = call (int_option OptName.tcp_fastopen 1)
promise _ (Method.tcp_fastopen v) = call (int_option OptName.tcp_fastopen (as_int v))
promise linux (Method.tcp_defer_accept v) = call (int_option OptName.tcp_defer_accept (as_int v))
promise _ (Method.tcp_defer_accept v) = unsupported
promise linux (Method.keep_alive_idle v) = call (int_option OptName.tcp_keepidle (as_int v))
promise macos (Method.keep_alive_idle v) = call (int_option OptName.tcp_keepalive (as_int v))
promise windows (Method.keep_alive_idle v) = remember_idle (as_int v)
promise windows (Method.keep_alive_interval v) = remember_interval (as_int v)
promise _ (Method.keep_alive_interval v) = call (int_option OptName.tcp_keepintvl (as_int v))
promise windows (Method.keep_alive_count v) = unsupported
promise _ (Method.keep_alive_count v) = call (int_option OptName.tcp_keepcnt (as_int v))
promise p (Method.ip_tos v) = call (int_option OptName.ip_tos (as_int v))
promise p (Method.multicast_ttl v) = call (int_option OptName.ip_multicast_ttl (as_int v))
promise p (Method.multicast_ttl_v6 v) = call (int_option OptName.ipv6_multicast_hops (as_int v))
promise p (Method.multicast_interface_v6 v) = call (int_option OptName.ipv6_multicast_if (as_int v))
promise windows (Method.linger b s) = call (so_linger (bit b % 2 ^ 16) (as_int s % 2 ^ 16))
promise _ (Method.linger b s) = call (so_linger (bit b) (as_int s))

-- The options are the old ones and an entry that asks for this.
abbrev EntryFor : Platform → Layout → SocketOptions → SocketOptions → Request → Type 0
EntryFor p l o t r = (e : OptionEntry) × (t.entries ≡ o.entries ++ e ∷ []) × (request p l e ≡ r)
