-- ===== src/Options.antt =====
-- socket_options: include/socketpp/socket/options.hpp (the builder), src/socket/options.cpp (what is
-- handed to `setsockopt`) and include/socketpp/platform/capabilities.hpp. `entries_` is the list that a
-- small vector stands for (SmallVector). The layout of the platform's socket addresses is a parameter;
-- an `int` is its bit pattern, below 2^32, and the bytes of an entry are as in memory, the least
-- significant first, which no other code sees.
pub mod Build
pub mod Requests
pub mod Apply
pub mod Plan
pub mod Kinds
pub mod Parts
pub mod Blocks
pub mod Multicast
mod Methods
mod Examples
use socketpp.Base.{
  ℕ, zero, suc, ◌+◌, ◌-◌, ◌*◌, ◌/◌, ◌%◌, ◌^◌, Bool, true, false, ◌||◌, Option, none, some, List, [],
  ◌∷◌, ◌++◌, length, take, drop, ltb, if◌then◌else◌,
}
use socketpp.Net.{Word32}

pub data Platform : Type 0 where
  linux macos windows : Platform

pub data SocketOptionId : Type 0 where
  reuse_addr reuse_port exclusive_addr recv_buf send_buf : SocketOptionId
  tcp_nodelay tcp_cork tcp_notsent_lowat tcp_user_timeout tcp_fastopen : SocketOptionId
  tcp_defer_accept keep_alive keep_alive_idle keep_alive_interval : SocketOptionId
  keep_alive_count linger_opt ipv6_only ip_tos broadcast : SocketOptionId
  multicast_join multicast_leave multicast_ttl multicast_loop : SocketOptionId
  multicast_ttl_v6 multicast_loop_v6 multicast_if multicast_if_v6 : SocketOptionId

-- The constants of capabilities.hpp that the builder uses.
unfoldable pub has_reuseport : Platform → Bool
has_reuseport windows = false
has_reuseport _ = true

unfoldable pub has_tcp_fastopen : Platform → Bool
has_tcp_fastopen _ = true

unfoldable pub has_tcp_notsent_lowat : Platform → Bool
has_tcp_notsent_lowat windows = false
has_tcp_notsent_lowat _ = true

unfoldable pub has_tcp_cork : Platform → Bool
has_tcp_cork windows = false
has_tcp_cork _ = true

unfoldable pub has_tcp_user_timeout : Platform → Bool
has_tcp_user_timeout linux = true
has_tcp_user_timeout _ = false

unfoldable pub has_tcp_defer_accept : Platform → Bool
has_tcp_defer_accept linux = true
has_tcp_defer_accept _ = false

pub record OptionEntry : Type 0 where
  pub id : SocketOptionId
  pub bytes : List ℕ
  pub platform_available : Bool

pub record SocketOptions : Type 0 where
  pub entries : List OptionEntry
  pub has_send_buf : Bool
  pub has_recv_buf : Bool
  pub has_reuse_addr : Bool
  pub has_multicast_join : Bool

-- The bytes of an `int`.
abbrev pub int_bytes : ℕ → List ℕ
int_bytes v = v % 2 ^ 8 ∷ v / 2 ^ 8 % 2 ^ 8 ∷ v / 2 ^ 16 % 2 ^ 8 ∷ v / 2 ^ 24 % 2 ^ 8 ∷ []

abbrev pub read_bytes : List ℕ → ℕ
read_bytes (a ∷ b ∷ c ∷ d ∷ rest) = a + b * 2 ^ 8 + c * 2 ^ 16 + d * 2 ^ 24
read_bytes _ = 0

-- 0 where the bytes are too few.
unfoldable pub read_int : List ℕ → ℕ
read_int bytes = if ltb (length bytes) 4 then 0 else read_bytes bytes

-- `level` and `optname` of `setsockopt`.
pub data OptName : Type 0 where
  so_reuseaddr so_reuseport so_exclusiveaddruse so_rcvbuf so_sndbuf so_keepalive so_broadcast :
      OptName
  tcp_nodelay tcp_cork tcp_nopush tcp_notsent_lowat tcp_user_timeout tcp_fastopen : OptName
  tcp_defer_accept tcp_keepidle tcp_keepalive tcp_keepintvl tcp_keepcnt : OptName
  ipv6_v6only ip_tos ip_multicast_ttl ip_multicast_loop : OptName
  ipv6_multicast_hops ipv6_multicast_loop ipv6_multicast_if : OptName

-- A call of `setsockopt`, or of `WSAIoctl` with SIO_KEEPALIVE_VALS (in milliseconds).
pub data Setting : Type 0 where
  int_option : (name : OptName) (value : ℕ) → Setting
  so_linger : (onoff seconds : ℕ) → Setting
  ip_membership : (join : Bool) (group iface : Word32) → Setting
  ipv6_membership : (join : Bool) (group : List ℕ) (iface : ℕ) → Setting
  ip_multicast_if : (iface : Word32) → Setting
  keepalive_vals : (time interval : ℕ) → Setting

pub data Family : Type 0 where
  inet inet6 other_family : Family

-- `sockaddr`, `sockaddr_in` and `sockaddr_in6`, as the platform reads them in memory.
pub record Layout : Type 0 where
  pub sa_family : List ℕ → Family
  pub sin_addr : List ℕ → Word32
  pub sin6_addr : List ℕ → List ℕ
  pub sin6_scope_id : List ℕ → ℕ
