-- ===== src/Options/Build.antt =====
-- The methods of socket_options (include/socketpp/socket/options.hpp) that collect options. A value
-- stands for the bits of an `int`, in two's complement; a duration is its count, which the methods
-- cut to an `int`. `none`: an address is copied that does not fit.
use socketpp.Base.{
  ℕ, ◌%◌, ◌^◌, Bool, true, false, Option, none, some, List, [], ◌∷◌, ◌++◌, ltb, take, if◌then◌else◌,
}
use socketpp.Net.SockAddress
use socketpp.Net.SockAddress.{SockAddress, zero_filled}
use socketpp.Options.{
  Platform, windows, SocketOptionId, SocketOptions, int_bytes, has_reuseport, has_tcp_fastopen,
  has_tcp_notsent_lowat, has_tcp_cork, has_tcp_user_timeout, has_tcp_defer_accept,
}

unfoldable pub create : SocketOptions
create = record {
  entries = [];
  has_send_buf = false;
  has_recv_buf = false;
  has_reuse_addr = false;
  has_multicast_join = false;
}

abbrev pub bit : Bool → ℕ
bit b = if b then 1 else 0

unfoldable pub push : SocketOptionId → List ℕ → Bool → SocketOptions → SocketOptions
push id bytes available o = record o {
  entries = o.entries ++ record { id = id; bytes = bytes; platform_available = available } ∷ [];
}

unfoldable pub push_int : SocketOptionId → ℕ → Bool → SocketOptions → SocketOptions
unfolding push
push_int id value available o = push id (int_bytes value) available o

unfoldable pub reuse_addr : Bool → SocketOptions → SocketOptions
unfolding push_int
reuse_addr enable o = record (push_int SocketOptionId.reuse_addr (bit enable) true o) {
  has_reuse_addr = true;
}

unfoldable pub recv_buf : ℕ → SocketOptions → SocketOptions
unfolding push_int
recv_buf bytes o = record (push_int SocketOptionId.recv_buf bytes true o) { has_recv_buf = true }

unfoldable pub send_buf : ℕ → SocketOptions → SocketOptions
unfolding push_int
send_buf bytes o = record (push_int SocketOptionId.send_buf bytes true o) { has_send_buf = true }

unfoldable pub buf_profile : (send_size recv_size : ℕ) → SocketOptions → SocketOptions
unfolding recv_buf send_buf
buf_profile send_size recv_size o = recv_buf recv_size (send_buf send_size o)

unfoldable pub linger : Bool → ℕ → SocketOptions → SocketOptions
unfolding push
linger enable seconds o =
    push SocketOptionId.linger_opt (int_bytes (bit enable) ++ int_bytes seconds) true o

-- `static_cast<int>` of the count of a duration.
abbrev pub as_int : ℕ → ℕ
as_int count = count % 2 ^ 32

-- 128 bytes of an address and its length.
unfoldable pub address_block : SockAddress → Option (List ℕ)
address_block a =
    if ltb SockAddress.capacity a.len
    then none
    else some (zero_filled (take a.len a.storage) ++ int_bytes a.len)

with_block : Option (List ℕ) → (List ℕ → SocketOptions) → Option SocketOptions
with_block none f = none
with_block (some b) f = some (f b)

unfoldable pub with_blocks :
    Option (List ℕ) → Option (List ℕ) → (List ℕ → SocketOptions) → Option SocketOptions
with_blocks none i f = none
with_blocks (some g) none f = none
with_blocks (some g) (some i) f = some (f (g ++ i))

unfoldable pub multicast_join : SockAddress → SockAddress → SocketOptions → Option SocketOptions
unfolding push address_block with_blocks
multicast_join group iface o =
    with_blocks (address_block group) (address_block iface)
      (λ b. record (push SocketOptionId.multicast_join b true o) { has_multicast_join = true })

unfoldable pub multicast_leave : SockAddress → SockAddress → SocketOptions → Option SocketOptions
unfolding push address_block with_blocks
multicast_leave group iface o =
    with_blocks (address_block group) (address_block iface)
      (λ b. push SocketOptionId.multicast_leave b true o)

unfoldable pub multicast_interface : SockAddress → SocketOptions → Option SocketOptions
unfolding push address_block with_block
multicast_interface iface o =
    with_block (address_block iface) (λ b. push SocketOptionId.multicast_if b true o)

unfoldable pub multicast_interface_v6 : ℕ → SocketOptions → SocketOptions
unfolding push
multicast_interface_v6 if_index o = push SocketOptionId.multicast_if_v6 (int_bytes if_index) true o

unfoldable pub tcp_nodelay : Bool → SocketOptions → SocketOptions
unfolding push_int
tcp_nodelay enable o = push_int SocketOptionId.tcp_nodelay (bit enable) true o

unfoldable pub keep_alive : Bool → SocketOptions → SocketOptions
unfolding push_int
keep_alive enable o = push_int SocketOptionId.keep_alive (bit enable) true o

unfoldable pub keep_alive_idle : ℕ → SocketOptions → SocketOptions
unfolding push_int
keep_alive_idle value o = push_int SocketOptionId.keep_alive_idle (as_int value) true o

unfoldable pub keep_alive_interval : ℕ → SocketOptions → SocketOptions
unfolding push_int
keep_alive_interval value o = push_int SocketOptionId.keep_alive_interval (as_int value) true o

unfoldable pub ipv6_only : Bool → SocketOptions → SocketOptions
unfolding push_int
ipv6_only enable o = push_int SocketOptionId.ipv6_only (bit enable) true o

unfoldable pub ip_tos : ℕ → SocketOptions → SocketOptions
unfolding push_int
ip_tos value o = push_int SocketOptionId.ip_tos value true o

unfoldable pub broadcast : Bool → SocketOptions → SocketOptions
unfolding push_int
broadcast enable o = push_int SocketOptionId.broadcast (bit enable) true o

unfoldable pub multicast_ttl : ℕ → SocketOptions → SocketOptions
unfolding push_int
multicast_ttl value o = push_int SocketOptionId.multicast_ttl value true o

unfoldable pub multicast_loop : Bool → SocketOptions → SocketOptions
unfolding push_int
multicast_loop enable o = push_int SocketOptionId.multicast_loop (bit enable) true o

unfoldable pub multicast_ttl_v6 : ℕ → SocketOptions → SocketOptions
unfolding push_int
multicast_ttl_v6 value o = push_int SocketOptionId.multicast_ttl_v6 value true o

unfoldable pub multicast_loop_v6 : Bool → SocketOptions → SocketOptions
unfolding push_int
multicast_loop_v6 enable o = push_int SocketOptionId.multicast_loop_v6 (bit enable) true o

-- What depends on the platform.
module _ (p : Platform) where
  unfoldable pub reuse_port : Bool → SocketOptions → SocketOptions
  unfolding push_int has_reuseport
  reuse_port enable o = push_int SocketOptionId.reuse_port (bit enable) (has_reuseport p) o

  unfoldable pub exclusive_addr : Bool → SocketOptions → SocketOptions
  unfolding push_int
  exclusive_addr enable o = elim p [
    | windows ↦ push_int SocketOptionId.exclusive_addr (bit enable) true o
    | _ ↦ push_int SocketOptionId.exclusive_addr 0 false o
  ]

  unfoldable pub tcp_cork : Bool → SocketOptions → SocketOptions
  unfolding push_int has_tcp_cork
  tcp_cork enable o = push_int SocketOptionId.tcp_cork (bit enable) (has_tcp_cork p) o

  unfoldable pub tcp_notsent_lowat : ℕ → SocketOptions → SocketOptions
  unfolding push_int has_tcp_notsent_lowat
  tcp_notsent_lowat value o =
      push_int SocketOptionId.tcp_notsent_lowat value (has_tcp_notsent_lowat p) o

  unfoldable pub tcp_user_timeout : ℕ → SocketOptions → SocketOptions
  unfolding push_int has_tcp_user_timeout
  tcp_user_timeout value o =
      push_int SocketOptionId.tcp_user_timeout (as_int value) (has_tcp_user_timeout p) o

  unfoldable pub tcp_fastopen : ℕ → SocketOptions → SocketOptions
  unfolding push_int has_tcp_fastopen
  tcp_fastopen value o = push_int SocketOptionId.tcp_fastopen value (has_tcp_fastopen p) o

  unfoldable pub tcp_defer_accept : ℕ → SocketOptions → SocketOptions
  unfolding push_int has_tcp_defer_accept
  tcp_defer_accept value o =
      push_int SocketOptionId.tcp_defer_accept (as_int value) (has_tcp_defer_accept p) o

  unfoldable pub keep_alive_count : ℕ → SocketOptions → SocketOptions
  unfolding push_int
  keep_alive_count count o = elim p [
    | windows ↦ push_int SocketOptionId.keep_alive_count 0 false o
    | _ ↦ push_int SocketOptionId.keep_alive_count count true o
  ]
