-- ===== src/Options/Requests.antt =====
-- What each option asks of the system, by platform: the `switch` of src/socket/options.cpp and the
-- functions that it calls.
use socketpp.Base.{
  ℕ, ◌*◌, ◌%◌, ◌^◌, Bool, true, false, List, length, take, drop, ltb, if◌then◌else◌,
}
use socketpp.Errors.{ErrorCode, socketpp_code, option_not_supported, invalid_state}
use socketpp.Options.{
  Platform, linux, macos, windows, SocketOptionId, OptionEntry, Layout, Family, inet, inet6,
  other_family, OptName, Setting, int_option, so_linger, ip_membership, ipv6_membership,
  ip_multicast_if, read_int, read_bytes,
}

-- What one entry asks for: a call, or on Windows that a keep-alive time be remembered.
pub data Request : Type 0 where
  call : Setting → Request
  remember_idle remember_interval : ℕ → Request
  refuse : ErrorCode → Request

abbrev pub unsupported : Request
unsupported = refuse (socketpp_code option_not_supported)

unfoldable pub is_multicast_entry : SocketOptionId → Bool
is_multicast_entry SocketOptionId.multicast_join = true
is_multicast_entry SocketOptionId.multicast_leave = true
is_multicast_entry _ = false

-- `l_onoff` and `l_linger` are `u_short` on Windows, and `int` elsewhere.
linger_field : Platform → ℕ → ℕ
linger_field windows v = v % 2 ^ 16
linger_field _ v = v

unfoldable pub apply_linger : Platform → List ℕ → Request
unfolding linger_field
apply_linger p bytes =
    if ltb (length bytes) 8
    then call (so_linger 0 0)
    else call
        (so_linger (linger_field p (read_bytes bytes)) (linger_field p (read_bytes (drop 4 bytes))))

-- 128 bytes and a length.
abbrev pub addr_block : ℕ
addr_block = 132

unfoldable pub join_request : Layout → Bool → Family → List ℕ → List ℕ → Request
join_request l join inet group iface =
    call (ip_membership join (l.sin_addr group) (l.sin_addr iface))
join_request l join inet6 group iface =
    call (ipv6_membership join (l.sin6_addr group) (l.sin6_scope_id iface))
join_request l join other_family group iface = refuse (socketpp_code invalid_state)

unfoldable pub apply_multicast : Layout → Bool → List ℕ → Request
unfolding join_request
apply_multicast l join bytes =
    if ltb (length bytes) (addr_block * 2)
    then refuse (socketpp_code invalid_state)
    else (let group = take 128 bytes in
        let iface = take 128 (drop addr_block bytes) in
        join_request l join (l.sa_family group) group iface)

unfoldable pub apply_multicast_if : Layout → List ℕ → Request
apply_multicast_if l bytes =
    if ltb (length bytes) addr_block
    then refuse (socketpp_code invalid_state)
    else call (ip_multicast_if (l.sin_addr (take 128 bytes)))

unfoldable pub apply_multicast_if_v6 : List ℕ → Request
apply_multicast_if_v6 bytes =
    if ltb (length bytes) 4
    then refuse (socketpp_code invalid_state)
    else call (int_option OptName.ipv6_multicast_if (read_bytes bytes))

-- The branches of the `switch`, by platform.
only_unix : Platform → Request → Request
only_unix windows r = unsupported
only_unix _ r = r

only_linux : Platform → Request → Request
only_linux linux r = r
only_linux _ r = unsupported

only_windows : Platform → Request → Request
only_windows windows r = r
only_windows _ r = unsupported

per_platform : {A : Type 0} → Platform → A → A → A → A
per_platform linux a b c = a
per_platform macos a b c = b
per_platform windows a b c = c

unfoldable pub switch : Platform → Layout → SocketOptionId → List ℕ → ℕ → Request
unfolding only_unix only_linux only_windows per_platform apply_linger apply_multicast
    apply_multicast_if apply_multicast_if_v6
switch p l SocketOptionId.reuse_addr d v = call (int_option OptName.so_reuseaddr v)
switch p l SocketOptionId.reuse_port d v = only_unix p (call (int_option OptName.so_reuseport v))
switch p l SocketOptionId.exclusive_addr d v =
    only_windows p (call (int_option OptName.so_exclusiveaddruse v))
switch p l SocketOptionId.recv_buf d v = call (int_option OptName.so_rcvbuf v)
switch p l SocketOptionId.send_buf d v = call (int_option OptName.so_sndbuf v)
switch p l SocketOptionId.tcp_nodelay d v = call (int_option OptName.tcp_nodelay v)
switch p l SocketOptionId.tcp_cork d v =
    per_platform p (call (int_option OptName.tcp_cork v)) (call (int_option OptName.tcp_nopush v))
      unsupported
switch p l SocketOptionId.tcp_notsent_lowat d v =
    only_unix p (call (int_option OptName.tcp_notsent_lowat v))
switch p l SocketOptionId.tcp_user_timeout d v =
    only_linux p (call (int_option OptName.tcp_user_timeout v))
switch p l SocketOptionId.tcp_fastopen d v =
    call (int_option OptName.tcp_fastopen (per_platform p v v 1))
switch p l SocketOptionId.tcp_defer_accept d v =
    only_linux p (call (int_option OptName.tcp_defer_accept v))
switch p l SocketOptionId.keep_alive d v = call (int_option OptName.so_keepalive v)
switch p l SocketOptionId.keep_alive_idle d v =
    per_platform p (call (int_option OptName.tcp_keepidle v))
      (call (int_option OptName.tcp_keepalive v)) (remember_idle v)
switch p l SocketOptionId.keep_alive_interval d v =
    per_platform p (call (int_option OptName.tcp_keepintvl v))
      (call (int_option OptName.tcp_keepintvl v)) (remember_interval v)
switch p l SocketOptionId.keep_alive_count d v =
    only_unix p (call (int_option OptName.tcp_keepcnt v))
switch p l SocketOptionId.linger_opt d v = apply_linger p d
switch p l SocketOptionId.ipv6_only d v = call (int_option OptName.ipv6_v6only v)
switch p l SocketOptionId.ip_tos d v = call (int_option OptName.ip_tos v)
switch p l SocketOptionId.broadcast d v = call (int_option OptName.so_broadcast v)
switch p l SocketOptionId.multicast_join d v = apply_multicast l true d
switch p l SocketOptionId.multicast_leave d v = apply_multicast l false d
switch p l SocketOptionId.multicast_ttl d v = call (int_option OptName.ip_multicast_ttl v)
switch p l SocketOptionId.multicast_loop d v = call (int_option OptName.ip_multicast_loop v)
switch p l SocketOptionId.multicast_ttl_v6 d v = call (int_option OptName.ipv6_multicast_hops v)
switch p l SocketOptionId.multicast_loop_v6 d v = call (int_option OptName.ipv6_multicast_loop v)
switch p l SocketOptionId.multicast_if d v = apply_multicast_if l d
switch p l SocketOptionId.multicast_if_v6 d v = apply_multicast_if_v6 d

unfoldable pub request : Platform → Layout → OptionEntry → Request
unfolding switch read_int
request p l e =
    if e.platform_available then switch p l e.id e.bytes (read_int e.bytes) else unsupported
