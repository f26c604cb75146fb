-- ===== src/Socket/Open.antt =====
-- Sockets that are opened, accepted and connected: src/socket/udp.cpp (open), src/socket/udp_peer.cpp,
-- src/socket/tcp_listener.cpp and src/socket/tcp_connector.cpp. The wrappers for IPv4 and IPv6 pass the family on.
use socketpp.Base.{ℕ, Bool, true, false, Option, none, some, if◌then◌else◌}
use socketpp.Errors.{ErrorCode, socketpp_code, would_block, in_progress, invalid_state}
use socketpp.Net.Inet4.{Result, ok, err}
use socketpp.Net.SockAddress.{SockAddress}
use socketpp.Options.{Platform, linux, macos, windows, SocketOptions, Layout, OptName, int_option}
use socketpp.Options.Apply.{apply_pre_bind, apply_post_bind}
use socketpp.Socket.{
  AddressFamily, stream, dgram, Handle, Log, Sys, Socket, accept_call, listen_call, connect_call,
  set_cloexec, no_inherit, no_sigpipe, option_call, invoke, void, error_of, bind, set_non_blocking,
  move_assign, guard, returned, created, create, settings, os_of, options_applied,
}

-- `tcp_listener_base`: `accepted_opts_empty_` is negated.
pub record TcpListener : Type 0 where
  pub socket : Socket
  pub accepted_opts : SocketOptions
  pub has_accepted_opts : Bool

-- Whether the connection is still being made: `would_block` is read as `in_progress`.
pending : ErrorCode → Bool
pending (socketpp_code would_block) = true
pending (socketpp_code in_progress) = true
pending _ = false

unfoldable pub connected : Log × Option ErrorCode → Log × Option ErrorCode
unfolding pending
connected (log, none) = (log, none)
connected (log, some e) = (log, if pending e then none else some e)

module _ (sys : Sys) where
  -- What is done with the new socket, once `this` holds it.
  unfoldable pub adopt :
      Log × Result Socket
      → Socket
      → (Socket → Log → Log × Socket × Option ErrorCode)
      → Log × Socket × Option ErrorCode
  unfolding move_assign
  adopt (log, err e) s k = (log, s, some e)
  adopt (log, ok new) s k = let (log, s, moved) = move_assign sys s new log in k s log

  unfoldable pub with_new :
      Log × Result Socket → (Socket → Log → Log × Socket × Option ErrorCode) → Log × Result Socket
  unfolding returned
  with_new (log, err e) k = (log, err e)
  with_new (log, ok s) k = returned sys (k s log)

module _ (p : Platform) (sys : Sys) (l : Layout) (get : Bool → Option ℕ) where
  unfoldable pub applied_pre_bind : SocketOptions → Handle → Log → Log × Option ErrorCode
  unfolding apply_pre_bind
  applied_pre_bind o h log =
      let (calls, r) = apply_pre_bind p l (os_of sys h log) get o in
      (settings sys h calls log, error_of r)

  unfoldable pub applied_post_bind : SocketOptions → Handle → Log → Log × Option ErrorCode
  unfolding apply_post_bind
  applied_post_bind o h log =
      let (calls, e) = apply_post_bind p l (os_of sys h log) o in (settings sys h calls log, e)

  unfoldable pub udp_open :
      AddressFamily → SockAddress → SocketOptions → Socket → Log → Log × Socket × Option ErrorCode
  unfolding bind applied_pre_bind applied_post_bind
  udp_open af addr o s log = adopt sys (create sys p af dgram 0 log) s (λ s log.
      guard sys (applied_pre_bind o s.handle log) s (λ log.
        guard sys (bind sys addr s log) s
          (λ log. guard sys (applied_post_bind o s.handle log) s (λ log. (log, s, none)))))

  -- What the platform does before the options.
  unfoldable pub exclusive :
      Platform
      → SocketOptions
      → Socket
      → Log
      → (Log → Log × Socket × Option ErrorCode)
      → Log × Socket × Option ErrorCode
  exclusive windows o s log k =
      if o.has_reuse_addr
      then k log
      else guard sys
          (void sys (option_call s.handle (int_option OptName.so_exclusiveaddruse 1)) log) s k
  exclusive _ o s log k =
      guard sys (void sys (option_call s.handle (int_option OptName.so_reuseaddr 1)) log) s
        (λ log. k (invoke sys (option_call s.handle (int_option OptName.so_reuseport 1)) log).0)

  unfoldable pub listener_open :
      AddressFamily
      → SockAddress
      → ℕ
      → SocketOptions
      → Socket
      → Log
      → Log × Socket × Option ErrorCode
  unfolding bind exclusive
  listener_open af addr backlog o s log = adopt sys (create sys p af stream 0 log) s (λ s log.
      exclusive p o s log (λ log. guard sys (options_applied sys p l get o s.handle log) s (λ log.
        guard sys (bind sys addr s log) s (λ log.
          guard sys (void sys (listen_call s.handle backlog) log) s (λ log. (log, s, none))))))

  -- The options that an accepted connection is given.
  unfoldable pub accepted : TcpListener → Socket → Log → Log × Socket × Option ErrorCode
  accepted listener s log =
      if listener.has_accepted_opts
      then guard sys (options_applied sys p l get listener.accepted_opts s.handle log) s
          (λ log. (log, s, none))
      else (log, s, none)

  unfoldable pub accept_open : Platform → TcpListener → Log → Log × Result Socket
  unfolding set_non_blocking accepted
  accept_open linux t log =
      created sys (invoke sys (accept_call t.socket.handle true) log) (λ s log. accepted t s log)
  accept_open macos t log =
      created sys (invoke sys (accept_call t.socket.handle false) log) (λ s log.
        guard sys (void sys (set_cloexec s.handle) log) s (λ log.
          guard sys (set_non_blocking sys macos true s log) s
            (λ log. guard sys (void sys (no_sigpipe s.handle) log) s (λ log. accepted t s log))))
  accept_open windows t log =
      created sys (invoke sys (accept_call t.socket.handle false) log) (λ s log.
        guard sys (set_non_blocking sys windows true s (invoke sys (no_inherit s.handle) log).0) s
          (λ log. accepted t s log))

  unfoldable pub accept_from : Handle → TcpListener → Log → Log × Result Socket
  unfolding accept_open
  accept_from none t log = (log, err (socketpp_code invalid_state))
  accept_from (some fd) t log = accept_open p t log

  unfoldable pub accept_raw : TcpListener → Log → Log × Result Socket
  unfolding accept_from
  accept_raw t log = accept_from t.socket.handle t log

  unfoldable pub connect_impl :
      AddressFamily → SockAddress → SocketOptions → Log → Log × Result Socket
  unfolding connected
  connect_impl af addr o log = with_new sys (create sys p af stream 0 log) (λ s log.
      guard sys (options_applied sys p l get o s.handle log) s (λ log.
        guard sys (connected (void sys (connect_call s.handle addr) log)) s
          (λ log. (log, s, none))))

  -- src/socket/udp_peer.cpp, not on Windows.
  unfoldable pub create_connected_udp :
      AddressFamily → SockAddress → SockAddress → SocketOptions → Log → Log × Result Socket
  unfolding bind
  create_connected_udp af local peer o log = with_new sys (create sys p af dgram 0 log) (λ s log.
      guard sys (void sys (option_call s.handle (int_option OptName.so_reuseaddr 1)) log) s (λ log.
        guard sys
          (options_applied sys p l get o s.handle
            (invoke sys (option_call s.handle (int_option OptName.so_reuseport 1)) log).0)
          s
          (λ log. guard sys (bind sys local s log) s (λ log.
            guard sys (void sys (connect_call s.handle peer) log) s (λ log. (log, s, none))))))
