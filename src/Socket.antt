-- ===== src/Socket.antt =====
-- socket: include/socketpp/socket/socket.hpp and src/socket/socket.cpp. The system is a parameter: what a
-- call answers, its error normalised, from the calls before it. The spin locks are left out.
pub mod Open
pub mod Descriptors
pub mod Live
pub mod Opening
pub mod Accepting
pub mod Owned
mod Examples
use socketpp.Base.{
  ℕ, Bool, true, false, not, Option, none, some, List, [], ◌∷◌, is_some, if◌then◌else◌,
}
use socketpp.Errors.{ErrorCode, socketpp_code, invalid_state}
use socketpp.Net.Inet4.{Result, ok, err}
use socketpp.Net.SockAddress
use socketpp.Net.SockAddress.{SockAddress}
use socketpp.Options.{Platform, linux, macos, windows, SocketOptions, Layout, Setting}
use socketpp.Options.Apply.{Os, ApplyResult, apply_to}

pub data AddressFamily : Type 0 where
  ipv4 ipv6 : AddressFamily

pub data SocketType : Type 0 where
  stream dgram : SocketType

pub data ShutdownMode : Type 0 where
  read write both : ShutdownMode

-- `none` is `invalid_socket`.
abbrev pub Handle : Type 0
Handle = Option ℕ

-- A call of the system, or of the callback that deregisters the handle.
pub data Call : Type 0 where
  socket_call : (af : AddressFamily) (type : SocketType) (nonblock : Bool) (protocol : ℕ) → Call
  accept_call : (h : Handle) (nonblock : Bool) → Call
  close_call : Handle → Call
  deregister : Handle → Call
  shutdown_call : Handle → ShutdownMode → Call
  bind_call : Handle → SockAddress → Call
  connect_call : Handle → SockAddress → Call
  listen_call : Handle → ℕ → Call
  get_flags : Handle → Call
  set_flags : (h : Handle) (flags : ℕ) (nonblock : Bool) → Call
  ioctl_nonblock : (h : Handle) (mode : Bool) → Call
  set_cloexec : Handle → Call
  no_inherit : Handle → Call
  no_sigpipe : Handle → Call
  option_call : Handle → Setting → Call

-- The calls and their answers, the last one first.
abbrev pub Log : Type 0
Log = List (Call × Result ℕ)

abbrev pub Sys : Type 0
Sys = Log → Call → Result ℕ

abbrev pub invoke : Sys → Call → Log → Log × Result ℕ
invoke sys c log = ((c, sys log c) ∷ log, sys log c)

abbrev pub error_of {ℓ} : {A : Type ℓ} → Result A → Option ErrorCode
error_of (ok a) = none
error_of (err e) = some e

-- A call that answers by an error or not.
abbrev pub void : Sys → Call → Log → Log × Option ErrorCode
void sys c log = ((c, sys log c) ∷ log, error_of (sys log c))

pub record Socket : Type 0 where
  pub handle : Handle
  pub dispatcher : Bool
  pub on_close_deregister : Bool

unfoldable pub invalid : Socket
invalid = record { handle = none; dispatcher = false; on_close_deregister = false }

unfoldable pub of_handle : ℕ → Socket
of_handle fd = record { handle = some fd; dispatcher = false; on_close_deregister = false }

-- An operation on an open socket.
abbrev pub on_open : Handle → Log → Log × Option ErrorCode → Log × Option ErrorCode
on_open none log r = (log, some (socketpp_code invalid_state))
on_open (some fd) log r = r

module _ (sys : Sys) where
  unfoldable pub deregistered : Socket → Log → Log
  deregistered s log =
      if s.on_close_deregister
      then (deregister s.handle, sys log (deregister s.handle)) ∷ log
      else log

  unfoldable pub close_open : Handle → Socket → Log → Log × Socket × Option ErrorCode
  unfolding deregistered invalid
  close_open none s log = (log, s, none)
  close_open (some fd) s log =
      let (log, e) = void sys (close_call s.handle) (deregistered s log) in (log, invalid, e)

  unfoldable pub close : Socket → Log → Log × Socket × Option ErrorCode
  unfolding close_open
  close s log = close_open s.handle s log

  -- The log, the socket and the handle that is released.
  unfoldable pub release : Socket → Log → Log × Socket × Handle
  unfolding deregistered invalid
  release s log = (deregistered s log, invalid, s.handle)

  -- The one that is moved from is left invalid.
  unfoldable pub move_construct : Socket → Socket × Socket
  unfolding invalid
  move_construct other = (other, invalid)

  -- The two are not the same object.
  unfoldable pub move_assign : Socket → Socket → Log → Log × Socket × Socket
  unfolding invalid close
  move_assign s other log = ((close s log).0, other, invalid)

  unfoldable pub shutdown : ShutdownMode → Socket → Log → Log × Option ErrorCode
  shutdown how s log = on_open s.handle log (void sys (shutdown_call s.handle how) log)

  unfoldable pub bind : SockAddress → Socket → Log → Log × Option ErrorCode
  bind addr s log = on_open s.handle log (void sys (bind_call s.handle addr) log)

  unfoldable pub flags_read : Result ℕ → Bool → Handle → Log → Log × Option ErrorCode
  flags_read (err e) enable h log = (log, some e)
  flags_read (ok flags) enable h log = void sys (set_flags h flags enable) log

  unfoldable pub non_blocking_open : Platform → Bool → Handle → Log → Log × Option ErrorCode
  unfolding flags_read
  non_blocking_open windows enable h log = void sys (ioctl_nonblock h enable) log
  non_blocking_open _ enable h log =
      let (log, flags) = invoke sys (get_flags h) log in flags_read flags enable h log

  unfoldable pub set_non_blocking : Platform → Bool → Socket → Log → Log × Option ErrorCode
  unfolding non_blocking_open
  set_non_blocking p enable s log = on_open s.handle log (non_blocking_open p enable s.handle log)

  -- A failure closes the socket, and is returned.
  unfoldable pub guard :
      Log × Option ErrorCode
      → Socket
      → (Log → Log × Socket × Option ErrorCode)
      → Log × Socket × Option ErrorCode
  unfolding close
  guard (log, none) s k = k log
  guard (log, some e) s k = let (log, s, ignored) = close s log in (log, s, some e)

  -- A local socket is returned, or destroyed.
  unfoldable pub returned : Log × Socket × Option ErrorCode → Log × Result Socket
  unfolding close
  returned (log, s, none) = (log, ok s)
  returned (log, s, some e) = ((close s log).0, err e)

  -- What is done with a new descriptor.
  unfoldable pub created :
      Log × Result ℕ → (Socket → Log → Log × Socket × Option ErrorCode) → Log × Result Socket
  unfolding returned of_handle
  created (log, err e) k = (log, err e)
  created (log, ok fd) k = returned (k (of_handle fd) log)

  unfoldable pub create : Platform → AddressFamily → SocketType → ℕ → Log → Log × Result Socket
  unfolding set_non_blocking
  create linux af type protocol log =
      created (invoke sys (socket_call af type true protocol) log) (λ s log. (log, s, none))
  create macos af type protocol log =
      created (invoke sys (socket_call af type false protocol) log) (λ s log.
        guard (void sys (set_cloexec s.handle) log) s (λ log.
          guard (set_non_blocking macos true s log) s
            (λ log. guard (void sys (no_sigpipe s.handle) log) s (λ log. (log, s, none)))))
  create windows af type protocol log =
      created (invoke sys (socket_call af type false protocol) log)
        (λ s log. guard (set_non_blocking windows true s log) s (λ log. (log, s, none)))

  -- The calls of `setsockopt` on a handle.
  unfoldable pub settings : Handle → List Setting → Log → Log
  settings h [] log = log
  settings h (c ∷ cs) log = settings h cs ((option_call h c, sys log (option_call h c)) ∷ log)

  unfoldable pub os_of : Handle → Log → Os
  unfolding settings
  os_of h log done c = error_of (sys (settings h done log) (option_call h c))

  -- The sizes of the buffers that the system gives.
  module _ (p : Platform) (l : Layout) (get : Bool → Option ℕ) where
    unfoldable pub options_applied : SocketOptions → Handle → Log → Log × Option ErrorCode
    options_applied o h log =
        let (calls, r) = apply_to p l (os_of h log) get o in (settings h calls log, error_of r)

    unfoldable pub apply : SocketOptions → Socket → Log → Log × Option ErrorCode
    apply o s log = on_open s.handle log (options_applied o s.handle log)
