-- ===== src/Socket/Descriptors.antt =====
-- The descriptors that a log of system calls leaves open (src/socket/socket.cpp).
use socketpp.Base.{
  ℕ, Bool, true, false, Option, none, some, List, [], ◌∷◌, ◌≡◌, refl, ◌==◌, ==_iff, ◌⊎◌, inl, inr,
  if◌then◌else◌,
}
use socketpp.Errors.{ErrorCode}
use socketpp.Net.Inet4.{Result, ok, err}
use socketpp.Socket.{
  Handle, Call, Log, Sys, Socket, socket_call, accept_call, close_call, deregister, shutdown_call,
  bind_call, connect_call, listen_call, get_flags, set_flags, ioctl_nonblock, set_cloexec,
  no_inherit, no_sigpipe, option_call,
}

abbrev pub cons_some : ℕ → Option (List ℕ) → Option (List ℕ)
cons_some x none = none
cons_some x (some xs) = some (x ∷ xs)

-- `none`: it is not among them.
abbrev pub remove : ℕ → List ℕ → Option (List ℕ)
remove fd [] = none
remove fd (x ∷ xs) = if fd == x then some xs else cons_some x (remove fd xs)

abbrev pub remove_handle : Handle → List ℕ → Option (List ℕ)
remove_handle none fds = none
remove_handle (some fd) fds = remove fd fds

abbrev pub keep : Option (List ℕ) → List ℕ → Option (List ℕ)
keep none fds = none
keep (some rest) fds = some fds

-- A call on a handle that is open.
abbrev pub used : Handle → List ℕ → Option (List ℕ)
used h fds = keep (remove_handle h fds) fds

-- The callback may be given `invalid_socket`, on which it makes no call.
abbrev pub told : Handle → List ℕ → Option (List ℕ)
told none fds = some fds
told (some fd) fds = used (some fd) fds

abbrev pub opens : Result ℕ → Option (List ℕ) → Option (List ℕ)
opens (ok fd) none = none
opens (ok fd) (some fds) = some (fd ∷ fds)
opens (err e) fds = fds

-- `none`: the call is on a handle that is not open.
unfoldable pub effect : Call → Result ℕ → List ℕ → Option (List ℕ)
effect (socket_call af type nonblock protocol) r fds = opens r (some fds)
effect (accept_call h nonblock) r fds = opens r (used h fds)
effect (close_call h) r fds = remove_handle h fds
effect (deregister h) r fds = told h fds
effect (shutdown_call h how) r fds = used h fds
effect (bind_call h addr) r fds = used h fds
effect (connect_call h addr) r fds = used h fds
effect (listen_call h backlog) r fds = used h fds
effect (get_flags h) r fds = used h fds
effect (set_flags h flags nonblock) r fds = used h fds
effect (ioctl_nonblock h mode) r fds = used h fds
effect (set_cloexec h) r fds = used h fds
effect (no_inherit h) r fds = used h fds
effect (no_sigpipe h) r fds = used h fds
effect (option_call h c) r fds = used h fds

abbrev pub and_then : Option (List ℕ) → (List ℕ → Option (List ℕ)) → Option (List ℕ)
and_then none k = none
and_then (some xs) k = k xs

-- The descriptors that are open; `none` if some call was on a descriptor that was not open.
unfoldable pub live : Log → Option (List ℕ)
unfolding effect
live [] = some []
live ((c, r) ∷ log) = and_then (live log) (effect c r)

abbrev pub makes_descriptor : Call → Bool
makes_descriptor (socket_call af type nonblock protocol) = true
makes_descriptor (accept_call h nonblock) = true
makes_descriptor _ = false

-- The system gives no descriptor that is open.
abbrev pub Fresh : Sys → Type 0
Fresh sys =
    (log : Log) (c : Call) (fd : ℕ) (fds : List ℕ)
    → live log ≡ some fds
    → makes_descriptor c ≡ true
    → sys log c ≡ ok fd
    → remove fd fds ≡ none

pub remove-head : (fd : ℕ) (fds : List ℕ) → remove fd (fd ∷ fds) ≡ some fds
remove-head fd fds = rw ((==_iff fd fd).1 refl) refl

pub used-head :
    (h : Handle) (fd : ℕ) (fds : List ℕ) → h ≡ some fd → used h (fd ∷ fds) ≡ some (fd ∷ fds)
used-head h fd fds e = rw (e, remove-head fd fds) refl

pub Result-cases : (r : Result ℕ) → ((fd : ℕ) × (r ≡ ok fd)) ⊎ ((e : ErrorCode) × (r ≡ err e))
Result-cases (ok fd) = inl (fd, refl)
Result-cases (err e) = inr (e, refl)

-- An operation that ends with the descriptor in hand, or with an error and the descriptor closed.
pub data Settled (fd : ℕ) (fds : List ℕ) (r : Log × Socket × Option ErrorCode) : Type 0 where
  kept : r.1.handle ≡ some fd → live r.0 ≡ some (fd ∷ fds) → r.2 ≡ none → Settled fd fds r
  closed :
      (e : ErrorCode) → r.1.handle ≡ none → live r.0 ≡ some fds → r.2 ≡ some e → Settled fd fds r

-- A new socket holds the new descriptor; after an error nothing new is open.
pub data Made (fds : List ℕ) (r : Log × Result Socket) : Type 0 where
  made :
      (fd : ℕ) (s : Socket)
      → r.1 ≡ ok s
      → s.handle ≡ some fd
      → live r.0 ≡ some (fd ∷ fds)
      → remove fd fds ≡ none
      → Made fds r
  failed : (e : ErrorCode) → r.1 ≡ err e → live r.0 ≡ some fds → Made fds r
