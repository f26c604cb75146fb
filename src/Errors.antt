-- ===== src/Errors.antt =====
-- include/socketpp/platform/error.hpp and src/platform/error.cpp (the branch for Linux and macOS):
-- error codes and their normalisation.
pub mod Laws
pub mod Examples
use socketpp.Base.{ℕ, List, [], ◌∷◌, ◌==◌, if◌then◌else◌}

-- The enumerators of `errc` that the modelled code returns.
pub data Errc : Type 0 where
  would_block in_progress connection_reset connection_refused connection_aborted : Errc
  not_connected address_in_use network_unreachable timed_out interrupted : Errc
  fd_limit_reached missing_scope_id invalid_state option_not_supported : Errc

-- A `std::error_code`: its category with its value. A socketpp code is never the zero `success`.
pub data ErrorCode : Type 0 where
  socketpp_code : Errc → ErrorCode
  system_code generic_code : ℕ → ErrorCode

-- The numbers of `<errno.h>`, which the platform chooses.
pub record Errno : Type 0 where
  pub eagain : ℕ
  pub ewouldblock : ℕ
  pub einprogress : ℕ
  pub econnreset : ℕ
  pub econnrefused : ℕ
  pub econnaborted : ℕ
  pub enotconn : ℕ
  pub eaddrinuse : ℕ
  pub enetunreach : ℕ
  pub etimedout : ℕ
  pub eintr : ℕ
  pub emfile : ℕ
  pub enfile : ℕ

-- A `switch` over the labels, with `default: return ec`.
unfoldable pub switch : ℕ → List (ℕ × Errc) → ErrorCode
switch code [] = system_code code
switch code ((label, c) ∷ rest) = if code == label then socketpp_code c else switch code rest

module _ (e : Errno) where
  open e use {
    eagain, ewouldblock, einprogress, econnreset, econnrefused, econnaborted, enotconn, eaddrinuse,
    enetunreach, etimedout, eintr, emfile, enfile,
  }

  -- The labels of the `switch`, in order.
  unfoldable pub labels : List (ℕ × Errc)
  labels =
      (eagain, would_block)
      ∷ (ewouldblock, would_block)
      ∷ (einprogress, in_progress)
      ∷ (econnreset, connection_reset)
      ∷ (econnrefused, connection_refused)
      ∷ (econnaborted, connection_aborted)
      ∷ (enotconn, not_connected)
      ∷ (eaddrinuse, address_in_use)
      ∷ (enetunreach, network_unreachable)
      ∷ (etimedout, timed_out)
      ∷ (eintr, interrupted)
      ∷ (emfile, fd_limit_reached)
      ∷ (enfile, fd_limit_reached)
      ∷ []

  unfoldable pub normalize_error : ErrorCode → ErrorCode
  unfolding switch labels
  normalize_error (socketpp_code c) = socketpp_code c
  normalize_error (generic_code n) = generic_code n
  normalize_error (system_code n) = if n == 0 then system_code 0 else switch n labels
