-- ===== src/Connect.antt =====
-- src/socket/tcp_connect_async.cpp (connect_async_impl): a connect that a timer and a writable event
-- race for, on Linux and macOS.
pub mod Outcome
mod Examples
use socketpp.Base.{ℕ, Bool, true, false, List, [], ◌∷◌, ◌++◌, ◌==◌, if◌then◌else◌}
use socketpp.Errors.{
  Errc, ErrorCode, Errno, socketpp_code, generic_code, timed_out, normalize_error,
}

-- What the callback is called with: the socket, or an error.
pub data Answer : Type 0 where
  connected : Answer
  error : ErrorCode → Answer

-- `connect_state`, with what the dispatcher holds of it: `timer_set` and `watched` say whether the
-- timer and the writable callback are there. `socket_open` is false when the state's socket is closed
-- or has been handed over.
pub record Connect : Type 0 where
  pub completed : Bool
  pub socket_open : Bool
  pub timer_set : Bool
  pub watched : Bool
  pub answers : List Answer

-- What `Connector::connect` returns: a socket, connected or not yet, or an error.
pub data Opened : Type 0 where
  opened : Opened
  refused : ErrorCode → Opened

-- What `getsockopt(SO_ERROR)` gives: an error of the call (an `errno`), or the option's value.
pub data SoError : Type 0 where
  call_failed : ℕ → SoError
  so_error : ℕ → SoError

-- `timer_made` and `added`: whether `loop.defer` and `loop.io().add` succeed, which is not looked at.
unfoldable pub connect_async : Opened → Bool → Bool → Connect
connect_async (refused e) timer_made added = record {
  completed = false;
  socket_open = false;
  timer_set = false;
  watched = false;
  answers = error e ∷ [];
}
connect_async opened timer_made added = record {
  completed = false;
  socket_open = true;
  timer_set = timer_made;
  watched = added;
  answers = [];
}

-- The callback of the timer, which is dropped when it has fired.
unfoldable pub on_timeout : Connect → Connect
on_timeout c =
    let d = record c { timer_set = false } in
    if d.completed then d else record d {
      completed = true;
      watched = false;
      socket_open = false;
      answers = d.answers ++ error (socketpp_code timed_out) ∷ [];
    }

module _ (e : Errno) where
  -- What is answered, and whether the state keeps a socket to close.
  unfoldable pub check : SoError → Answer
  check (call_failed n) = error (normalize_error e (ErrorCode.system_code n))
  check (so_error n) = if n == 0 then connected else error (normalize_error e (generic_code n))

  -- The callback of the writable event.
  unfoldable pub on_writable : Connect → SoError → Connect
  unfolding check
  on_writable c r = if c.completed then c else record c {
    completed = true;
    timer_set = false;
    watched = false;
    socket_open = false;
    answers = c.answers ++ check r ∷ [];
  }
