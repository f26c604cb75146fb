-- ===== src/Accept.antt =====
-- src/socket/tcp_accept_loop.cpp (accept_loop_impl): the callback that accepts connections, and its
-- back-off where descriptors have run out.
pub mod System
pub mod Backoff
mod Examples
use socketpp.Base.{
  ℕ, ◌*◌, Bool, true, false, Option, none, some, List, [], ◌∷◌, ◌++◌, ltb, if◌then◌else◌,
}

-- What `listener.accept` returns; a connection is a number that stands for it.
pub data Accepted : Type 0 where
  connection : ℕ → Accepted
  would_block fd_limit_reached other_error : Accepted

-- What the handler is called with.
pub data Handled : Type 0 where
  with_connection : ℕ → Handled
  with_limit with_error : Handled

-- `interest`: whether the listener is watched for readability, `none` if it is not registered.
-- `timers` holds the delays of the timers that will watch it again.
pub record AcceptLoop : Type 0 where
  pub backoff_ms : ℕ
  pub interest : Option Bool
  pub timers : List ℕ
  pub handled : List Handled

unfoldable pub create : AcceptLoop
create = record { backoff_ms = 100; interest = some true; timers = []; handled = [] }

-- `loop.io().modify`, which fails for a listener that is not registered.
unfoldable pub modify : Option Bool → Bool → Option Bool
modify none b = none
modify (some a) b = some b

-- `std::min(backoff * 2, 5000)`.
abbrev pub next_backoff : ℕ → ℕ
next_backoff b = if ltb 5000 (b * 2) then 5000 else b * 2

-- The branch for `fd_limit_reached`; `timer_made` says whether `loop.defer` makes its timer.
unfoldable pub back_off : AcceptLoop → Bool → AcceptLoop
unfolding modify
back_off s timer_made = record s {
  interest = modify s.interest false;
  backoff_ms = next_backoff s.backoff_ms;
  timers = if timer_made then s.timers ++ s.backoff_ms ∷ [] else s.timers;
  handled = s.handled ++ with_limit ∷ [];
}

-- The loop over what `accept` returns, call by call; after the last it would block.
unfoldable pub accept_all : AcceptLoop → Bool → List Accepted → AcceptLoop
unfolding back_off
accept_all s timer_made [] = s
accept_all s timer_made (would_block ∷ rs) = s
accept_all s timer_made (fd_limit_reached ∷ rs) = back_off s timer_made
accept_all s timer_made (other_error ∷ rs) = record s { handled = s.handled ++ with_error ∷ [] }
accept_all s timer_made (connection c ∷ rs) =
    accept_all (record s { backoff_ms = 100; handled = s.handled ++ with_connection c ∷ [] })
      timer_made rs

-- The callback of the listener; `readable`: the event is in the mask that the dispatcher reports.
unfoldable pub on_event : AcceptLoop → Bool → Bool → List Accepted → AcceptLoop
unfolding accept_all
on_event s readable timer_made rs = if readable then accept_all s timer_made rs else s

-- The callback of the timer.
unfoldable pub on_timer : AcceptLoop → AcceptLoop
unfolding modify
on_timer s = record s { interest = modify s.interest true }

-- `listener.stop`: the socket is closed, and with it its registration.
unfoldable pub stop : AcceptLoop → AcceptLoop
stop s = record s { interest = none }
