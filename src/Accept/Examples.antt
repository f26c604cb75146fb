-- ===== src/Accept/Examples.antt =====
-- The theorems on src/socket/tcp_accept_loop.cpp at concrete runs.
use socketpp.Base.{◌≢◌, refl, true, false, some, [], ◌∷◌}
use socketpp.Accept.{AcceptLoop, connection, fd_limit_reached, create, on_event}
use socketpp.Accept.System.{Reach, here, next, readable_event, expires, other_event}
use socketpp.Accept.Backoff.{Inv, listener_comes_back, unmade_timer_deafens}

-- One connection, then no descriptor is left; the timer expires.
abbrev limit_run : (s : AcceptLoop) × Reach true create s
unfolding create on_event
limit_run = (
  _,
  next (next here (readable_event (connection 5 ∷ fd_limit_reached ∷ []) refl))
      (expires [] 100 [] refl),
)

listener_comes_back_example : Inv limit_run.0
listener_comes_back_example = listener_comes_back limit_run.0 limit_run.1

abbrev deaf_run :
    (s : AcceptLoop) × Reach true (on_event create true false (fd_limit_reached ∷ [])) s
deaf_run = (_, next here (other_event []))

unmade_timer_deafens_example : deaf_run.0.interest ≢ some true
unfolding create
unmade_timer_deafens_example = unmade_timer_deafens true create deaf_run.0 [] refl deaf_run.1
