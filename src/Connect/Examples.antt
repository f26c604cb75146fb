-- ===== src/Connect/Examples.antt =====
-- The theorems on src/socket/tcp_connect_async.cpp at concrete runs.
use socketpp.Base.{◌≡◌, refl, ◌⊎◌, true, ◌||◌, []}
use socketpp.Errors.Examples.{linux}
use socketpp.Connect.{Connect, opened, so_error, connect_async, on_timeout}
use socketpp.Connect.Outcome.{
  Step, Reach, here, next, timeout, writable, Answered, connect_answers_once,
}

-- The timer fires, and the event is late in the same batch.
abbrev late_run : (c : Connect) × Reach linux true (connect_async opened true true) c
unfolding connect_async on_timeout
late_run = (_, next (next here (timeout refl)) (writable (so_error 0) refl))

connect_answers_once_example :
    Answered late_run.0
    ⊎ ((late_run.0.answers ≡ [])
        × (late_run.0.socket_open ≡ true)
        × ((true || true) ≡ true → (d : Connect) × Step linux true late_run.0 d × Answered d))
connect_answers_once_example = connect_answers_once linux true true true late_run.0 late_run.1
