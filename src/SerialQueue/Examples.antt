-- ===== src/SerialQueue/Examples.antt =====
-- The theorems on src/high/serial_queue.hpp at concrete runs.
use socketpp.Base.{ℕ, ◌≤◌, ◌≡◌, ◌≢◌, refl, [], ◌++◌, length}
use socketpp.ThreadPool.{ThreadPool, worker, shutdown}
use socketpp.ThreadPool
use socketpp.SerialQueue.{Job, submit, drain_once, create}
use socketpp.SerialQueue.System.{
  System, start, drains, submits, caller, take_drain, next_callback, Reach, here, next,
}
use socketpp.SerialQueue.Invariant.{one_at_a_time_in_order, no_lost_callback}

abbrev pool : ThreadPool Job
unfolding ThreadPool.create
pool = ThreadPool.create 2 0 4

-- Two callbacks are submitted, and a worker is in the first.
abbrev running : (s : System ℕ) × Reach (start pool) s
unfolding ThreadPool.create submit submits ThreadPool.submit worker drain_once create
running = (
  _,
  next (next (next (next here (caller 1)) (caller 2)) (take_drain _ refl))
      (next_callback [] [] 1 _ refl refl),
)

one_at_a_time_in_order_example :
    (length running.0.active ≤ 1)
    × (running.0.started ++ running.0.queue.pending ≡ running.0.submitted)
unfolding ThreadPool.create
one_at_a_time_in_order_example = one_at_a_time_in_order pool running.0 refl running.1

no_lost_callback_example :
    (running.0.queue.pending ≢ [] → drains running.0 ≡ 1)
    × (drains running.0 ≡ 0 → running.0.started ≡ running.0.submitted)
unfolding ThreadPool.create submit submits ThreadPool.submit worker drain_once create
no_lost_callback_example = no_lost_callback pool running.0 refl running.1 (refl, refl)

abbrev dead : System ℕ
unfolding ThreadPool.create shutdown
dead = start (shutdown pool)
