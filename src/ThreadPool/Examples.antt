-- ===== src/ThreadPool/Examples.antt =====
-- The theorems on the pool of src/high/thread_pool.cpp at a concrete run.
use socketpp.Base.{ℕ, ◌≤◌, ◌≡◌, refl, true, false, ◌⊎◌, [], ◌∷◌, ◌++◌, length}
use socketpp.ThreadPool.{create, submit, worker, shutdown}
use socketpp.ThreadPool.System.{
  System, start, submits, Step, caller, stop, take, finish, quit, Reach, here, next,
}
use socketpp.ThreadPool.Invariant.{queue_is_fifo_and_bounded}
use socketpp.ThreadPool.Sleeping
use socketpp.ThreadPool.Joining.{remaining, shutdown_returns}
use socketpp.ThreadPool.Shutdown.{joined_ran_all}

submit_full : (submit (record (create {A = ℕ} 1 1 4) { queue = 7 ∷ [] }) 8).1 ≡ false
unfolding create submit
submit_full = refl

-- One worker: a task is submitted, the pool is shut down, the worker runs the task and returns.
abbrev stopped_run : (s : System ℕ) × Reach (start 1 0 4) s
unfolding create submit submits shutdown
stopped_run = (_, next (next here (caller 7)) stop)

abbrev joined_run : (s : System ℕ) × Reach (start 1 0 4) s
unfolding create submit submits shutdown worker
joined_run =
    (_, next (next (next stopped_run.1 (take 7 _ 0 refl refl)) (finish 0 refl)) (quit 0 refl refl))

queue_is_fifo_and_bounded_example :
    (stopped_run.0.started ++ stopped_run.0.pool.queue ≡ stopped_run.0.accepted)
    × ((stopped_run.0.pool.max_queue_size ≡ 0)
        ⊎ (length stopped_run.0.pool.queue ≤ stopped_run.0.pool.max_queue_size))
queue_is_fifo_and_bounded_example = queue_is_fifo_and_bounded 1 0 4 stopped_run.0 stopped_run.1

joined_ran_all_example :
    (joined_run.0.pool.stopped ≡ true)
    × (joined_run.0.pool.queue ≡ [])
    × (joined_run.0.busy ≡ 0)
    × (joined_run.0.started ≡ joined_run.0.accepted)
unfolding create submit submits shutdown worker
joined_ran_all_example = joined_ran_all 1 0 4 joined_run.0 joined_run.1 refl

abbrev late_submit : Step stopped_run.0 (submits stopped_run.0 9)
unfolding create submit submits shutdown
late_submit = caller 9

-- The one worker is asleep when the pool is shut down.
abbrev asleep_run : (s : Sleeping.System ℕ) × Sleeping.Reach (Sleeping.start 1 0 4) s
unfolding create shutdown worker
asleep_run =
    (_, Sleeping.next (Sleeping.next Sleeping.here (Sleeping.sleep 0 refl refl)) Sleeping.stop)

shutdown_returns_example :
    ((k : ℕ) × (t : Sleeping.System ℕ) × Sleeping.Runs k asleep_run.0 t
      × (t.exited ≡ t.pool.workers))
    × ((k : ℕ) (u : Sleeping.System ℕ)
        → Sleeping.Runs k asleep_run.0 u
        → k ≤ remaining asleep_run.0)
unfolding create shutdown asleep_run
shutdown_returns_example = shutdown_returns 1 0 4 asleep_run.0 asleep_run.1 refl
