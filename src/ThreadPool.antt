-- ===== src/ThreadPool.antt =====
-- src/high/thread_pool.cpp and thread_pool.hpp: the pool that runs user callbacks. Each function is
-- one critical section under `mutex_`; `System` interleaves them.
pub mod System
pub mod Invariant
pub mod Shutdown
pub mod Sleeping
pub mod Joining
mod Examples
use socketpp.Base.{
  ℕ, ◌+◌, Bool, true, false, ◌&&◌, List, [], ◌∷◌, ◌++◌, length, is_empty, ltb, leb, ◌==◌,
  if◌then◌else◌,
}

-- `workers` is the size of `workers_`.
pub record ThreadPool {ℓ} (A : Type ℓ) : Type ℓ where
  pub queue : List A
  pub stopped : Bool
  pub max_queue_size : ℕ
  pub workers : ℕ

-- The number of threads that the constructor starts; `hardware` is what
-- `std::thread::hardware_concurrency` returns.
pub worker_count : ℕ → ℕ → ℕ
worker_count num_threads hardware =
    if num_threads == 0 then (if ltb hardware 2 then 2 else hardware) else num_threads

-- What a worker does once it holds the lock: it waits, returns, or leaves with a task.
pub data Wake {ℓ} (A : Type ℓ) : Type ℓ where
  wait : Wake A
  leave : Wake A
  run : A → ThreadPool A → Wake A

module _ {ℓ} {A : Type ℓ} where
  unfoldable pub create : ℕ → ℕ → ℕ → ThreadPool A
  unfolding worker_count
  create num_threads max_queue_size hardware = record {
    queue = [];
    stopped = false;
    max_queue_size = max_queue_size;
    workers = worker_count num_threads hardware;
  }

  unfoldable pub submit : ThreadPool A → A → ThreadPool A × Bool
  submit p task =
      if p.stopped
      then (p, false)
      else if ltb 0 p.max_queue_size && leb p.max_queue_size (length p.queue)
      then (p, false)
      else (record p { queue = p.queue ++ task ∷ [] }, true)

  -- The body of the worker's loop after `queue_` has been read.
  worker_queue : ThreadPool A → List A → Wake A
  worker_queue p [] = if p.stopped then leave else wait
  worker_queue p (task ∷ rest) = run task (record p { queue = rest })

  unfoldable pub worker : ThreadPool A → Wake A
  unfolding worker_queue
  worker p = worker_queue p p.queue

  -- The first part of `shutdown`; the second, the joins, ends when every worker has returned.
  unfoldable pub shutdown : ThreadPool A → ThreadPool A
  shutdown p = if p.stopped then p else record p { stopped = true }

  -- How many calls of `notify_one` follow a `submit`, and of `notify_all` a `shutdown`.
  unfoldable pub submit_notifies : ThreadPool A → A → ℕ
  unfolding submit
  submit_notifies p task = if (submit p task).1 then 1 else 0

  unfoldable pub shutdown_notifies : ThreadPool A → ℕ
  shutdown_notifies p = if p.stopped then 0 else 1
