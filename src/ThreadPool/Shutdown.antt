-- ===== src/ThreadPool/Shutdown.antt =====
-- `shutdown` of src/high/thread_pool.cpp: what its joins wait for.
use socketpp.Base.{ℕ, ◌<◌, ◌≡◌, refl, ◌∙◌, true, [], append-nil, arith}
use socketpp.ThreadPool.{create, submit, worker, shutdown, worker_count}
use socketpp.ThreadPool.System.{
  System, start, submits, Step, caller, stop, take, finish, quit, Reach, here, next,
}
use socketpp.ThreadPool.Invariant.{Inv, start-Inv, Reach-Inv}

-- A pool never starts without a worker.
pub worker_count_pos : (n h : ℕ) → 0 < worker_count n h
unfolding worker_count
worker_count_pos n h = ground arith

module _ {ℓ} {A : Type ℓ} where
  Step-workers : {s t : System A} → Step s t → t.pool.workers ≡ s.pool.workers
  unfolding submits submit shutdown worker
  Step-workers {s} (caller x) = ground arith
  Step-workers {s} stop = ground arith
  Step-workers {s} (take x p n i w) = ground arith
  Step-workers {s} (finish n b) = refl
  Step-workers {s} (quit n i w) = refl

  Reach-workers : {s t : System A} → Reach s t → t.pool.workers ≡ s.pool.workers
  Reach-workers here = refl
  Reach-workers (next r st) = Step-workers st ∙ Reach-workers r

  -- In every interleaving of callers and workers: once all workers of a new pool have returned,
  -- which is what the joins of `shutdown` wait for, the pool is stopped, its queue is empty, no
  -- task is running, and the tasks begun are exactly those that `submit` accepted, in that order.
  pub joined_ran_all :
      (n m h : ℕ) (s : System A)
      → Reach (start n m h) s
      → s.exited ≡ s.pool.workers
      → (s.pool.stopped ≡ true) × (s.pool.queue ≡ []) × (s.busy ≡ 0) × (s.started ≡ s.accepted)
  unfolding create
  joined_ran_all n m h s r e = ground (
    arith,
    v.fifo,
    v.drained,
    v.threads,
    append-nil s.started,
    Reach-workers r,
    worker_count_pos n h,
  )
    where
      v : Inv s
      v = Reach-Inv r (start-Inv n m h)
