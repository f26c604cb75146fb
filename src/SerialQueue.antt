-- ===== src/SerialQueue.antt =====
-- src/high/serial_queue.hpp: callbacks of one object, run one at a time on the pool. `submit` and
-- `drain_once` are the two critical sections under `mutex_`; `System` interleaves them.
pub mod System
pub mod Invariant
pub mod Stranded
mod Examples
use socketpp.Base.{ℕ, Bool, true, false, List, [], ◌∷◌, ◌++◌, if◌then◌else◌}
use socketpp.ThreadPool.{ThreadPool}
use socketpp.ThreadPool

-- What the shared pool runs: a drain loop of this queue, or something else.
pub data Job : Type 0 where
  drain : Job
  other : ℕ → Job

-- The `state` that the drain loop shares with the queue; its pool is passed beside it.
pub record SerialQueue {ℓ} (A : Type ℓ) : Type ℓ where
  pub pending : List A
  pub draining : Bool

-- What one round of the drain loop does under the lock: it returns, or leaves with a callback.
pub data Round {ℓ} (A : Type ℓ) : Type ℓ where
  return : SerialQueue A → Round A
  call : A → SerialQueue A → Round A

module _ {ℓ} {A : Type ℓ} where
  unfoldable pub create : SerialQueue A
  create = record { pending = []; draining = false }

  -- What the pool answers is not looked at.
  unfoldable pub submit : SerialQueue A → ThreadPool Job → A → SerialQueue A × ThreadPool Job
  submit q pool fn =
      let appended = record q { pending = q.pending ++ fn ∷ [] } in
      if q.draining
      then (appended, pool)
      else (record appended { draining = true }, (ThreadPool.submit pool drain).0)

  drain_front : SerialQueue A → List A → Round A
  drain_front q [] = return (record q { draining = false })
  drain_front q (fn ∷ rest) = call fn (record q { pending = rest })

  unfoldable pub drain_once : SerialQueue A → Round A
  unfolding drain_front
  drain_once q = drain_front q q.pending
