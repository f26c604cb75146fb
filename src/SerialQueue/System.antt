-- ===== src/SerialQueue/System.antt =====
-- A serial queue on a pool (src/high/serial_queue.hpp) among any threads that submit to either.
use socketpp.Base.{ℕ, ◌≡◌, Option, none, some, List, [], ◌∷◌, ◌++◌, length, ◌+◌}
use socketpp.ThreadPool.{ThreadPool, run, worker, shutdown}
use socketpp.ThreadPool
use socketpp.SerialQueue.{SerialQueue, Job, drain, other, return, call, create, submit, drain_once}

-- `active` has an entry for each thread inside `drain`: `none` before the lock, `some fn` during
-- `fn()`. `submitted` and `started` record the callbacks given and begun, oldest first.
pub record System {ℓ} (A : Type ℓ) : Type ℓ where
  pub queue : SerialQueue A
  pub pool : ThreadPool Job
  pub active : List (Option A)
  pub submitted : List A
  pub started : List A

-- Drain loops that wait in the pool's queue.
abbrev pub waiting : List Job → ℕ
waiting [] = 0
waiting (drain ∷ js) = 1 + waiting js
waiting (other n ∷ js) = waiting js

module _ {ℓ} {A : Type ℓ} where
  abbrev pub start : ThreadPool Job → System A
  start pool = record { queue = create; pool = pool; active = []; submitted = []; started = [] }

  -- Drain loops that wait or run.
  abbrev pub drains : System A → ℕ
  drains s = waiting s.pool.queue + length s.active

  unfoldable pub submits : System A → A → System A
  submits s fn =
      let (q, p) = submit s.queue s.pool fn in
      record s { queue = q; pool = p; submitted = s.submitted ++ fn ∷ [] }

  pub data Step (s : System A) : System A → Type ℓ where
    caller : (fn : A) → Step s (submits s fn)
    foreign : (n : ℕ) → Step s (record s { pool = (ThreadPool.submit s.pool (other n)).0 })
    stop : Step s (record s { pool = shutdown s.pool })
    take_drain :
        (p : ThreadPool Job)
        → worker s.pool ≡ run drain p
        → Step s (record s { pool = p; active = none ∷ s.active })
    take_other :
        (p : ThreadPool Job) (n : ℕ)
        → worker s.pool ≡ run (other n) p
        → Step s (record s { pool = p })
    next_callback :
        (xs ys : List (Option A)) (fn : A) (q : SerialQueue A)
        → s.active ≡ xs ++ (none ∷ ys)
        → drain_once s.queue ≡ call fn q
        → Step s
            (record s { queue = q; active = xs ++ (some fn ∷ ys); started = s.started ++ fn ∷ [] })
    end_drain :
        (xs ys : List (Option A)) (q : SerialQueue A)
        → s.active ≡ xs ++ (none ∷ ys)
        → drain_once s.queue ≡ return q
        → Step s (record s { queue = q; active = xs ++ ys })
    callback_done :
        (xs ys : List (Option A)) (fn : A)
        → s.active ≡ xs ++ (some fn ∷ ys)
        → Step s (record s { active = xs ++ (none ∷ ys) })

  pub data Reach (s : System A) : System A → Type ℓ where
    here : Reach s s
    next : {t u : System A} → Reach s t → Step t u → Reach s u
