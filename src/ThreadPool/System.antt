-- ===== src/ThreadPool/System.antt =====
-- The pool and its threads (src/high/thread_pool.cpp): callers submit and shut down at any time,
-- and the workers take tasks in any interleaving. Here a worker that waits may look at the pool again
-- at any time; Sleeping has the condition variable.
use socketpp.Base.{ℕ, suc, ◌≡◌, List, [], ◌∷◌, ◌++◌, if◌then◌else◌}
use socketpp.ThreadPool.{ThreadPool, leave, run, create, submit, worker, shutdown}

-- `idle` threads are in the loop's critical section or wait for it, `busy` ones run `task()`,
-- `exited` ones have returned. `accepted` and `started` record what `submit` took and what workers
-- began, oldest first.
pub record System {ℓ} (A : Type ℓ) : Type ℓ where
  pub pool : ThreadPool A
  pub idle : ℕ
  pub busy : ℕ
  pub exited : ℕ
  pub accepted : List A
  pub started : List A

module _ {ℓ} {A : Type ℓ} where
  abbrev pub start : ℕ → ℕ → ℕ → System A
  start num_threads max_queue_size hardware =
      let p = create num_threads max_queue_size hardware in
      record { pool = p; idle = p.workers; busy = 0; exited = 0; accepted = []; started = [] }

  unfoldable pub submits : System A → A → System A
  submits s x =
      let (p, ok) = submit s.pool x in
      record s { pool = p; accepted = if ok then s.accepted ++ x ∷ [] else s.accepted }

  pub data Step (s : System A) : System A → Type ℓ where
    caller : (x : A) → Step s (submits s x)
    stop : Step s (record s { pool = shutdown s.pool })
    take :
        (x : A) (p : ThreadPool A) (n : ℕ)
        → s.idle ≡ suc n
        → worker s.pool ≡ run x p
        → Step s (record s { pool = p; idle = n; busy = suc s.busy; started = s.started ++ x ∷ [] })
    finish : (n : ℕ) → s.busy ≡ suc n → Step s (record s { busy = n; idle = suc s.idle })
    quit :
        (n : ℕ)
        → s.idle ≡ suc n
        → worker s.pool ≡ leave
        → Step s (record s { idle = n; exited = suc s.exited })

  pub data Reach (s : System A) : System A → Type ℓ where
    here : Reach s s
    next : {t u : System A} → Reach s t → Step t u → Reach s u
