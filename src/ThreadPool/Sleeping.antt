-- ===== src/ThreadPool/Sleeping.antt =====
-- The workers of src/high/thread_pool.cpp and the condition variable `cv_` on which they wait.
use socketpp.Base.{ℕ, suc, ◌+◌, ◌<◌, ◌≡◌, ◌⊎◌, Bool, true, false, arith}
use socketpp.ThreadPool.{
  ThreadPool, wait, leave, run, create, submit, worker, shutdown, submit_notifies,
  shutdown_notifies,
}

-- `awake` threads are in the loop's critical section or wait for the lock, `asleep` ones wait in
-- `cv_.wait` and do not look at the pool, `busy` ones run `task()`, `exited` ones have returned.
-- `ones` and `alls` count the calls of `notify_one` and `notify_all` that are to come: they are made
-- after the lock is given back.
pub record System {ℓ} (A : Type ℓ) : Type ℓ where
  pub pool : ThreadPool A
  pub awake : ℕ
  pub asleep : ℕ
  pub busy : ℕ
  pub exited : ℕ
  pub ones : ℕ
  pub alls : ℕ

module _ {ℓ} {A : Type ℓ} where
  abbrev pub start : ℕ → ℕ → ℕ → System A
  start num_threads max_queue_size hardware =
      let p = create num_threads max_queue_size hardware in
      record { pool = p; awake = p.workers; asleep = 0; busy = 0; exited = 0; ones = 0; alls = 0 }

  pub data Step (s : System A) : System A → Type ℓ where
    caller :
        (x : A)
        → Step s (record s { pool = (submit s.pool x).0; ones = s.ones + submit_notifies s.pool x })
    stop : Step s (record s { pool = shutdown s.pool; alls = s.alls + shutdown_notifies s.pool })
    notify_one :
        (n k : ℕ)
        → s.ones ≡ suc n
        → s.asleep ≡ suc k
        → Step s (record s { ones = n; asleep = k; awake = suc s.awake })
    notify_no_one : (n : ℕ) → s.ones ≡ suc n → s.asleep ≡ 0 → Step s (record s { ones = n })
    notify_all :
        (n : ℕ)
        → s.alls ≡ suc n
        → Step s (record s { alls = n; asleep = 0; awake = s.awake + s.asleep })
    spurious : (k : ℕ) → s.asleep ≡ suc k → Step s (record s { asleep = k; awake = suc s.awake })
    sleep :
        (n : ℕ)
        → s.awake ≡ suc n
        → worker s.pool ≡ wait
        → Step s (record s { awake = n; asleep = suc s.asleep })
    take :
        (x : A) (p : ThreadPool A) (n : ℕ)
        → s.awake ≡ suc n
        → worker s.pool ≡ run x p
        → Step s (record s { pool = p; awake = n; busy = suc s.busy })
    finish : (n : ℕ) → s.busy ≡ suc n → Step s (record s { busy = n; awake = suc s.awake })
    quit :
        (n : ℕ)
        → s.awake ≡ suc n
        → worker s.pool ≡ leave
        → Step s (record s { awake = n; exited = suc s.exited })

  pub data Reach (s : System A) : System A → Type ℓ where
    here : Reach s s
    next : {t u : System A} → Reach s t → Step t u → Reach s u

  -- The steps of the workers, and of the thread in `shutdown`; no call of another thread, and no
  -- wake-up without a notification.
  abbrev pub is_own : {s t : System A} → Step s t → Bool
  is_own (caller x) = false
  is_own stop = false
  is_own (notify_one n k e f) = false
  is_own (notify_no_one n e f) = false
  is_own (spurious k e) = false
  is_own _ = true

  -- A run of so many such steps.
  pub data Runs : ℕ → System A → System A → Type ℓ where
    rests : {s : System A} → Runs 0 s s
    goes :
        {k : ℕ} {s t u : System A} (st : Step s t)
        → is_own st ≡ true
        → Runs k t u
        → Runs (suc k) s u

  -- Where a thread of a stopped pool is asleep, a call of `notify_all` is to come.
  pub record Inv (s : System A) : Type ℓ where
    pub threads : s.awake + s.asleep + s.busy + s.exited ≡ s.pool.workers
    pub called : s.pool.stopped ≡ true → (s.asleep ≡ 0) ⊎ (0 < s.alls)

  pub start-Inv : (n m h : ℕ) → Inv (start n m h)
  unfolding create
  start-Inv n m h = record { threads = omega arith; called = λ e. ground arith }

  pub Step-Inv : {s t : System A} → Step s t → Inv s → Inv t
  unfolding submit shutdown worker shutdown_notifies
  Step-Inv {s} (caller x) v = record {
    threads = ground (arith, v.threads);
    called = λ e. ground (arith, v.called, e);
  }
  Step-Inv {s} stop v = record {
    threads = ground (arith, v.threads);
    called = λ e. ground (arith, v.called, e);
  }
  Step-Inv {s} (notify_one n k e f) v = record {
    threads = omega (arith, v.threads);
    called = λ h. ground (arith, v.called h);
  }
  Step-Inv {s} (notify_no_one n e f) v = record { threads = v.threads; called = v.called }
  Step-Inv {s} (notify_all n e) v = record {
    threads = omega (arith, v.threads);
    called = λ h. ground arith;
  }
  Step-Inv {s} (spurious k e) v = record {
    threads = omega (arith, v.threads);
    called = λ h. ground (arith, v.called h);
  }
  Step-Inv {s} (sleep n e w) v = record {
    threads = omega (arith, v.threads);
    called = λ h. ground (arith, w, h);
  }
  Step-Inv {s} (take x p n e w) v = record {
    threads = ground (arith, v.threads, w);
    called = λ h. ground (arith, v.called, w, h);
  }
  Step-Inv {s} (finish n e) v = record { threads = omega (arith, v.threads); called = v.called }
  Step-Inv {s} (quit n e w) v = record { threads = omega (arith, v.threads); called = v.called }

  pub Reach-Inv : {s t : System A} → Reach s t → Inv s → Inv t
  Reach-Inv here v = v
  Reach-Inv (next r st) v = Step-Inv st (Reach-Inv r v)
