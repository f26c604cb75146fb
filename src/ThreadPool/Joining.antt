-- ===== src/ThreadPool/Joining.antt =====
-- The joins of `shutdown` of src/high/thread_pool.cpp come back.
use socketpp.Base.{
  ℕ, zero, suc, ◌+◌, ◌*◌, ◌≤◌, ◌<◌, ◌≡◌, refl, ◌⊎◌, inl, inr, true, List, [], ◌∷◌, length, arith,
}
use socketpp.ThreadPool.{ThreadPool, leave, run, worker}
use socketpp.ThreadPool.Sleeping.{
  System, start, Step, caller, stop, notify_one, notify_no_one, notify_all, spurious, sleep, take,
  finish, quit, Reach, is_own, Runs, rests, goes, Inv, start-Inv, Step-Inv, Reach-Inv,
}

module _ {ℓ} {A : Type ℓ} where
  -- What is left to do in a stopped pool.
  abbrev pub remaining : System A → ℕ
  remaining s = 3 * length s.pool.queue + 2 * s.busy + 2 * s.asleep + s.awake + s.alls

  -- In a stopped pool no worker goes to sleep, and each step leaves less to do.
  own_step :
      {s t : System A} (st : Step s t)
      → is_own st ≡ true
      → s.pool.stopped ≡ true
      → (t.pool.stopped ≡ true) × (remaining t < remaining s)
  unfolding worker
  own_step (caller x) o h = cc
  own_step stop o h = cc
  own_step (notify_one n k e f) o h = cc
  own_step (notify_no_one n e f) o h = cc
  own_step (spurious k e) o h = cc
  own_step {s} (notify_all n e) o h = (h, omega arith)
  own_step {s} (sleep n e w) o h = absurd (ground (arith, w, h))
  own_step {s} (take x p n e w) o h = ground (arith, w, h)
  own_step {s} (finish n e) o h = (h, omega arith)
  own_step {s} (quit n e w) o h = (h, omega arith)

  run_length : {k : ℕ} {s u : System A} → Runs k s u → s.pool.stopped ≡ true → k ≤ remaining s
  run_length rests h = omega arith
  run_length (goes st o r) h = let (h', less) = own_step st o h in omega (arith, run_length r h')

  worker_stopped :
      (p : ThreadPool A) (q : List A)
      → p.queue ≡ q
      → p.stopped ≡ true
      → (worker p ≡ leave) ⊎ ((x : A) × (p' : ThreadPool A) × (worker p ≡ run x p'))
  unfolding worker
  worker_stopped p [] e h = inl (ground arith)
  worker_stopped p (x ∷ r) e h = inr (x, record p { queue = r }, ground arith)

  -- All have returned, or a step can be taken.
  progress :
      (s : System A)
      → Inv s
      → s.pool.stopped ≡ true
      → (s.exited ≡ s.pool.workers) ⊎ ((t : System A) × (st : Step s t) × (is_own st ≡ true))
  progress s v h = go s.asleep s.alls s.busy s.awake refl refl refl refl
    where
      go :
          (z c b i : ℕ)
          → s.asleep ≡ z
          → s.alls ≡ c
          → s.busy ≡ b
          → s.awake ≡ i
          → (s.exited ≡ s.pool.workers) ⊎ ((t : System A) × (st : Step s t) × (is_own st ≡ true))
      go z (suc c) b i ez ec eb ei = inr (_, notify_all c ec, refl)
      go (suc z) zero b i ez ec eb ei = absurd (ground (arith, v.called h))
      go zero zero (suc b) i ez ec eb ei = inr (_, finish b eb, refl)
      go zero zero zero zero ez ec eb ei = inl (omega (arith, v.threads))
      go zero zero zero (suc i) ez ec eb ei = elim (worker_stopped s.pool s.pool.queue refl h) [
        | inl w ↦ inr (_, quit i ei w, refl)
        | inr (x, p, w) ↦ inr (_, take x p i ei w, refl)
      ]

  returns :
      (f : ℕ) (s : System A)
      → remaining s < f
      → Inv s
      → s.pool.stopped ≡ true
      → (k : ℕ) × (t : System A) × Runs k s t × (t.exited ≡ t.pool.workers)
  returns zero s m v h = absurd (omega arith)
  returns (suc f) s m v h = elim (progress s v h) [
    | inl done ↦ (0, s, rests, done)
    | inr (t, st, o) ↦
        let (h', less) = own_step st o h in
        let (k, u, r, e) = returns f t (omega arith) (Step-Inv st v) h' in
        (suc k, u, goes st o r, e)
  ]

  -- The joins of `shutdown` come back: in every interleaving of callers, workers, notifications and
  -- spurious wake-ups, once the pool is stopped, the workers and the thread in `shutdown` can go on by
  -- themselves, with no call and no spurious wake-up of any thread, until all workers have returned;
  -- and however they go on by themselves, it is for no more than `remaining s` steps, a number got from
  -- the tasks, the workers and the calls of `notify_all` to come. A worker that is asleep takes no step
  -- before a notification.
  pub shutdown_returns :
      (n m h : ℕ) (s : System A)
      → Reach (start n m h) s
      → s.pool.stopped ≡ true
      → ((k : ℕ) × (t : System A) × Runs k s t × (t.exited ≡ t.pool.workers))
        × ((k : ℕ) (u : System A) → Runs k s u → k ≤ remaining s)
  shutdown_returns n m h s r stopped =
      let v = Reach-Inv r (start-Inv n m h) in
      (returns (suc (remaining s)) s (omega arith) v stopped, λ k u runs. run_length runs stopped)
