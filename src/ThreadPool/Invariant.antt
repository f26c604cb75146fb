-- ===== src/ThreadPool/Invariant.antt =====
-- What holds of the pool of src/high/thread_pool.cpp between any two critical sections.
use socketpp.Base.{
  ℕ, ◌+◌, ◌≤◌, ◌≡◌, sym, ◌∙◌, ap, ◌⊎◌, true, List, [], ◌∷◌, ◌++◌, length, append_assoc,
  length-append, arith,
}
use socketpp.ThreadPool.{ThreadPool, leave, run, create, submit, worker, shutdown}
use socketpp.ThreadPool.System.{
  System, start, submits, Step, caller, stop, take, finish, quit, Reach, here, next,
}

module _ {ℓ} {A : Type ℓ} where
  pub record Inv (s : System A) : Type ℓ where
    pub fifo : s.started ++ s.pool.queue ≡ s.accepted
    pub bounded : (s.pool.max_queue_size ≡ 0) ⊎ (length s.pool.queue ≤ s.pool.max_queue_size)
    pub drained : (s.exited ≡ 0) ⊎ ((s.pool.stopped ≡ true) × (s.pool.queue ≡ []))
    pub threads : s.idle + s.busy + s.exited ≡ s.pool.workers

  worker-run :
      (p q : ThreadPool A) (x : A)
      → worker p ≡ run x q
      → (p.queue ≡ x ∷ q.queue)
        × (q.stopped ≡ p.stopped)
        × (q.max_queue_size ≡ p.max_queue_size)
        × (q.workers ≡ p.workers)
  unfolding worker
  worker-run p q x h = ground arith

  worker-leave : (p : ThreadPool A) → worker p ≡ leave → (p.stopped ≡ true) × (p.queue ≡ [])
  unfolding worker
  worker-leave p h = ground arith

  pub start-Inv : (n m h : ℕ) → Inv (start n m h)
  unfolding create
  start-Inv n m h = ground arith

  submits-Inv : (s : System A) (x : A) → Inv s → Inv (submits s x)
  unfolding submits submit
  submits-Inv s x v =
      ground
        (arith, length-append s.pool.queue (x ∷ []), append_assoc s.started s.pool.queue (x ∷ []))

  take-fifo :
      (a q acc : List A) (x : A) (r : List A) → a ++ q ≡ acc → q ≡ x ∷ r → (a ++ x ∷ []) ++ r ≡ acc
  take-fifo a q acc x r h e = append_assoc a (x ∷ []) r ∙ ap (λ l. a ++ l) (sym e) ∙ h

  pub Step-Inv : {s t : System A} → Step s t → Inv s → Inv t
  unfolding shutdown
  Step-Inv {s} (caller x) v = submits-Inv s x v
  Step-Inv {s} stop v = ground arith
  Step-Inv {s} (take x p n i w) v =
      ground (arith, worker-run s.pool p x w, take-fifo s.started s.pool.queue s.accepted x p.queue)
  Step-Inv {s} (finish n b) v = ground arith
  Step-Inv {s} (quit n i w) v = ground (arith, worker-leave s.pool w)

  pub Reach-Inv : {s t : System A} → Reach s t → Inv s → Inv t
  Reach-Inv here v = v
  Reach-Inv (next r st) v = Step-Inv st (Reach-Inv r v)

  -- In every interleaving of callers and workers, the tasks begun followed by the tasks queued are
  -- the tasks accepted, in order, and the queue of a pool with a limit never exceeds it.
  pub queue_is_fifo_and_bounded :
      (n m h : ℕ) (s : System A)
      → Reach (start n m h) s
      → (s.started ++ s.pool.queue ≡ s.accepted)
        × ((s.pool.max_queue_size ≡ 0) ⊎ (length s.pool.queue ≤ s.pool.max_queue_size))
  queue_is_fifo_and_bounded n m h s r = let v = Reach-Inv r (start-Inv n m h) in (v.fifo, v.bounded)
