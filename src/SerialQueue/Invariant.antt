-- ===== src/SerialQueue/Invariant.antt =====
-- One drain loop at a time, no callback lost, and callbacks in the order of submission
-- (src/high/serial_queue.hpp).
use socketpp.Base.{
  ◌+◌, ◌≤◌, ◌≡◌, ◌≢◌, refl, sym, ◌∙◌, ap, true, false, Option, none, some, List, [], ◌∷◌, ◌++◌,
  length, append-nil, append_assoc, length-append, arith,
}
use socketpp.ThreadPool.{ThreadPool, run, worker, shutdown}
use socketpp.ThreadPool
use socketpp.SerialQueue.{SerialQueue, Job, drain, other, return, call, create, submit, drain_once}
use socketpp.SerialQueue.System.{
  System, waiting, start, drains, submits, Step, caller, foreign, stop, take_drain, take_other,
  next_callback, end_drain, callback_done, Reach, here, next,
}

waiting-append : (js : List Job) (j : Job) → waiting (js ++ j ∷ []) ≡ waiting js + waiting (j ∷ [])
waiting-append [] drain = refl
waiting-append [] (other n) = refl
waiting-append (drain ∷ js) j = omega (arith, waiting-append js j)
waiting-append (other n ∷ js) j = waiting-append js j

-- The pool takes every job: it is not stopped and has no limit.
abbrev pub IsOpen : ThreadPool Job → Type 0
IsOpen p = (p.stopped ≡ false) × (p.max_queue_size ≡ 0)

pool-submit :
    (p : ThreadPool Job) (j : Job)
    → let p' = (ThreadPool.submit p j).0 in
      (waiting p'.queue ≤ waiting p.queue + waiting (j ∷ []))
      × (IsOpen p' → IsOpen p × (waiting p'.queue ≡ waiting p.queue + waiting (j ∷ [])))
      × (waiting p.queue ≤ waiting p'.queue)
unfolding ThreadPool.submit
pool-submit p j = ground (arith, waiting-append p.queue j)

pub pool-worker :
    (p q : ThreadPool Job) (j : Job)
    → worker p ≡ run j q
    → (waiting p.queue ≡ waiting (j ∷ []) + waiting q.queue)
      × (q.stopped ≡ p.stopped)
      × (q.max_queue_size ≡ p.max_queue_size)
unfolding worker
pool-worker p q drain h = ground arith
pool-worker p q (other n) h = ground arith

module _ {ℓ} {A : Type ℓ} where
  pub record Inv (s : System A) : Type ℓ where
    pub single : drains s ≤ 1
    pub settled : s.queue.draining ≡ false → (drains s ≡ 0) × (s.queue.pending ≡ [])
    pub alive : IsOpen s.pool → s.queue.draining ≡ true → drains s ≡ 1
    pub fifo : s.started ++ s.queue.pending ≡ s.submitted

  start-Inv : (p : ThreadPool Job) → waiting p.queue ≡ 0 → Inv (start p)
  unfolding create
  start-Inv p h = ground arith

  caller-Inv : (s : System A) (fn : A) → Inv s → Inv (submits s fn)
  unfolding submits submit
  caller-Inv s fn v =
      ground (arith, pool-submit s.pool drain, append_assoc s.started s.queue.pending (fn ∷ []))

  pub length-around :
      (xs ys : List (Option A)) (o : Option A) → length (xs ++ (o ∷ ys)) ≡ length xs + 1 + length ys
  length-around xs ys o = omega (arith, length-append xs (o ∷ ys))

  next-fifo :
      (a q acc : List A) (x : A) (r : List A) → a ++ q ≡ acc → q ≡ x ∷ r → (a ++ x ∷ []) ++ r ≡ acc
  next-fifo a q acc x r h e = append_assoc a (x ∷ []) r ∙ ap (λ l. a ++ l) (sym e) ∙ h

  drain_once-call :
      (p q : SerialQueue A) (fn : A)
      → drain_once p ≡ call fn q
      → (p.pending ≡ fn ∷ q.pending) × (q.draining ≡ p.draining)
  unfolding drain_once
  drain_once-call p q fn h = ground arith

  drain_once-return :
      (p q : SerialQueue A)
      → drain_once p ≡ return q
      → (p.pending ≡ []) × (q.pending ≡ []) × (q.draining ≡ false)
  unfolding drain_once
  drain_once-return p q h = ground arith

  pub Step-Inv : {s t : System A} → Step s t → Inv s → Inv t
  unfolding shutdown
  Step-Inv {s} (caller fn) v = caller-Inv s fn v
  Step-Inv {s} (foreign n) v = ground (arith, pool-submit s.pool (other n))
  Step-Inv {s} stop v = ground arith
  Step-Inv {s} (take_drain p w) v = ground (arith, pool-worker s.pool p drain w)
  Step-Inv {s} (take_other p n w) v = ground (arith, pool-worker s.pool p (other n) w)
  Step-Inv {s} (next_callback xs ys fn q e d) v = ground (
    arith,
    drain_once-call s.queue q fn d,
    length-around xs ys none,
    length-around xs ys (some fn),
    next-fifo s.started s.queue.pending s.submitted fn q.pending,
  )
  Step-Inv {s} (end_drain xs ys q e d) v =
      ground (arith, drain_once-return s.queue q d, length-around xs ys none, length-append xs ys)
  Step-Inv {s} (callback_done xs ys fn e) v =
      ground (arith, length-around xs ys none, length-around xs ys (some fn))

  Reach-Inv : {s t : System A} → Reach s t → Inv s → Inv t
  Reach-Inv here v = v
  Reach-Inv (next r st) v = Step-Inv st (Reach-Inv r v)

  -- Whatever the threads do, at most one of them is inside the drain loop of a queue, so at most one
  -- callback of the queue runs at a time, and the callbacks begun are an initial part of those
  -- submitted, in the order of submission: what is missing is exactly what is pending.
  pub one_at_a_time_in_order :
      (p : ThreadPool Job) (s : System A)
      → waiting p.queue ≡ 0
      → Reach (start p) s
      → (length s.active ≤ 1) × (s.started ++ s.queue.pending ≡ s.submitted)
  one_at_a_time_in_order p s h r = let v = Reach-Inv r (start-Inv p h) in (omega arith, v.fifo)

  -- No wake-up is lost: as long as the pool takes jobs, a callback that is pending has a drain loop
  -- in the pool's queue or on a thread, and when there is none every callback submitted has begun.
  pub no_lost_callback :
      (p : ThreadPool Job) (s : System A)
      → waiting p.queue ≡ 0
      → Reach (start p) s
      → IsOpen s.pool
      → (s.queue.pending ≢ [] → drains s ≡ 1) × (drains s ≡ 0 → s.started ≡ s.submitted)
  no_lost_callback p s h r o = (
    λ n. ground (arith, v.settled, v.alive),
    λ z. ground (arith, v.alive, v.settled, v.fifo, append-nil s.started),
  )
    where
      v : Inv s
      v = Reach-Inv r (start-Inv p h)
