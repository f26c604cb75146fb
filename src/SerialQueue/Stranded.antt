-- ===== src/SerialQueue/Stranded.antt =====
-- The answer of `pool_->submit` is dropped (src/high/serial_queue.hpp:83): what follows when the
-- pool has been shut down.
use socketpp.Base.{◌≡◌, ◌∙◌, refl, true, none, some, length, ap, arith}
use socketpp.ThreadPool.{ThreadPool, run, worker, shutdown}
use socketpp.ThreadPool
use socketpp.SerialQueue.{drain, other, submit}
use socketpp.SerialQueue.System.{
  System, drains, submits, Step, caller, foreign, stop, take_drain, take_other, next_callback,
  end_drain, callback_done, Reach, here, next,
}
use socketpp.SerialQueue.Invariant.{pool-worker, length-around}

module _ {ℓ} {A : Type ℓ} where
  abbrev IsDead : System A → Type 0
  IsDead s = (s.pool.stopped ≡ true) × (drains s ≡ 0)

  submits-IsDead :
      (s : System A) (fn : A)
      → IsDead s
      → IsDead (submits s fn) × ((submits s fn).started ≡ s.started)
  unfolding submits submit ThreadPool.submit
  submits-IsDead s fn d = ground arith

  Step-IsDead : {s t : System A} → Step s t → IsDead s → IsDead t × (t.started ≡ s.started)
  unfolding shutdown ThreadPool.submit
  Step-IsDead {s} (caller fn) d = submits-IsDead s fn d
  Step-IsDead {s} (foreign n) d = ground arith
  Step-IsDead {s} stop d = ground arith
  Step-IsDead {s} (take_drain p w) d = absurd (omega (arith, pool-worker s.pool p drain w))
  Step-IsDead {s} (take_other p n w) d = ground (arith, pool-worker s.pool p (other n) w)
  Step-IsDead {s} (next_callback xs ys fn q e _) d =
      absurd (omega (arith, ap length e, length-around xs ys none))
  Step-IsDead {s} (end_drain xs ys q e _) d =
      absurd (omega (arith, ap length e, length-around xs ys none))
  Step-IsDead {s} (callback_done xs ys fn e) d =
      absurd (omega (arith, ap length e, length-around xs ys (some fn)))

  Reach-IsDead : {s t : System A} → IsDead s → Reach s t → IsDead t × (t.started ≡ s.started)
  Reach-IsDead d here = (d, refl)
  Reach-IsDead d (next r st) =
      let (d', e) = Reach-IsDead d r in let (d'', e') = Step-IsDead st d' in (d'', e' ∙ e)

  -- Once the pool is stopped and no drain loop of the queue waits or runs, a callback given to
  -- `submit` never begins: after any further steps of any threads the callbacks begun are those
  -- begun before.
  pub submit_after_shutdown_never_runs :
      (s t : System A) (fn : A)
      → s.pool.stopped ≡ true
      → drains s ≡ 0
      → Reach (submits s fn) t
      → t.started ≡ s.started
  submit_after_shutdown_never_runs s t fn h n r =
      let (d, e) = submits-IsDead s fn (h, n) in (Reach-IsDead d r).1 ∙ e
