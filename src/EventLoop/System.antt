-- ===== src/EventLoop/System.antt =====
-- The loop's thread inside `run` (include/socketpp/event/loop.hpp) among threads that post and stop.
use socketpp.Base.{ℕ, ◌≤◌, ◌<◌, ◌≡◌, true, false, List, [], ◌∷◌, ◌++◌}
use socketpp.EventLoop.{
  EventLoop, create, drain_queue, post, stop, swap, clear_drained, enter_run, leave_run,
}

-- What is posted: the callback of `do_destroy` that calls `stop`, or another.
pub data Job {ℓ} (A : Type ℓ) : Type ℓ where
  stop_loop : Job A
  work : A → Job A

-- Where the thread stands: before `run`, at the test of its `while`, before the swap of
-- `drain_posts`, in its loop over a buffer of which it has run `ran` and not `rest`, in `poll`, or
-- after `run`.
pub data Phase {ℓ} (A : Type ℓ) : Type ℓ where
  before testing swapping polling done : Phase A
  draining : (ran rest : List (Job A)) → Phase A

-- `posted` and `executed` record the callbacks posted and run, oldest first.
pub record System {ℓ} (A : Type ℓ) : Type ℓ where
  pub loop : EventLoop (Job A)
  pub phase : Phase A
  pub posted : List (Job A)
  pub executed : List (Job A)

module _ {ℓ} {A : Type ℓ} where
  abbrev pub start : System A
  start = record { loop = create; phase = before; posted = []; executed = [] }

  -- What a callback itself does to the flags of the loop; what it posts is a step `poster`.
  abbrev pub effect : Job A → EventLoop (Job A) → EventLoop (Job A)
  effect stop_loop l = stop l
  effect (work a) l = l

  abbrev pub posts : System A → Job A → System A
  posts s j = record s { loop = post s.loop j; posted = s.posted ++ j ∷ [] }

  pub data Step (s : System A) : System A → Type ℓ where
    poster : (j : Job A) → Step s (posts s j)
    stopper : Step s (record s { loop = stop s.loop })
    enter : s.phase ≡ before → Step s (record s { loop = enter_run s.loop; phase = testing })
    go_on :
        s.phase ≡ testing → s.loop.stop_requested ≡ false → Step s (record s { phase = swapping })
    stopped :
        s.phase ≡ testing
        → s.loop.stop_requested ≡ true
        → Step s (record s { loop = leave_run s.loop; phase = done })
    swaps :
        s.phase ≡ swapping
        → Step s (record s { loop = swap s.loop; phase = draining [] (drain_queue (swap s.loop)) })
    executes :
        (ran rest : List (Job A)) (j : Job A)
        → s.phase ≡ draining ran (j ∷ rest)
        → Step s (record s {
          loop = effect j s.loop;
          phase = draining (ran ++ j ∷ []) rest;
          executed = s.executed ++ j ∷ [];
        })
    drained :
        (ran : List (Job A))
        → s.phase ≡ draining ran []
        → Step s (record s { loop = clear_drained s.loop; phase = polling })
    woken :
        s.phase ≡ polling
        → 0 < s.loop.wakes
        → Step s (record s { loop = record (s.loop) { wakes = 0 }; phase = testing })
    io_event :
        (w : ℕ)
        → s.phase ≡ polling
        → w ≤ s.loop.wakes
        → Step s (record s { loop = record (s.loop) { wakes = w }; phase = testing })
    poll_fails : s.phase ≡ polling → Step s (record s { loop = leave_run s.loop; phase = done })

  pub data Reach (s : System A) : System A → Type ℓ where
    here : Reach s s
    next : {t u : System A} → Reach s t → Step t u → Reach s u

  pub Reach-trans : {s t u : System A} → Reach s t → Reach t u → Reach s u
  Reach-trans r here = r
  Reach-trans r (next q st) = next (Reach-trans r q) st
