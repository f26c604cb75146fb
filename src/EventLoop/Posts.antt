-- ===== src/EventLoop/Posts.antt =====
-- The two buffers of include/socketpp/event/loop.hpp behave as one queue.
use socketpp.Base.{
  ◌≡◌, ◌∙◌, refl, sym, ap, Bool, true, false, List, [], ◌∷◌, ◌++◌, append_assoc, append-nil, arith,
}
use socketpp.EventLoop.{
  EventLoop, create, active, drain_queue, post, stop, swap, clear_drained, enter_run, leave_run,
}
use socketpp.EventLoop.System.{
  Job, stop_loop, work, Phase, draining, System, start, effect, Step, poster, stopper, enter, go_on,
  stopped, swaps, executes, drained, woken, io_event, poll_fails, Reach, here, next,
}

module _ {ℓ} {A : Type ℓ} where
  abbrev pub rest_of : Phase A → List (Job A)
  rest_of (draining ran rest) = rest
  rest_of _ = []

  -- What the buffer under the loop holds in a phase.
  abbrev pub iterated : Phase A → List (Job A)
  iterated (draining ran rest) = ran ++ rest
  iterated _ = []

  pub record Inv (s : System A) : Type ℓ where
    pub fifo : s.executed ++ (rest_of s.phase ++ active s.loop) ≡ s.posted
    pub buffer : drain_queue s.loop ≡ iterated s.phase

  pub active-post : (l : EventLoop (Job A)) (j : Job A) → active (post l j) ≡ active l ++ j ∷ []
  unfolding post
  active-post l j = ground arith

  drain_queue-post : (l : EventLoop (Job A)) (j : Job A) → drain_queue (post l j) ≡ drain_queue l
  unfolding post
  drain_queue-post l j = ground arith

  pub swap-queues :
      (l : EventLoop (Job A))
      → (active (swap l) ≡ drain_queue l) × (drain_queue (swap l) ≡ active l)
  unfolding swap
  swap-queues l = go l.active_is_a
    where
      go :
          (b : Bool)
          → (active (swap (record l { active_is_a = b }))
              ≡ drain_queue (record l { active_is_a = b }))
            × (drain_queue (swap (record l { active_is_a = b }))
                ≡ active (record l { active_is_a = b }))
      go true = (refl, refl)
      go false = (refl, refl)

  pub clear-queues :
      (l : EventLoop (Job A))
      → (active (clear_drained l) ≡ active l) × (drain_queue (clear_drained l) ≡ [])
  unfolding clear_drained
  clear-queues l = ground arith

  pub effect-queues :
      (j : Job A) (l : EventLoop (Job A))
      → (active (effect j l) ≡ active l) × (drain_queue (effect j l) ≡ drain_queue l)
  unfolding stop
  effect-queues stop_loop l = (refl, refl)
  effect-queues (work a) l = (refl, refl)

  appended :
      (e r a p : List (Job A)) (j : Job A)
      → e ++ (r ++ a) ≡ p
      → e ++ (r ++ (a ++ j ∷ [])) ≡ p ++ j ∷ []
  appended e r a p j h =
      ap (λ l. e ++ l) (sym (append_assoc r a (j ∷ [])))
      ∙ sym (append_assoc e (r ++ a) (j ∷ []))
      ∙ ap (λ l. l ++ j ∷ []) h

  pub start-Inv : Inv start
  unfolding create
  start-Inv = record { fifo = refl; buffer = refl }

  pub Step-Inv : {s t : System A} → Step s t → Inv s → Inv t
  unfolding stop enter_run leave_run
  Step-Inv {s} (poster j) v = record {
    fifo = rw active-post (appended s.executed (rest_of s.phase) (active s.loop) s.posted j v.fifo);
    buffer = drain_queue-post s.loop j ∙ v.buffer;
  }
  Step-Inv {s} stopper v = record { fifo = v.fifo; buffer = v.buffer }
  Step-Inv {s} (enter e) v = ground arith
  Step-Inv {s} (go_on e h) v = ground arith
  Step-Inv {s} (stopped e h) v = ground arith
  Step-Inv {s} (swaps e) v = ground (arith, swap-queues s.loop, append-nil (active s.loop))
  Step-Inv {s} (executes ran rest j e) v = ground (
    arith,
    effect-queues j s.loop,
    append_assoc s.executed (j ∷ []) (rest ++ active s.loop),
    append_assoc ran (j ∷ []) rest,
  )
  Step-Inv {s} (drained ran e) v = ground (arith, clear-queues s.loop)
  Step-Inv {s} (woken e h) v = ground arith
  Step-Inv {s} (io_event w e h) v = ground arith
  Step-Inv {s} (poll_fails e) v = ground arith

  pub Reach-Inv : {s : System A} → Reach start s → Inv s
  Reach-Inv here = start-Inv
  Reach-Inv (next r st) = Step-Inv st (Reach-Inv r)

  -- In every interleaving, the two buffers hold one first-in first-out queue: the callbacks run, then
  -- those of the swapped buffer not yet run, then those of the active buffer, are the callbacks
  -- posted, in the order of `post`, each once. While the loop iterates over the swapped buffer, no
  -- post changes it, and it holds nothing in every other phase.
  pub posts_run_in_order :
      (s : System A)
      → Reach start s
      → (s.executed ++ (rest_of s.phase ++ active s.loop) ≡ s.posted)
        × (drain_queue s.loop ≡ iterated s.phase)
  posts_run_in_order s r = let v = Reach-Inv r in (v.fifo, v.buffer)
