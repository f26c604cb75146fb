-- ===== src/EventLoop/Ending.antt =====
-- How the loop of include/socketpp/event/loop.hpp ends once a stop is on its way.
use socketpp.Base.{
  ◌+◌, ◌<◌, ◌≡◌, ◌≢◌, ◌∙◌, refl, ap, ◌⊎◌, inl, inr, Bool, true, false, List, [], ◌∷◌, ◌++◌, arith,
  Bool-cases,
}
use socketpp.EventLoop.{active, drain_queue, stop, swap, enter_run, leave_run}
use socketpp.EventLoop.System.{
  Job, stop_loop, work, Phase, before, testing, swapping, polling, done, draining, System, start,
  posts, Step, poster, stopper, enter, go_on, stopped, swaps, executes, drained, woken, io_event,
  poll_fails, Reach, here, next,
}
use socketpp.EventLoop.Posts.{
  Inv, Step-Inv, start-Inv, rest_of, active-post, swap-queues, clear-queues,
}
use socketpp.EventLoop.Stopping.{
  stops_in, stops_in-append, Signals, Step-Signals, start-Signals, swap-wakes, clear-wakes,
  post-stop_requested,
}

module _ {ℓ} {A : Type ℓ} where
  pub record Sound (s : System A) : Type ℓ where
    pub inv : Inv s
    pub signals : Signals s

  pub Step-Sound : {s t : System A} → Step s t → Sound s → Sound t
  Step-Sound st v = record { inv = Step-Inv st v.inv; signals = Step-Signals st v.inv v.signals }

  pub Reach-Sound : {s : System A} → Reach start s → Sound s
  Reach-Sound here = record { inv = start-Inv; signals = start-Signals }
  Reach-Sound (next r st) = Step-Sound st (Reach-Sound r)

  -- A stop is on its way: its callback is queued, or the flag is set and `run` will not reset it.
  pub data Condemned (s : System A) : Type ℓ where
    queued : 0 < stops_in (rest_of s.phase) + stops_in (active s.loop) → Condemned s
    flagged : s.loop.stop_requested ≡ true → s.phase ≢ before → Condemned s
    over : s.phase ≡ done → Condemned s

  Step-done : {s t : System A} → Step s t → s.phase ≡ done → t.phase ≡ done
  Step-done (poster j) h = h
  Step-done stopper h = h
  Step-done (enter e) h = cc
  Step-done (go_on e f) h = cc
  Step-done (stopped e f) h = refl
  Step-done (swaps e) h = cc
  Step-done (executes ran rest j e) h = cc
  Step-done (drained ran e) h = cc
  Step-done (woken e f) h = cc
  Step-done (io_event w e f) h = cc
  Step-done (poll_fails e) h = refl

  pub posts-keep :
      (s : System A) (j : Job A)
      → ((posts s j).loop.stop_requested ≡ s.loop.stop_requested)
        × (stops_in (active (posts s j).loop) ≡ stops_in (active s.loop) + stops_in (j ∷ []))
  posts-keep s j = (
    post-stop_requested s.loop j,
    ap stops_in (active-post s.loop j) ∙ stops_in-append (active s.loop) (j ∷ []),
  )

  pub Step-Condemned : {s t : System A} → Step s t → Inv s → Condemned s → Condemned t
  unfolding stop enter_run leave_run
  Step-Condemned {s} st i (over e) = over (Step-done st e)
  Step-Condemned {s} (poster j) i (queued h) = queued (omega (arith, (posts-keep s j).1))
  Step-Condemned {s} (poster j) i (flagged h n) = flagged ((posts-keep s j).0 ∙ h) n
  Step-Condemned {s} stopper i (queued h) = queued h
  Step-Condemned {s} stopper i (flagged h n) = flagged refl n
  Step-Condemned {s} (enter e) i (queued h) = queued (ground arith)
  Step-Condemned {s} (enter e) i (flagged h n) = absurd (n e)
  Step-Condemned {s} (go_on e f) i (queued h) = queued (ground arith)
  Step-Condemned {s} (go_on e f) i (flagged h n) = flagged h (λ p. cc)
  Step-Condemned {s} (stopped e f) i _ = over refl
  Step-Condemned {s} (swaps e) i (queued h) = queued (ground (arith, swap-queues s.loop))
  Step-Condemned {s} (swaps e) i (flagged h n) = flagged ((swap-wakes s.loop).1 ∙ h) (λ p. cc)
  Step-Condemned {s} (executes ran rest stop_loop e) i _ = flagged refl (λ p. cc)
  Step-Condemned {s} (executes ran rest (work a) e) i (queued h) = queued (ground arith)
  Step-Condemned {s} (executes ran rest (work a) e) i (flagged h n) = flagged h (λ p. cc)
  Step-Condemned {s} (drained ran e) i (queued h) = queued (ground (arith, clear-queues s.loop))
  Step-Condemned {s} (drained ran e) i (flagged h n) =
      flagged ((clear-wakes s.loop).1 ∙ h) (λ p. cc)
  Step-Condemned {s} (woken e h) i (queued q) = queued (ground arith)
  Step-Condemned {s} (woken e h) i (flagged f n) = flagged f (λ p. cc)
  Step-Condemned {s} (io_event w e h) i (queued q) = queued (ground arith)
  Step-Condemned {s} (io_event w e h) i (flagged f n) = flagged f (λ p. cc)
  Step-Condemned {s} (poll_fails e) i _ = over refl

  -- The steps that the loop's thread takes by itself: no other thread's call, no event of a
  -- descriptor and no failure of `poll`.
  abbrev pub is_own : {s t : System A} → Step s t → Bool
  is_own (poster j) = false
  is_own stopper = false
  is_own (io_event w e f) = false
  is_own (poll_fails e) = false
  is_own _ = true

  -- A run of such steps only.
  pub data Runs : System A → System A → Type ℓ where
    rests : {s : System A} → Runs s s
    goes : {s t u : System A} (st : Step s t) → is_own st ≡ true → Runs t u → Runs s u

  abbrev pub Terminates : System A → Type ℓ
  Terminates s = (t : System A) × Runs s t × (t.phase ≡ done)

  via : {s t : System A} (st : Step s t) → is_own st ≡ true → Terminates t → Terminates s
  via st o (u, r, e) = (u, goes st o r, e)

  ends_testing_requested :
      (s : System A) → s.phase ≡ testing → s.loop.stop_requested ≡ true → Terminates s
  ends_testing_requested s e f = via (stopped e f) refl (_, rests, refl)

  ends_polling_requested :
      (s : System A) → Sound s → s.phase ≡ polling → s.loop.stop_requested ≡ true → Terminates s
  ends_polling_requested s v e f = via (woken e wake) refl (ends_testing_requested _ refl f)
    where
      wake : 0 < s.loop.wakes
      wake = v.signals.stop_wakes (rw e) f

  -- The buffer under the loop holds the stop, or the flag is set.
  ends_draining :
      (rest ran : List (Job A)) (s : System A)
      → Sound s
      → s.phase ≡ draining ran rest
      → (0 < stops_in rest) ⊎ (s.loop.stop_requested ≡ true)
      → Terminates s
  unfolding stop
  ends_draining [] ran s v e (inl h) = elim h [ ]
  ends_draining [] ran s v e (inr f) =
      let st : Step s _ = drained ran e in
      via st refl (ends_polling_requested _ (Step-Sound st v) refl ((clear-wakes s.loop).1 ∙ f))
  ends_draining (stop_loop ∷ rest) ran s v e h =
      let st : Step s _ = executes ran rest stop_loop e in
      via st refl (ends_draining rest (ran ++ stop_loop ∷ []) _ (Step-Sound st v) refl (inr refl))
  ends_draining (work a ∷ rest) ran s v e h =
      let st : Step s _ = executes ran rest (work a) e in
      via st refl (ends_draining rest (ran ++ work a ∷ []) _ (Step-Sound st v) refl h)

  ends_swapping :
      (s : System A)
      → Sound s
      → s.phase ≡ swapping
      → (0 < stops_in (active s.loop)) ⊎ (s.loop.stop_requested ≡ true)
      → Terminates s
  ends_swapping s v e h =
      let st : Step s _ = swaps e in
      via st refl (
        ends_draining (drain_queue (swap s.loop)) [] _ (Step-Sound st v) refl
          (ground (arith, swap-queues s.loop, swap-wakes s.loop)))

  ends_testing :
      (s : System A)
      → Sound s
      → s.phase ≡ testing
      → (0 < stops_in (active s.loop)) ⊎ (s.loop.stop_requested ≡ true)
      → Terminates s
  ends_testing s v e h = elim (Bool-cases s.loop.stop_requested) [
    | inl f ↦ ends_testing_requested s e f
    | inr f ↦
        let st : Step s _ = go_on e f in via st refl (ends_swapping _ (Step-Sound st v) refl h)
  ]

  active_of_stops : (js : List (Job A)) → 0 < stops_in js → js ≢ []
  active_of_stops js h e = omega (arith, ap stops_in e)

  pub ends_polling :
      (s : System A)
      → Sound s
      → s.phase ≡ polling
      → (0 < stops_in (active s.loop)) ⊎ (s.loop.stop_requested ≡ true)
      → (0 < s.loop.wakes) × Terminates s
  ends_polling s v e h =
      let st : Step s _ = woken e wake in
      (wake, via st refl (ends_testing _ (Step-Sound st v) refl h))
    where
      wake : 0 < s.loop.wakes
      wake = elim h [
        | inl q ↦ v.signals.post_wakes (rw e) (active_of_stops _ q)
        | inr f ↦ v.signals.stop_wakes (rw e) f
      ]

  -- The same where the stop may also have been posted after the swap.
  ends_draining_later :
      (rest ran : List (Job A)) (s : System A)
      → Sound s
      → s.phase ≡ draining ran rest
      → (0 < stops_in rest + stops_in (active s.loop)) ⊎ (s.loop.stop_requested ≡ true)
      → Terminates s
  unfolding stop
  ends_draining_later [] ran s v e h =
      let st : Step s _ = drained ran e in
      via st refl
        (ends_polling _ (Step-Sound st v) refl
          (ground (arith, clear-wakes s.loop, clear-queues s.loop))).1
  ends_draining_later (stop_loop ∷ rest) ran s v e h =
      let st : Step s _ = executes ran rest stop_loop e in
      via st refl
        (ends_draining_later rest (ran ++ stop_loop ∷ []) _ (Step-Sound st v) refl (inr refl))
  ends_draining_later (work a ∷ rest) ran s v e h =
      let st : Step s _ = executes ran rest (work a) e in
      via st refl (ends_draining_later rest (ran ++ work a ∷ []) _ (Step-Sound st v) refl h)

  -- What `Condemned` leaves once the loop runs.
  pub stop_cases :
      (s : System A)
      → Condemned s
      → s.phase ≢ done
      → (0 < stops_in (rest_of s.phase) + stops_in (active s.loop))
        ⊎ ((s.loop.stop_requested ≡ true) × (s.phase ≢ before))
  stop_cases s (queued h) n = inl h
  stop_cases s (flagged f b) n = inr (f, b)
  stop_cases s (over e) n = absurd (n e)

  pub Condemned-Terminates : (s : System A) → Sound s → Condemned s → Terminates s
  unfolding enter_run
  Condemned-Terminates s v d = go s.phase refl
    where
      go : (p : Phase A) → s.phase ≡ p → Terminates s
      go before e =
          let st : Step s _ = enter e in
          via st refl (ends_testing _ (Step-Sound st v) refl (inl (ground (arith, stop_cases s d))))
      go testing e = ends_testing s v e (ground (arith, stop_cases s d))
      go swapping e = ends_swapping s v e (ground (arith, stop_cases s d))
      go polling e = (ends_polling s v e (ground (arith, stop_cases s d))).1
      go done e = (s, rests, e)
      go (draining ran rest) e = ends_draining_later rest ran s v e (ground (arith, stop_cases s d))
