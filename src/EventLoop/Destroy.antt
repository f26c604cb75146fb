-- ===== src/EventLoop/Destroy.antt =====
-- How `do_destroy` of src/high/dgram.cpp and src/high/stream.cpp ends the loop of
-- include/socketpp/event/loop.hpp: a stop that is posted, then a direct one.
use socketpp.Base.{◌<◌, ◌≡◌, ◌∙◌, refl, ap, false, [], arith}
use socketpp.EventLoop.{active, drain_queue, stop, swap, enter_run}
use socketpp.EventLoop.System.{
  stop_loop, before, testing, polling, draining, System, start, posts, Step, poster, stopper, enter,
  go_on, swaps, drained, woken, Reach, here, next, Reach-trans,
}
use socketpp.EventLoop.Posts.{Inv, Step-Inv, swap-queues, clear-queues}
use socketpp.EventLoop.Stopping.{swap-wakes, clear-wakes}
use socketpp.EventLoop.Ending.{
  Sound, Step-Sound, Reach-Sound, Condemned, queued, Step-Condemned, posts-keep, ends_polling,
  stop_cases, Condemned-Terminates, Terminates,
}

module _ {ℓ} {A : Type ℓ} where
  -- The calls `loop.post([this]() { loop.stop(); }); loop.stop();` of `do_destroy`.
  abbrev pub destroys : System A → System A
  destroys s = let s' = posts s stop_loop in record s' { loop = stop s'.loop }

  Reach-Condemned : {s t : System A} → Sound s → Condemned s → Reach s t → Sound t × Condemned t
  Reach-Condemned v d here = (v, d)
  Reach-Condemned v d (next r st) =
      let (v', d') = Reach-Condemned v d r in (Step-Sound st v', Step-Condemned st v'.inv d')

  -- Called at any moment, also before the loop's thread has entered `run`, `do_destroy` ends the
  -- loop: from every state that any interleaving reaches afterwards, the loop's thread can run on to
  -- the end of `run` by its own steps alone, with no call of another thread, no event of a
  -- descriptor and no failure of `poll`, and it never sleeps in `poll` without a wake-up.
  pub destroy_ends_the_loop :
      (s t : System A)
      → Reach start s
      → Reach (destroys s) t
      → Terminates t × (t.phase ≡ polling → 0 < t.loop.wakes)
  unfolding stop
  destroy_ends_the_loop s t r q = (
    Condemned-Terminates t vd.0 vd.1,
    λ e. (ends_polling t vd.0 e (ground (arith, stop_cases t vd.1))).0,
  )
    where
      posted : System A
      posted = posts s stop_loop

      sound : Sound (destroys s)
      sound = Step-Sound stopper (Step-Sound (poster stop_loop) (Reach-Sound r))

      vd : Sound t × Condemned t
      vd = Reach-Condemned sound (queued (omega (arith, (posts-keep s stop_loop).1))) q

  Reach-keeps-Inv : {s t : System A} → Reach s t → Inv s → Inv t
  Reach-keeps-Inv here v = v
  Reach-keeps-Inv (next r st) v = Step-Inv st (Reach-keeps-Inv r v)

  -- One round with nothing posted.
  empty_round :
      (s : System A)
      → Inv s
      → s.phase ≡ testing
      → s.loop.stop_requested ≡ false
      → active s.loop ≡ []
      → (t : System A) × Reach s t
        × (t.phase ≡ polling)
        × (t.loop.stop_requested ≡ false)
        × (t.loop.wakes ≡ s.loop.wakes)
        × (active t.loop ≡ [])
  empty_round s v e f n = (
    _,
    next (next (next here (go_on e f)) (swaps refl)) (drained [] (ap (draining []) swapped.1)),
    refl,
    ground (arith, clear-wakes (swap s.loop), swap-wakes s.loop),
    ground (arith, clear-wakes (swap s.loop), swap-wakes s.loop),
    (clear-queues (swap s.loop)).0 ∙ swapped.0,
  )
    where
      swapped : (active (swap s.loop) ≡ []) × (drain_queue (swap s.loop) ≡ [])
      swapped = ground (arith, swap-queues s.loop, v.buffer)

  -- A direct `stop` alone, before the loop's thread has entered `run`, is lost: with nothing posted
  -- the thread comes to sleep in `poll` with the flag reset and no wake-up left.
  pub stop_early_is_lost :
      (s : System A)
      → Reach start s
      → s.phase ≡ before
      → active s.loop ≡ []
      → (t : System A) × Reach (record s { loop = stop s.loop }) t
        × (t.phase ≡ polling)
        × (t.loop.stop_requested ≡ false)
        × (t.loop.wakes ≡ 0)
        × (active t.loop ≡ [])
  unfolding stop enter_run
  stop_early_is_lost s r e n =
      let (t, q, p, f, w, a) = empty_round _ (Step-Inv entered stopped_inv) refl refl n in
      let back : Step t _ = woken p (omega arith) in
      let (u, q', p', f', w', a') =
        empty_round _ (Step-Inv back (Reach-keeps-Inv q (Step-Inv entered stopped_inv))) refl f a in
      (u, Reach-trans (next here entered) (Reach-trans (next q back) q'), p', f', w', a')
    where
      stopped_inv : Inv (record s { loop = stop s.loop })
      stopped_inv = let st : Step s _ = stopper in Step-Inv st (Reach-Sound r).inv

      entered :
          Step
            (record s { loop = stop s.loop })
            (record s { loop = enter_run (stop s.loop); phase = testing })
      entered = enter e
