-- ===== src/EventLoop/Examples.antt =====
-- The theorems on include/socketpp/event/loop.hpp at concrete runs.
use socketpp.Base.{ℕ, ◌<◌, ◌≡◌, refl, [], ◌∷◌, ◌++◌}
use socketpp.EventLoop.{create, active, drain_queue, post, swap, enter_run}
use socketpp.EventLoop.System.{
  System, work, polling, done, start, poster, enter, go_on, swaps, executes, Reach, here, next,
}
use socketpp.EventLoop.Posts.{rest_of, iterated, posts_run_in_order}
use socketpp.EventLoop.Ending.{Runs}
use socketpp.EventLoop.Destroy.{destroys, destroy_ends_the_loop}

-- Two callbacks are posted before the swap and one while the first of them runs.
abbrev round : (s : System ℕ) × Reach start s
unfolding create post swap enter_run
round = (
  _,
  next
      (next
        (next
          (next (next (next (next here (poster (work 1))) (poster (work 2))) (enter refl))
            (go_on refl refl))
          (swaps refl))
        (executes [] (work 2 ∷ []) (work 1) refl))
      (poster (work 3)),
)

posts_run_in_order_example :
    (round.0.executed ++ (rest_of round.0.phase ++ active round.0.loop) ≡ round.0.posted)
    × (drain_queue round.0.loop ≡ iterated round.0.phase)
posts_run_in_order_example = posts_run_in_order round.0 round.1

destroy_ends_the_loop_example :
    ((t : System ℕ) × Runs (destroys start) t × (t.phase ≡ done))
    × ((destroys {A = ℕ} start).phase ≡ polling → 0 < (destroys {A = ℕ} start).loop.wakes)
destroy_ends_the_loop_example = destroy_ends_the_loop start (destroys start) here here
