-- ===== src/EventLoop/Stopping.antt =====
-- No wake-up of include/socketpp/event/loop.hpp is lost between the test of the loop and `poll`.
use socketpp.Base.{
  ℕ, suc, ◌+◌, ◌<◌, ◌≡◌, ◌≢◌, refl, ◌⊎◌, inl, inr, Bool, true, false, List, [], ◌∷◌, ◌++◌, arith,
}
use socketpp.EventLoop.{EventLoop, active, post, stop, swap, clear_drained, enter_run, leave_run}
use socketpp.EventLoop.System.{
  Job, stop_loop, work, Phase, before, testing, polling, done, draining, System, start, effect,
  Step, poster, stopper, enter, go_on, stopped, swaps, executes, drained, woken, io_event,
  poll_fails,
}
use socketpp.EventLoop.Posts.{Inv, swap-queues, clear-queues, effect-queues}

abbrev pub stops_in {ℓ} : {A : Type ℓ} → List (Job A) → ℕ
stops_in [] = 0
stops_in (stop_loop ∷ js) = 1 + stops_in js
stops_in (work a ∷ js) = stops_in js

module _ {ℓ} {A : Type ℓ} where
  pub stops_in-append : (xs ys : List (Job A)) → stops_in (xs ++ ys) ≡ stops_in xs + stops_in ys
  stops_in-append [] ys = omega arith
  stops_in-append (stop_loop ∷ xs) ys = omega (arith, stops_in-append xs ys)
  stops_in-append (work a ∷ xs) ys = stops_in-append xs ys

  -- Between the test of the `while` and the return of `poll`.
  abbrev pub in_round : Phase A → Bool
  in_round before = false
  in_round testing = false
  in_round done = false
  in_round _ = true

  -- Past the swap of the round.
  abbrev pub past_swap : Phase A → Bool
  past_swap polling = true
  past_swap (draining ran rest) = true
  past_swap _ = false

  -- A request to stop, or a post, that comes during a round leaves a wake-up for `poll`.
  pub record Signals (s : System A) : Type ℓ where
    pub stop_wakes : in_round s.phase ≡ true → s.loop.stop_requested ≡ true → 0 < s.loop.wakes
    pub post_wakes : past_swap s.phase ≡ true → active s.loop ≢ [] → 0 < s.loop.wakes

  pub post-wakes : (l : EventLoop (Job A)) (j : Job A) → (post l j).wakes ≡ suc l.wakes
  unfolding post
  post-wakes l j = ground arith

  pub post-stop_requested :
      (l : EventLoop (Job A)) (j : Job A) → (post l j).stop_requested ≡ l.stop_requested
  unfolding post
  post-stop_requested l j = ground arith

  pub effect-wakes :
      (j : Job A) (l : EventLoop (Job A))
      → ((effect j l).wakes ≡ suc l.wakes)
        ⊎ (((effect j l).wakes ≡ l.wakes) × ((effect j l).stop_requested ≡ l.stop_requested))
  unfolding stop
  effect-wakes stop_loop l = inl refl
  effect-wakes (work a) l = inr (refl, refl)

  pub swap-wakes :
      (l : EventLoop (Job A))
      → ((swap l).wakes ≡ l.wakes) × ((swap l).stop_requested ≡ l.stop_requested)
  unfolding swap
  swap-wakes l = (refl, refl)

  pub clear-wakes :
      (l : EventLoop (Job A))
      → ((clear_drained l).wakes ≡ l.wakes) × ((clear_drained l).stop_requested ≡ l.stop_requested)
  unfolding clear_drained
  clear-wakes l = ground arith

  pub Step-Signals : {s t : System A} → Step s t → Inv s → Signals s → Signals t
  unfolding stop enter_run leave_run
  Step-Signals {s} (poster j) i v = record {
    stop_wakes = λ _ _. omega (arith, post-wakes s.loop j);
    post_wakes = λ _ _. omega (arith, post-wakes s.loop j);
  }
  Step-Signals {s} stopper i v = record {
    stop_wakes = λ _ _. omega arith;
    post_wakes = λ _ _. omega arith;
  }
  Step-Signals {s} (enter e) i v = ground arith
  Step-Signals {s} (go_on e h) i v = ground arith
  Step-Signals {s} (stopped e h) i v = ground arith
  Step-Signals {s} (swaps e) i v = ground (arith, i.buffer, swap-queues s.loop, swap-wakes s.loop)
  Step-Signals {s} (executes ran rest j e) i v =
      ground (arith, effect-wakes j s.loop, effect-queues j s.loop)
  Step-Signals {s} (drained ran e) i v = ground (arith, clear-queues s.loop, clear-wakes s.loop)
  Step-Signals {s} (woken e h) i v = ground arith
  Step-Signals {s} (io_event w e h) i v = ground arith
  Step-Signals {s} (poll_fails e) i v = ground arith

  pub start-Signals : Signals start
  start-Signals = record { stop_wakes = λ e _. cc; post_wakes = λ e _. cc }
