-- ===== src/EventLoop.antt =====
-- include/socketpp/event/loop.hpp: the post queue with its two buffers, and the loop.
pub mod System
pub mod Posts
pub mod Stopping
pub mod Ending
pub mod Destroy
mod Examples
use socketpp.Base.{ℕ, zero, suc, Bool, true, false, List, [], ◌∷◌, ◌++◌, if◌then◌else◌, not}

-- `active_is_a` is where `active_queue_` points; `drain_queue_` points at the other buffer.
-- `wakes` counts the calls of `dispatcher_->wake` that `poll` has not consumed.
pub record EventLoop {ℓ} (A : Type ℓ) : Type ℓ where
  pub queue_a : List A
  pub queue_b : List A
  pub active_is_a : Bool
  pub running : Bool
  pub stop_requested : Bool
  pub wakes : ℕ

module _ {ℓ} {A : Type ℓ} where
  unfoldable pub create : EventLoop A
  create = record {
    queue_a = [];
    queue_b = [];
    active_is_a = true;
    running = false;
    stop_requested = false;
    wakes = 0;
  }

  abbrev pub active : EventLoop A → List A
  active l = if l.active_is_a then l.queue_a else l.queue_b

  abbrev pub drain_queue : EventLoop A → List A
  drain_queue l = if l.active_is_a then l.queue_b else l.queue_a

  unfoldable pub post : EventLoop A → A → EventLoop A
  post l fn =
      if l.active_is_a
      then record l { queue_a = l.queue_a ++ fn ∷ []; wakes = suc l.wakes }
      else record l { queue_b = l.queue_b ++ fn ∷ []; wakes = suc l.wakes }

  unfoldable pub stop : EventLoop A → EventLoop A
  stop l = record l { stop_requested = true; wakes = suc l.wakes }

  -- The three parts of `drain_posts`: the swap, the loop over the buffer, the clear.
  unfoldable pub swap : EventLoop A → EventLoop A
  swap l = record l { active_is_a = not l.active_is_a }

  unfoldable pub clear_drained : EventLoop A → EventLoop A
  clear_drained l = if l.active_is_a then record l { queue_b = [] } else record l { queue_a = [] }

  -- Beginning of `run`.
  unfoldable pub enter_run : EventLoop A → EventLoop A
  enter_run l = record l { running = true; stop_requested = false }

  unfoldable pub leave_run : EventLoop A → EventLoop A
  leave_run l = record l { running = false }
