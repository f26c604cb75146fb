-- ===== src/Epoll/Handles.antt =====
-- timer_handle of include/socketpp/event/timer.hpp, with `defer` and `repeat` of
-- include/socketpp/event/loop.hpp, on the dispatcher of src/event/epoll.cpp.
use socketpp.Base.{
  ℕ, ◌+◌, ◌*◌, ◌<◌, ◌≡◌, ◌↔◌, refl, inl, inr, Bool, true, false, ==_iff, Option, none, some, List,
  if◌then◌else◌, arith, nat_eq, Bool-cases,
}
use socketpp.Base.Map.{lookup, lookup-erase}
use socketpp.Epoll.{
  EpollEvents, TimerInfo, timer_spec, Dispatcher, schedule_timer, cancel_timer, finish_timer,
}
use socketpp.Epoll.System.{in_timer, broken, System, acts, breaks, cancels, Reach, here, next}

-- `has_cancel`: `cancel_fn_` is set; it calls `cancel_timer` of the dispatcher.
pub record TimerHandle : Type 0 where
  pub id : ℕ
  pub has_cancel : Bool

abbrev pub empty_handle : TimerHandle
empty_handle = record { id = 0; has_cancel = false }

-- `defer` and `repeat` of the loop; the arguments are those of `schedule_timer`.
unfoldable pub schedule : Dispatcher → Option ℕ → Bool → ℕ → Bool → ℕ → Dispatcher × TimerHandle
schedule d tfd ok ms r cb =
    let (d', tid) = schedule_timer d tfd ok ms r cb in (d', record { id = tid; has_cancel = true })

unfoldable pub cancel : TimerHandle → Dispatcher → TimerHandle × Dispatcher
cancel h d = if h.has_cancel then (empty_handle, cancel_timer d h.id) else (h, d)

-- The move constructor: the new handle, and what is left of the other.
unfoldable pub move : TimerHandle → TimerHandle × TimerHandle
move other = (other, record other { id = 0; has_cancel = false })

-- The move assignment between two handles.
unfoldable pub assign :
    TimerHandle → TimerHandle → Dispatcher → TimerHandle × TimerHandle × Dispatcher
unfolding cancel move
assign h other d = let (h', d') = cancel h d in let (moved, left) = move other in (moved, left, d')

unfoldable pub release : TimerHandle → TimerHandle × ℕ
release h = (empty_handle, h.id)

unfoldable pub destroy : TimerHandle → Dispatcher → Dispatcher
unfolding cancel
destroy h d = (cancel h d).1

-- A timer is owned by one handle at a time: what a move leaves cancels nothing when it is destroyed,
-- an assignment cancels the timer that the target held and no other, a released handle gives up its
-- id and cancels nothing, and cancelling twice is cancelling once.
pub timer_has_one_owner :
    (h other : TimerHandle) (d : Dispatcher)
    → (destroy (move h).1 (destroy (move h).0 d) ≡ destroy h d)
      × ((assign h other d).0 ≡ other)
      × (destroy (assign h other d).1 (assign h other d).2 ≡ destroy h d)
      × ((release h).1 ≡ h.id)
      × (destroy (release h).0 d ≡ d)
      × (cancel (cancel h d).0 (cancel h d).1 ≡ cancel h d)
unfolding destroy cancel move assign release
timer_has_one_owner h other d = elim (Bool-cases h.has_cancel) [
  | inl y ↦ rw y (refl, refl, refl, refl, refl, refl)
  | inr n ↦ rw n (refl, refl, refl, refl, refl, refl)
]

-- What is handed to `timerfd_settime` is the timeout, to the nanosecond, with its fraction of a
-- second in range; the interval is the same for a repeating timer, and zero for another. The time to
-- the first expiration is zero, which disarms a timer descriptor, exactly for the timeout zero.
pub timer_spec_exact :
    (ms : ℕ) (r : Bool)
    → let s = timer_spec ms r in
      (s.value_sec * 1000000000 + s.value_nsec ≡ ms * 1000000)
      × (s.value_nsec < 1000000000)
      × ((r ≡ true) → (s.interval_sec ≡ s.value_sec) × (s.interval_nsec ≡ s.value_nsec))
      × ((r ≡ false) → (s.interval_sec ≡ 0) × (s.interval_nsec ≡ 0))
      × (((s.value_sec ≡ 0) × (s.value_nsec ≡ 0)) ↔ (ms ≡ 0))
unfolding timer_spec
timer_spec_exact ms r = (
  omega arith,
  omega arith,
  λ h. ground (arith, h),
  λ h. ground (arith, h),
  (λ h. omega arith, λ h. omega arith),
)

-- A callback that cancels its own timer breaks the dispatcher: `poll` goes on to use the entry that
-- is gone.
pub self_cancel_breaks :
    (s : System) (fd : ℕ) (info : TimerInfo) (es : List (ℕ × EpollEvents))
    → s.phase ≡ in_timer fd info es
    → lookup fd s.disp.timer_callbacks ≡ some info
    → (t : System) × Reach s t
      × (t.phase ≡ broken info)
      × (finish_timer (cancel_timer s.disp fd) fd info ≡ none)
unfolding finish_timer cancel_timer
self_cancel_breaks s fd info es p h =
    let gone : finish_timer (cancel_timer s.disp fd) fd info ≡ none =
      ground (arith, h, lookup-erase fd fd s.disp.timer_callbacks, ==_iff fd fd) in
    (
      _,
      next (next here (acts (cancel_timer s.disp fd) (rw p refl) (cancels fd)))
          (breaks fd info es p gone),
      refl,
      gone,
    )
