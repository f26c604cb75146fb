-- ===== src/Epoll/Examples.antt =====
-- The theorems on src/event/epoll.cpp and include/socketpp/event/timer.hpp at concrete runs.
use socketpp.Base.{
  ℕ, ◌≤◌, ◌≡◌, ◌≢◌, refl, Bool, true, false, none, some, [], ◌∷◌, arith, nat_eq, ltb,
}
use socketpp.Base.Map.{lookup, insert, erase}
use socketpp.Epoll.{only_in, TimerInfo, Dispatcher, schedule_timer, cancel_timer, finish_timer}
use socketpp.Epoll.System.{System, start, acts, polls, fires, ignores, schedules, Reach, here, next}
use socketpp.Epoll.Invariant.{IsSound}
use socketpp.Epoll.Once.{shots, count, timers_fire_once}
use socketpp.Epoll.Cancelled.{cancelled_timer_never_fires}
use socketpp.Epoll.Handles.{schedule, cancel}
use socketpp.Epoll.Stale.{fired_handle_cancels_other}

abbrev open_below_4 : ℕ → Bool
open_below_4 n = ltb n 4

-- The waker is descriptor 3; a timer of 1500 ms is scheduled on descriptor 4, and its event comes.
abbrev scheduled_run : (s : System) × Reach (start 3 open_below_4) s
unfolding schedule_timer insert lookup
scheduled_run = (_, next here (acts _ refl (schedules 4 true 1500 false 7 refl)))

abbrev timer_4 : TimerInfo
timer_4 = record { id = 4; callback = 7; repeating = false; node = 0 }

abbrev fired_run : (s : System) × Reach (start 3 open_below_4) s
unfolding schedule_timer insert lookup
fired_run = (
  _,
  next (next scheduled_run.1 (polls ((4, only_in) ∷ []) refl (omega arith)))
      (fires 4 only_in [] timer_4 refl (omega arith) refl),
)

timers_fire_once_example : ((n : ℕ) → shots n fired_run.0.fired ≤ 1) × IsSound fired_run.0.disp
timers_fire_once_example = timers_fire_once 3 open_below_4 fired_run.0 fired_run.1

-- The timer is cancelled while its event is on the way.
abbrev cancelled : System
cancelled = record (scheduled_run.0) { disp = cancel_timer scheduled_run.0.disp 4 }

abbrev late_event : (t : System) × Reach cancelled t
unfolding schedule_timer insert lookup cancel_timer erase
late_event = (
  _,
  next (next here (polls ((4, only_in) ∷ []) refl (omega arith)))
      (ignores 4 only_in [] refl (omega arith) refl refl),
)

cancelled_timer_never_fires_example : count 0 late_event.0.fired ≡ count 0 scheduled_run.0.fired
unfolding schedule_timer insert lookup cancel_timer erase
cancelled_timer_never_fires_example =
    cancelled_timer_never_fires 3 open_below_4 scheduled_run.0 late_event.0 4 timer_4
      scheduled_run.1 refl late_event.1

abbrev after_4 : Dispatcher
unfolding schedule_timer insert lookup erase cancel_timer
after_4 = cancel_timer fired_run.0.disp 4

-- The dispatcher before the timer on descriptor 4 is scheduled.
abbrev before_4 : Dispatcher
before_4 = (start 3 open_below_4).disp

fired_handle_cancels_other_example :
    let old = (schedule before_4 (some 4) true 1500 false 7).1 in
    let (d2, new) = schedule after_4 (some 4) true 20 false 8 in
    (after_4.kernel.opened 4 ≡ false)
    × (lookup 4 after_4.timer_callbacks ≡ none)
    × ((i : TimerInfo) × (lookup new.id d2.timer_callbacks ≡ some i)
        × (i.callback ≡ 8)
        × (i.node ≢ 0))
    × (lookup new.id (cancel old d2).1.timer_callbacks ≡ none)
unfolding schedule schedule_timer insert lookup erase finish_timer cancel_timer
fired_handle_cancels_other_example =
    fired_handle_cancels_other before_4 fired_run.0.disp after_4 4 1500 7 20 8 false timer_4 refl
      (timers_fire_once 3 open_below_4 fired_run.0 fired_run.1).1 refl refl refl
