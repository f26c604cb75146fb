-- ===== src/Epoll/Stale.antt =====
-- A timer_handle (include/socketpp/event/timer.hpp) whose timer has fired, on src/event/epoll.cpp.
use socketpp.Base.{
  ℕ, ◌≡◌, ◌≢◌, refl, ap, subst, Bool, true, false, ==_iff, none, some, arith, nat_eq,
}
use socketpp.Base.Map.{lookup, lookup-erase, lookup-insert}
use socketpp.Epoll.{TimerInfo, Dispatcher, schedule_timer, cancel_timer, drop_timer, finish_timer}
use socketpp.Epoll.Invariant.{IsSound}
use socketpp.Epoll.Handles.{TimerHandle, schedule, cancel}

finish_timer-once :
    (d d1 : Dispatcher) (fd : ℕ) (info : TimerInfo)
    → lookup fd d.timer_callbacks ≡ some info
    → info.repeating ≡ false
    → finish_timer d fd info ≡ some d1
    → d1 ≡ drop_timer d fd
unfolding finish_timer
finish_timer-once d d1 fd info h r e = ground (arith, h, r, e)

-- On a descriptor that is neither open nor watched a timer can be scheduled.
schedule-fresh :
    (d : Dispatcher) (fd ms : ℕ) (r : Bool) (cb : ℕ)
    → lookup fd d.kernel.watched ≡ none
    → lookup fd (schedule d (some fd) true ms r cb).0.timer_callbacks
      ≡ some (record { id = fd; callback = cb; repeating = r; node = d.nodes })
unfolding schedule schedule_timer
schedule-fresh d fd ms r cb w = ground (
  arith,
  w,
  ==_iff fd fd,
  lookup-insert fd fd (record { id = fd; callback = cb; repeating = r; node = d.nodes })
      d.timer_callbacks,
)

-- The handle that `schedule` gives for a descriptor of its own.
schedule-handle :
    (d : Dispatcher) (fd ms : ℕ) (r : Bool) (cb : ℕ)
    → lookup fd d.kernel.watched ≡ none
    → (schedule d (some fd) true ms r cb).1 ≡ record { id = fd; has_cancel = true }
unfolding schedule schedule_timer
schedule-handle d fd ms r cb w = ground (arith, w)

-- The handle of a timer that has fired is not empty. Let `old` be the handle that `schedule` gave
-- for a timer on a new descriptor, and let the timer under its id, one that fires once, finish in a
-- later sound dispatcher. Then that descriptor is free; and if the next timer is given it, that
-- timer's entry is a new one, and cancelling `old` takes it out of the table, so that the next
-- timer's own handle finds no entry.
pub fired_handle_cancels_other :
    (d0 d d1 : Dispatcher) (fd ms0 cb0 ms cb : ℕ) (r : Bool) (info : TimerInfo)
    → lookup fd d0.kernel.watched ≡ none
    → IsSound d
    → lookup (schedule d0 (some fd) true ms0 false cb0).1.id d.timer_callbacks ≡ some info
    → info.repeating ≡ false
    → finish_timer d (schedule d0 (some fd) true ms0 false cb0).1.id info ≡ some d1
    → let old = (schedule d0 (some fd) true ms0 false cb0).1 in
      let (d2, new) = schedule d1 (some fd) true ms r cb in
      (d1.kernel.opened fd ≡ false)
      × (lookup fd d1.timer_callbacks ≡ none)
      × ((i : TimerInfo) × (lookup new.id d2.timer_callbacks ≡ some i)
          × (i.callback ≡ cb)
          × (i.node ≢ info.node))
      × (lookup new.id (cancel old d2).1.timer_callbacks ≡ none)
unfolding cancel cancel_timer drop_timer
fired_handle_cancels_other d0 d d1 fd ms0 cb0 ms cb r info w0 v h one e =
    let given = ap (λ (t : TimerHandle). t.id) (schedule-handle d0 fd ms0 false cb0 w0) in
    let k : lookup fd d.timer_callbacks ≡ some info =
      subst (λ n. lookup n d.timer_callbacks ≡ some info) given h in
    let f : finish_timer d fd info ≡ some d1 =
      subst (λ n. finish_timer d n info ≡ some d1) given e in
    let gone = finish_timer-once d d1 fd info k one f in
    let unwatched : lookup fd d1.kernel.watched ≡ none =
      rw gone (ground (arith, lookup-erase fd fd d.kernel.watched, ==_iff fd fd)) in
    let next = schedule-fresh d1 fd ms r cb unwatched in
    let d2 = (schedule d1 (some fd) true ms r cb).0 in
    (
      rw gone (ground (arith, ==_iff fd fd)),
      rw gone (ground (arith, lookup-erase fd fd d.timer_callbacks, ==_iff fd fd)),
      rw (schedule-handle d1 fd ms r cb unwatched) (
        record { id = fd; callback = cb; repeating = r; node = d1.nodes },
        next,
        refl,
        rw gone (ground (arith, v.live fd info k)),
      ),
      rw (schedule-handle d1 fd ms r cb unwatched, schedule-handle d0 fd ms0 false cb0 w0)
          (ground (arith, next, lookup-erase fd fd d2.timer_callbacks, ==_iff fd fd)),
    )
