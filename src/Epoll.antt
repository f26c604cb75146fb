-- ===== src/Epoll.antt =====
-- src/event/epoll.cpp (epoll_dispatcher) over the kernel's epoll set and timer descriptors, and the
-- timer handle of include/socketpp/event/timer.hpp with `defer` and `repeat` of
-- include/socketpp/event/loop.hpp. A callback is a number that stands for it. What a system call
-- does is what its manual page says; whether `timerfd_create` and `timerfd_settime` succeed is an
-- argument.
pub mod System
pub mod Invariant
pub mod Backing
pub mod Changes
pub mod Once
pub mod Cancelled
pub mod Handles
pub mod Stale
mod Examples
use socketpp.Base.{
  ℕ, suc, ◌+◌, ◌*◌, ◌/◌, ◌%◌, Bool, true, false, ◌&&◌, ◌||◌, not, Option, none, some, List, [],
  ◌==◌, if◌then◌else◌, is_some, nat_eq,
}
use socketpp.Base.Map.{Map, lookup, insert, erase}

-- `io_event`, by its bits.
pub record IoEvent : Type 0 where
  pub readable : Bool
  pub writable : Bool
  pub error : Bool
  pub hangup : Bool
  pub peer_shutdown : Bool

-- The bits of `epoll_event.events` that the dispatcher uses.
pub record EpollEvents : Type 0 where
  pub epollin : Bool
  pub epollout : Bool
  pub epollerr : Bool
  pub epollhup : Bool
  pub epollrdhup : Bool

unfoldable pub to_epoll_events : IoEvent → EpollEvents
to_epoll_events i = record {
  epollin = i.readable;
  epollout = i.writable;
  epollerr = true;
  epollhup = true;
  epollrdhup = true;
}

unfoldable pub from_epoll_events : EpollEvents → IoEvent
from_epoll_events e = record {
  readable = e.epollin;
  writable = e.epollout;
  error = e.epollerr;
  hangup = e.epollhup;
  peer_shutdown = e.epollrdhup;
}

-- `EPOLLIN` alone.
abbrev pub only_in : EpollEvents
only_in = record {
  epollin = true;
  epollout = false;
  epollerr = false;
  epollhup = false;
  epollrdhup = false;
}

-- `itimerspec`: the time to the first expiration, which disarms the timer if it is zero, and the
-- time between later ones.
pub record TimerSpec : Type 0 where
  pub value_sec : ℕ
  pub value_nsec : ℕ
  pub interval_sec : ℕ
  pub interval_nsec : ℕ

-- The open descriptors, the epoll set and the settings of the timer descriptors.
pub record Kernel : Type 0 where
  pub opened : ℕ → Bool
  pub watched : Map ℕ EpollEvents
  pub settings : Map ℕ TimerSpec

-- `node` tells the entries of the map apart that have stood at one key.
pub record TimerInfo : Type 0 where
  pub id : ℕ
  pub callback : ℕ
  pub repeating : Bool
  pub node : ℕ

pub record Dispatcher : Type 0 where
  pub kernel : Kernel
  pub waker_fd : ℕ
  pub callbacks : Map ℕ ℕ
  pub timer_callbacks : Map ℕ TimerInfo
  pub nodes : ℕ

abbrev pub set_open : Kernel → ℕ → Bool → Kernel
set_open k fd b = record k { opened = λ g. if g == fd then b else k.opened g }

-- The last descriptor of a file leaves the epoll set when it is closed.
unfoldable pub close : Kernel → ℕ → Kernel
close k fd = record (set_open k fd false) {
  watched = erase fd k.watched;
  settings = erase fd k.settings;
}

-- `epoll_ctl`; `none` is an error.
unfoldable pub epoll_add : Kernel → ℕ → EpollEvents → Option Kernel
epoll_add k fd e =
    if k.opened fd && not (is_some (lookup fd k.watched))
    then some (record k { watched = insert fd e k.watched })
    else none

unfoldable pub epoll_mod : Kernel → ℕ → EpollEvents → Option Kernel
epoll_mod k fd e =
    if is_some (lookup fd k.watched)
    then some (record k { watched = insert fd e k.watched })
    else none

unfoldable pub epoll_del : Kernel → ℕ → Option Kernel
epoll_del k fd =
    if is_some (lookup fd k.watched) then some (record k { watched = erase fd k.watched }) else none

-- The second part says whether the call succeeded.
add_done : Dispatcher → ℕ → ℕ → Option Kernel → Dispatcher × Bool
add_done d fd cb none = (d, false)
add_done d fd cb (some k) = (record d { kernel = k; callbacks = insert fd cb d.callbacks }, true)

unfoldable pub add : Dispatcher → ℕ → IoEvent → ℕ → Dispatcher × Bool
unfolding add_done epoll_add to_epoll_events
add d fd interest cb = add_done d fd cb (epoll_add d.kernel fd (to_epoll_events interest))

modify_done : Dispatcher → Option Kernel → Dispatcher × Bool
modify_done d none = (d, false)
modify_done d (some k) = (record d { kernel = k }, true)

unfoldable pub modify : Dispatcher → ℕ → IoEvent → Dispatcher × Bool
unfolding modify_done epoll_mod to_epoll_events
modify d fd interest = modify_done d (epoll_mod d.kernel fd (to_epoll_events interest))

remove_done : Dispatcher → ℕ → Option Kernel → Dispatcher × Bool
remove_done d fd none = (d, false)
remove_done d fd (some k) = (record d { kernel = k; callbacks = erase fd d.callbacks }, true)

unfoldable pub remove : Dispatcher → ℕ → Dispatcher × Bool
unfolding remove_done epoll_del
remove d fd = remove_done d fd (epoll_del d.kernel fd)

-- What `schedule_timer` hands to `timerfd_settime`.
unfoldable pub timer_spec : ℕ → Bool → TimerSpec
timer_spec timeout repeat =
    let secs = timeout / 1000 in
    let nsecs = (timeout % 1000) * 1000000 in
    record {
      value_sec = secs;
      value_nsec = nsecs;
      interval_sec = if repeat then secs else 0;
      interval_nsec = if repeat then nsecs else 0;
    }

abbrev opened_timer : Dispatcher → ℕ → Dispatcher
opened_timer d tfd = record d { kernel = set_open d.kernel tfd true }

abbrev closed_timer : Dispatcher → ℕ → Dispatcher
closed_timer d tfd = record d { kernel = close d.kernel tfd }

schedule_watched : Dispatcher → ℕ → Bool → ℕ → Option Kernel → Dispatcher × ℕ
unfolding close
schedule_watched d tfd repeat cb none = (closed_timer d tfd, 0)
schedule_watched d tfd repeat cb (some k) = (
  record d {
    kernel = k;
    timer_callbacks =
        insert tfd (record { id = tfd; callback = cb; repeating = repeat; node = d.nodes })
          d.timer_callbacks;
    nodes = suc d.nodes;
  },
  tfd,
)

-- `timerfd_create` returned `tfd`; `set_ok` says whether `timerfd_settime` succeeds.
schedule_created : Dispatcher → ℕ → Bool → ℕ → Bool → ℕ → Dispatcher × ℕ
unfolding schedule_watched timer_spec epoll_add close
schedule_created d tfd set_ok timeout repeat cb =
    let o = opened_timer d tfd in
    if not set_ok
    then (closed_timer o tfd, 0)
    else (let k = record (o.kernel) {
      settings = insert tfd (timer_spec timeout repeat) o.kernel.settings;
    } in
        schedule_watched (record o { kernel = k }) tfd repeat cb (epoll_add k tfd only_in))

-- The second part is the timer's id, 0 if there is none.
unfoldable pub schedule_timer : Dispatcher → Option ℕ → Bool → ℕ → Bool → ℕ → Dispatcher × ℕ
unfolding schedule_created
schedule_timer d none set_ok timeout repeat cb = (d, 0)
schedule_timer d (some tfd) set_ok timeout repeat cb =
    schedule_created d tfd set_ok timeout repeat cb

-- `EPOLL_CTL_DEL`, `close` and the removal of the entry.
unfoldable pub drop_timer : Dispatcher → ℕ → Dispatcher
unfolding close
drop_timer d tfd = record d {
  kernel = close d.kernel tfd;
  timer_callbacks = erase tfd d.timer_callbacks;
}

unfoldable pub cancel_timer : Dispatcher → ℕ → Dispatcher
unfolding drop_timer
cancel_timer d id = if is_some (lookup id d.timer_callbacks) then drop_timer d id else d

-- After a timer's callback: `info` is a reference to the entry, so that there is no result where the
-- entry is gone.
finish_found : Dispatcher → ℕ → TimerInfo → Option TimerInfo → Option Dispatcher
unfolding drop_timer
finish_found d fd info none = none
finish_found d fd info (some now) =
    if now.node == info.node then some (if now.repeating then d else drop_timer d fd) else none

unfoldable pub finish_timer : Dispatcher → ℕ → TimerInfo → Option Dispatcher
unfolding finish_found
finish_timer d fd info = finish_found d fd info (lookup fd d.timer_callbacks)
