-- ===== src/Epoll/System.antt =====
-- The loop's thread with the dispatcher of src/event/epoll.cpp: posted callbacks, and the events of
-- one `epoll_wait` after the other, whose callbacks use the dispatcher too.
use socketpp.Base.{
  ℕ, ◌≤◌, ◌≡◌, ◌≢◌, Bool, false, true, none, some, List, [], ◌∷◌, ◌++◌, length, nat_eq,
}
use socketpp.Base.Map.{lookup}
use socketpp.Epoll.{
  IoEvent, EpollEvents, TimerInfo, Dispatcher, set_open, close, from_epoll_events, add, modify,
  remove, schedule_timer, cancel_timer, finish_timer,
}

-- Where the thread stands: outside of `poll`, in its loop with the events left, or in a callback.
-- `broken`: it has used its reference to the entry of `info`, which
-- is gone.
pub data Phase : Type 0 where
  idle : Phase
  batch : (left : List (ℕ × EpollEvents)) → Phase
  in_timer : (fd : ℕ) (info : TimerInfo) (left : List (ℕ × EpollEvents)) → Phase
  in_socket : (left : List (ℕ × EpollEvents)) → Phase
  broken : (info : TimerInfo) → Phase

abbrev pub is_broken : Phase → Bool
is_broken (broken info) = true
is_broken _ = false

-- `fired` records the entries whose callback began; `calls` the calls of socket callbacks.
pub record System : Type 0 where
  pub disp : Dispatcher
  pub phase : Phase
  pub fired : List TimerInfo
  pub calls : List (ℕ × ℕ × IoEvent)

abbrev pub start : ℕ → (ℕ → Bool) → System
start waker opened = record {
  disp = record {
    kernel = record { opened = opened; watched = []; settings = [] };
    waker_fd = waker;
    callbacks = [];
    timer_callbacks = [];
    nodes = 0;
  };
  phase = idle;
  fired = [];
  calls = [];
}

-- What code on the loop's thread does with the dispatcher and with descriptors of its own. The kernel
-- gives out descriptors that are not open; sockets are closed by their owner, timers are not.
pub data Acts (d : Dispatcher) : Dispatcher → Type 0 where
  adds : (fd : ℕ) (i : IoEvent) (cb : ℕ) → Acts d (add d fd i cb).0
  modifies : (fd : ℕ) (i : IoEvent) → Acts d (modify d fd i).0
  removes : (fd : ℕ) → lookup fd d.timer_callbacks ≡ none → Acts d (remove d fd).0
  opens :
      (fd : ℕ)
      → d.kernel.opened fd ≡ false
      → Acts d (record d { kernel = set_open d.kernel fd true })
  closes :
      (fd : ℕ)
      → lookup fd d.timer_callbacks ≡ none
      → Acts d (record d { kernel = close d.kernel fd })
  fails : (ok : Bool) (ms : ℕ) (r : Bool) (cb : ℕ) → Acts d (schedule_timer d none ok ms r cb).0
  schedules :
      (tfd : ℕ) (ok : Bool) (ms : ℕ) (r : Bool) (cb : ℕ)
      → d.kernel.opened tfd ≡ false
      → Acts d (schedule_timer d (some tfd) ok ms r cb).0
  cancels : (id : ℕ) → Acts d (cancel_timer d id)

pub data Step (s : System) : System → Type 0 where
  acts :
      (d : Dispatcher) → is_broken s.phase ≡ false → Acts s.disp d → Step s (record s { disp = d })
  polls :
      (es : List (ℕ × EpollEvents))
      → s.phase ≡ idle
      → length es ≤ 256
      → Step s (record s { phase = batch es })
  polled : s.phase ≡ batch [] → Step s (record s { phase = idle })
  drains :
      (e : EpollEvents) (es : List (ℕ × EpollEvents))
      → s.phase ≡ batch ((s.disp.waker_fd, e) ∷ es)
      → Step s (record s { phase = batch es })
  fires :
      (fd : ℕ) (e : EpollEvents) (es : List (ℕ × EpollEvents)) (info : TimerInfo)
      → s.phase ≡ batch ((fd, e) ∷ es)
      → fd ≢ s.disp.waker_fd
      → lookup fd s.disp.timer_callbacks ≡ some info
      → Step s (record s { phase = in_timer fd info es; fired = s.fired ++ info ∷ [] })
  finishes :
      (fd : ℕ) (info : TimerInfo) (es : List (ℕ × EpollEvents)) (d : Dispatcher)
      → s.phase ≡ in_timer fd info es
      → finish_timer s.disp fd info ≡ some d
      → Step s (record s { disp = d; phase = batch es })
  breaks :
      (fd : ℕ) (info : TimerInfo) (es : List (ℕ × EpollEvents))
      → s.phase ≡ in_timer fd info es
      → finish_timer s.disp fd info ≡ none
      → Step s (record s { phase = broken info })
  dispatches :
      (fd : ℕ) (e : EpollEvents) (es : List (ℕ × EpollEvents)) (cb : ℕ)
      → s.phase ≡ batch ((fd, e) ∷ es)
      → fd ≢ s.disp.waker_fd
      → lookup fd s.disp.timer_callbacks ≡ none
      → lookup fd s.disp.callbacks ≡ some cb
      → Step s
          (record s { phase = in_socket es; calls = s.calls ++ (cb, fd, from_epoll_events e) ∷ [] })
  ignores :
      (fd : ℕ) (e : EpollEvents) (es : List (ℕ × EpollEvents))
      → s.phase ≡ batch ((fd, e) ∷ es)
      → fd ≢ s.disp.waker_fd
      → lookup fd s.disp.timer_callbacks ≡ none
      → lookup fd s.disp.callbacks ≡ none
      → Step s (record s { phase = batch es })
  returns :
      (es : List (ℕ × EpollEvents))
      → s.phase ≡ in_socket es
      → Step s (record s { phase = batch es })

pub data Reach (s : System) : System → Type 0 where
  here : Reach s s
  next : {t u : System} → Reach s t → Step t u → Reach s u

pub Reach-trans : {s t u : System} → Reach s t → Reach t u → Reach s u
Reach-trans r here = r
Reach-trans r (next q st) = next (Reach-trans r q) st
