-- ===== src/Accept/System.antt =====
-- The accept loop of src/socket/tcp_accept_loop.cpp among events and timers.
use socketpp.Base.{ℕ, ◌≡◌, Bool, true, false, some, List, ◌∷◌, ◌++◌}
use socketpp.Accept.{AcceptLoop, Accepted, on_event, on_timer, stop}

-- `making`: whether timers can be made while descriptors have run out. A readable event comes only
-- where it is watched for; others come for every registered listener. Timers expire in any order.
pub data Step (making : Bool) (s : AcceptLoop) : AcceptLoop → Type 0 where
  readable_event :
      (rs : List Accepted) → s.interest ≡ some true → Step making s (on_event s true making rs)
  other_event : (rs : List Accepted) → Step making s (on_event s false making rs)
  expires :
      (before : List ℕ) (delay : ℕ) (after : List ℕ)
      → s.timers ≡ before ++ (delay ∷ after)
      → Step making s (on_timer (record s { timers = before ++ after }))
  stops : Step making s (stop s)

pub data Reach (making : Bool) (s : AcceptLoop) : AcceptLoop → Type 0 where
  here : Reach making s s
  next : {t u : AcceptLoop} → Reach making s t → Step making t u → Reach making s u
