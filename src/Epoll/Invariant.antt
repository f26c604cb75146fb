-- ===== src/Epoll/Invariant.antt =====
-- The timers of src/event/epoll.cpp: what the table and the kernel agree on, and how often an entry
-- fires.
use socketpp.Base.{
  ℕ, suc, ◌<◌, ◌≡◌, refl, inl, inr, Bool, true, false, ==_iff, none, some, is_some, arith, nat_eq,
  Bool-cases, Option-cases,
}
use socketpp.Base.Map.{lookup, insert, erase, lookup-erase, lookup-insert}
use socketpp.Epoll.{
  TimerInfo, Dispatcher, add, modify, remove, schedule_timer, cancel_timer, drop_timer,
}
use socketpp.Epoll.System.{Acts, adds, modifies, removes, opens, closes, fails, schedules, cancels}

-- The table and the kernel: an entry's descriptor is open and watched, its id is its descriptor, and
-- its node is older than the next one and stands at no other key.
pub record IsSound (d : Dispatcher) : Type 0 where
  pub live :
      (fd : ℕ) (i : TimerInfo)
      → lookup fd d.timer_callbacks ≡ some i
      → (d.kernel.opened fd ≡ true)
        × (is_some (lookup fd d.kernel.watched) ≡ true)
        × (is_some (lookup fd d.kernel.settings) ≡ true)
        × (i.id ≡ fd)
        × (i.node < d.nodes)
  pub single :
      (f g : ℕ) (i j : TimerInfo)
      → lookup f d.timer_callbacks ≡ some i
      → lookup g d.timer_callbacks ≡ some j
      → i.node ≡ j.node
      → f ≡ g

-- What an action does to the table: it is as before, or loses the entry of a key, or has a new one at
-- a key where there was none.
pub data Change (d e : Dispatcher) : Type 0 where
  kept : e.timer_callbacks ≡ d.timer_callbacks → e.nodes ≡ d.nodes → Change d e
  dropped :
      (fd : ℕ) → e.timer_callbacks ≡ erase fd d.timer_callbacks → e.nodes ≡ d.nodes → Change d e
  added :
      (fd : ℕ) (i : TimerInfo)
      → e.timer_callbacks ≡ insert fd i d.timer_callbacks
      → i.node ≡ d.nodes
      → e.nodes ≡ suc d.nodes
      → lookup fd d.timer_callbacks ≡ none
      → Change d e

pub not_open-absent :
    {d : Dispatcher} (fd : ℕ)
    → IsSound d
    → d.kernel.opened fd ≡ false
    → lookup fd d.timer_callbacks ≡ none
not_open-absent {d} fd v h = elim (Option-cases (lookup fd d.timer_callbacks)) [
  | inl n ↦ n
  | inr (i, e) ↦ ground (arith, v.live fd i e)
]

drop_timer-Change : (d : Dispatcher) (fd : ℕ) → Change d (drop_timer d fd)
unfolding drop_timer
drop_timer-Change d fd = dropped fd refl refl

cancel_timer-Change : (d : Dispatcher) (fd : ℕ) → Change d (cancel_timer d fd)
unfolding cancel_timer drop_timer
cancel_timer-Change d fd = elim (Bool-cases (is_some (lookup fd d.timer_callbacks))) [
  | inl h ↦ rw h (dropped fd refl refl)
  | inr h ↦ rw h (kept refl refl)
]

-- Scheduling either fails and leaves the table, or adds an entry.
schedule_timer-Change :
    (d : Dispatcher) (fd : ℕ) (ok : Bool) (ms : ℕ) (r : Bool) (cb : ℕ)
    → lookup fd d.timer_callbacks ≡ none
    → Change d (schedule_timer d (some fd) ok ms r cb).0
unfolding schedule_timer
schedule_timer-Change d fd false ms r cb h = kept refl refl
schedule_timer-Change d fd true ms r cb h =
    elim (Bool-cases (is_some (lookup fd d.kernel.watched))) [
      | inl w ↦ kept (ground (arith, w, ==_iff fd fd)) (ground (arith, w, ==_iff fd fd))
      | inr w ↦
          added fd (record { id = fd; callback = cb; repeating = r; node = d.nodes })
            (ground (arith, w, ==_iff fd fd)) refl (ground (arith, w, ==_iff fd fd)) h
    ]

pub Acts-Change : {d e : Dispatcher} → IsSound d → Acts d e → Change d e
unfolding add modify remove schedule_timer
Acts-Change v (adds fd i cb) = kept (ground arith) (ground arith)
Acts-Change v (modifies fd i) = kept (ground arith) (ground arith)
Acts-Change v (removes fd h) = kept (ground arith) (ground arith)
Acts-Change v (opens fd h) = kept refl refl
Acts-Change v (closes fd h) = kept refl refl
Acts-Change v (fails ok ms r cb) = kept refl refl
Acts-Change v (schedules fd ok ms r cb h) =
    schedule_timer-Change _ fd ok ms r cb (not_open-absent fd v h)
Acts-Change v (cancels id) = cancel_timer-Change _ id

pub Change-single :
    {d e : Dispatcher}
    → IsSound d
    → Change d e
    → (f g : ℕ) (i j : TimerInfo) → lookup f e.timer_callbacks ≡ some i
    → lookup g e.timer_callbacks ≡ some j
    → i.node ≡ j.node
    → f ≡ g
Change-single {d} v (kept t n) f g i j a b h = v.single f g i j (rw t at a) (rw t at b) h
Change-single {d} v (dropped fd t n) f g i j a b h =
    let a' : lookup f (erase fd d.timer_callbacks) ≡ some i = rw t at a in
    let b' : lookup g (erase fd d.timer_callbacks) ≡ some j = rw t at b in
    v.single f g i j (ground (arith, a', lookup-erase fd f d.timer_callbacks))
      (ground (arith, b', lookup-erase fd g d.timer_callbacks)) h
Change-single {d} v (added fd k t n m free) f g i j a b h =
    let a' : lookup f (insert fd k d.timer_callbacks) ≡ some i = rw t at a in
    let b' : lookup g (insert fd k d.timer_callbacks) ≡ some j = rw t at b in
    ground (
      arith,
      a',
      b',
      lookup-insert fd f k d.timer_callbacks,
      lookup-insert fd g k d.timer_callbacks,
      ==_iff fd f,
      ==_iff fd g,
      v.live f i,
      v.live g j,
      v.single f g i j,
    )

-- An entry that was there is the same after an action, if it is there.
pub Change-old :
    {d e : Dispatcher} (g : ℕ) (i j : TimerInfo)
    → Change d e
    → lookup g d.timer_callbacks ≡ some j
    → lookup g e.timer_callbacks ≡ some i
    → i ≡ j
Change-old {d} g i j (kept t n) a b =
    let b' : lookup g d.timer_callbacks ≡ some i = rw t at b in ground (arith, b', a)
Change-old {d} g i j (dropped fd t n) a b =
    let b' : lookup g (erase fd d.timer_callbacks) ≡ some i = rw t at b in
    ground (arith, b', a, lookup-erase fd g d.timer_callbacks)
Change-old {d} g i j (added fd k t n m free) a b =
    let b' : lookup g (insert fd k d.timer_callbacks) ≡ some i = rw t at b in
    ground (arith, b', a, free, lookup-insert fd g k d.timer_callbacks, ==_iff fd g)
