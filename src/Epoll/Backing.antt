-- ===== src/Epoll/Backing.antt =====
-- What the kernel keeps for the timers of src/event/epoll.cpp.
use socketpp.Base.{
  ℕ, ◌≡◌, refl, inl, inr, Bool, true, false, ◌==◌, ==_iff, none, some, is_some, arith, nat_eq,
  Bool-cases,
}
use socketpp.Base.Map.{lookup, insert, erase, lookup-erase, lookup-insert}
use socketpp.Epoll.{
  IoEvent, to_epoll_events, timer_spec, only_in, TimerInfo, Dispatcher, close, add, modify, remove,
  schedule_timer, cancel_timer, drop_timer,
}
use socketpp.Epoll.System.{Acts, adds, modifies, removes, opens, closes, fails, schedules, cancels}
use socketpp.Epoll.Invariant.{IsSound}

-- What the kernel must keep of a descriptor for an entry that stands there.
abbrev pub Backed : Dispatcher → ℕ → Type 0
Backed d fd =
    (d.kernel.opened fd ≡ true)
    × (is_some (lookup fd d.kernel.watched) ≡ true)
    × (is_some (lookup fd d.kernel.settings) ≡ true)

add-Backed :
    (d : Dispatcher) (f g : ℕ) (i : IoEvent) (cb : ℕ) → Backed d g → Backed (add d f i cb).0 g
unfolding add
add-Backed d f g i cb b = elim (Bool-cases (d.kernel.opened f)) [
  | inr o ↦ rw o b
  | inl o ↦ elim (Bool-cases (is_some (lookup f d.kernel.watched))) [
    | inl w ↦ rw (o, w) b
    | inr w ↦
        rw (o, w)
          (
            ground arith,
            ground (arith, lookup-insert f g (to_epoll_events i) d.kernel.watched),
            b.2,
          )
  ]
]

modify-Backed : (d : Dispatcher) (f g : ℕ) (i : IoEvent) → Backed d g → Backed (modify d f i).0 g
unfolding modify
modify-Backed d f g i b = elim (Bool-cases (is_some (lookup f d.kernel.watched))) [
  | inl w ↦
      rw w
        (ground arith, ground (arith, lookup-insert f g (to_epoll_events i) d.kernel.watched), b.2)
  | inr w ↦ rw w b
]

remove-Backed : (d : Dispatcher) (f g : ℕ) → (f == g) ≡ false → Backed d g → Backed (remove d f).0 g
unfolding remove
remove-Backed d f g n b = elim (Bool-cases (is_some (lookup f d.kernel.watched))) [
  | inl w ↦ rw w (ground arith, ground (arith, lookup-erase f g d.kernel.watched), b.2)
  | inr w ↦ rw w b
]

close-Backed :
    (d : Dispatcher) (f g : ℕ)
    → (f == g) ≡ false
    → Backed d g
    → Backed (record d { kernel = close d.kernel f }) g
unfolding close
close-Backed d f g n b = (
  ground (arith, ==_iff f g, ==_iff g f),
  ground (arith, lookup-erase f g d.kernel.watched),
  ground (arith, lookup-erase f g d.kernel.settings),
)

schedule_timer-Backed :
    (d : Dispatcher) (f g : ℕ) (ok : Bool) (ms : ℕ) (r : Bool) (cb : ℕ)
    → (f == g) ≡ false
    → Backed d g
    → Backed (schedule_timer d (some f) ok ms r cb).0 g
unfolding schedule_timer
schedule_timer-Backed d f g false ms r cb n b = (
  ground (arith, ==_iff f g, ==_iff g f),
  ground (arith, lookup-erase f g d.kernel.watched),
  ground (arith, lookup-erase f g d.kernel.settings),
)
schedule_timer-Backed d f g true ms r cb n b =
    elim (Bool-cases (is_some (lookup f d.kernel.watched))) [
      | inl w ↦ (
        ground (arith, w, ==_iff f f, ==_iff f g, ==_iff g f),
        ground (arith, w, ==_iff f f, lookup-erase f g d.kernel.watched),
        ground (
          arith,
          w,
          ==_iff f f,
          lookup-erase f g (insert f (timer_spec ms r) d.kernel.settings),
          lookup-insert f g (timer_spec ms r) d.kernel.settings,
        ),
      )
      | inr w ↦ (
        ground (arith, w, ==_iff f f, ==_iff f g, ==_iff g f),
        ground (arith, w, ==_iff f f, lookup-insert f g only_in d.kernel.watched),
        ground (arith, w, ==_iff f f, lookup-insert f g (timer_spec ms r) d.kernel.settings),
      )
    ]

-- Only an entry that an action leaves has to stay backed.
pub Acts-Backed :
    {d e : Dispatcher} (g : ℕ) (i : TimerInfo)
    → IsSound d
    → Acts d e
    → lookup g d.timer_callbacks ≡ some i
    → lookup g e.timer_callbacks ≡ some i
    → Backed d g
    → Backed e g
unfolding cancel_timer schedule_timer drop_timer
Acts-Backed {d} g i v (adds fd e cb) a c b = add-Backed d fd g e cb b
Acts-Backed {d} g i v (modifies fd e) a c b = modify-Backed d fd g e b
Acts-Backed {d} g i v (removes fd h) a c b =
    remove-Backed d fd g (ground (arith, h, a, ==_iff fd g)) b
Acts-Backed {d} g i v (opens fd h) a c b = (ground arith, b.1, b.2)
Acts-Backed {d} g i v (closes fd h) a c b =
    close-Backed d fd g (ground (arith, h, a, ==_iff fd g)) b
Acts-Backed {d} g i v (fails ok ms r cb) a c b = b
Acts-Backed {d} g i v (schedules fd ok ms r cb h) a c b =
    schedule_timer-Backed d fd g ok ms r cb (ground (arith, h, b.0, ==_iff fd g)) b
Acts-Backed {d} g i v (cancels id) a c b =
    elim (Bool-cases (is_some (lookup id d.timer_callbacks))) [
      | inr h ↦ rw h b
      | inl h ↦
          let c' : lookup g (erase id d.timer_callbacks) ≡ some i = rw h at c in
          rw h (close-Backed d id g (ground (arith, c', lookup-erase id g d.timer_callbacks)) b)
    ]

-- A new entry is backed.
schedule_timer-new :
    (d : Dispatcher) (f g : ℕ) (i : TimerInfo) (ok : Bool) (ms : ℕ) (r : Bool) (cb : ℕ)
    → lookup g d.timer_callbacks ≡ none
    → lookup g (schedule_timer d (some f) ok ms r cb).0.timer_callbacks ≡ some i
    → Backed (schedule_timer d (some f) ok ms r cb).0 g × (i.id ≡ g) × (i.node ≡ d.nodes)
unfolding schedule_timer
schedule_timer-new d f g i false ms r cb a b = cc
schedule_timer-new d f g i true ms r cb a b =
    elim (Bool-cases (is_some (lookup f d.kernel.watched))) [
      | inl w ↦ ground (arith, w, ==_iff f f)
      | inr w ↦
          let k : TimerInfo = record { id = f; callback = cb; repeating = r; node = d.nodes } in
          let b' : lookup g (insert f k d.timer_callbacks) ≡ some i =
            ground (arith, w, b, ==_iff f f) in
          let hit : g ≡ f =
            ground (arith, b', a, lookup-insert f g k d.timer_callbacks, ==_iff f g) in
          let same : i ≡ k =
            ground (arith, b', a, lookup-insert f g k d.timer_callbacks, ==_iff f g) in
          rw (hit, same)
            (
              (
                ground (arith, w, ==_iff f f),
                ground (arith, w, ==_iff f f, lookup-insert f f only_in d.kernel.watched),
                ground
                    (arith, w, ==_iff f f, lookup-insert f f (timer_spec ms r) d.kernel.settings),
              ),
              refl,
              refl,
            )
    ]

pub Acts-new :
    {d e : Dispatcher} (g : ℕ) (i : TimerInfo)
    → Acts d e
    → lookup g d.timer_callbacks ≡ none
    → lookup g e.timer_callbacks ≡ some i
    → Backed e g × (i.id ≡ g)
unfolding add modify remove cancel_timer drop_timer schedule_timer
Acts-new g i (adds fd e cb) a b = ground arith
Acts-new g i (modifies fd e) a b = ground arith
Acts-new g i (removes fd h) a b = ground arith
Acts-new g i (opens fd h) a b = cc
Acts-new g i (closes fd h) a b = cc
Acts-new g i (fails ok ms r cb) a b = cc
Acts-new {d} g i (schedules fd ok ms r cb h) a b =
    let (x, y, z) = schedule_timer-new d fd g i ok ms r cb a b in (x, y)
Acts-new {d} g i (cancels id) a b = ground (arith, lookup-erase id g d.timer_callbacks)
