-- ===== src/Epoll/Once.antt =====
-- How often an entry of the timers of src/event/epoll.cpp fires.
use socketpp.Base.{
  not, ◌&&◌, ℕ, ◌+◌, ◌≤◌, ◌≡◌, ◌≢◌, ◌∙◌, refl, sym, ap, ◌⊎◌, inl, inr, Bool, false, ◌==◌, ==_iff,
  Option, none, some, List, [], ◌∷◌, ◌++◌, if◌then◌else◌, arith, nat_eq, Option-cases,
}
use socketpp.Base.Map.{lookup, lookup-erase}
use socketpp.Epoll.{EpollEvents, TimerInfo, Dispatcher, drop_timer, finish_timer}
use socketpp.Epoll.System.{Acts, cancels}
use socketpp.Epoll.System.{
  Phase, idle, broken, batch, in_timer, in_socket, System, start, Step, acts, polls, polled, drains,
  fires, finishes, breaks, dispatches, ignores, returns, Reach, here, next,
}
use socketpp.Epoll.Invariant.{IsSound, Acts-Change, Change-old}
use socketpp.Epoll.Changes.{Change-nodes, Change-new, Acts-IsSound, finish_timer-Acts}

-- The begun callbacks of the entry with node `n`, and those among them of a timer that fires once.
abbrev pub count : ℕ → List TimerInfo → ℕ
count n [] = 0
count n (i ∷ is') = (if i.node == n then 1 else 0) + count n is'

abbrev pub shots : ℕ → List TimerInfo → ℕ
shots n [] = 0
shots n (i ∷ is') = (if not i.repeating && (i.node == n) then 1 else 0) + shots n is'

pub count-append :
    (n : ℕ) (is' : List TimerInfo) (j : TimerInfo)
    → count n (is' ++ j ∷ []) ≡ count n is' + count n (j ∷ [])
count-append n [] j = omega arith
count-append n (i ∷ is') j = omega (arith, count-append n is' j)

shots-append :
    (n : ℕ) (is' : List TimerInfo) (j : TimerInfo)
    → shots n (is' ++ j ∷ []) ≡ shots n is' + shots n (j ∷ [])
shots-append n [] j = omega arith
shots-append n (i ∷ is') j = omega (arith, shots-append n is' j)

-- The node of the timer whose callback runs.
abbrev current : Phase → Option ℕ
current (in_timer fd info es) = some info.node
current idle = none
current (broken info) = some info.node
current (batch es) = none
current (in_socket es) = none

pub record Inv (s : System) : Type 0 where
  pub sound : IsSound s.disp
  later : (n : ℕ) → s.disp.nodes ≤ n → shots n s.fired ≡ 0
  once : (n : ℕ) → shots n s.fired ≤ 1
  unfired :
      (fd : ℕ) (i : TimerInfo)
      → lookup fd s.disp.timer_callbacks ≡ some i
      → i.repeating ≡ false
      → (current s.phase ≡ some i.node) ⊎ (shots i.node s.fired ≡ 0)

start-Inv : (w : ℕ) (o : ℕ → Bool) → Inv (start w o)
unfolding lookup
start-Inv w o = record {
  sound = record { live = λ fd i h. cc; single = λ f g i j a b h. cc };
  later = λ n h. refl;
  once = λ n. omega arith;
  unfired = λ fd i h r. cc;
}

pub Acts-Inv : {s : System} {d : Dispatcher} → Inv s → Acts s.disp d → Inv (record s { disp = d })
Acts-Inv {s} {d} v a =
    let c = Acts-Change v.sound a in
    record {
      sound = Acts-IsSound v.sound a;
      later = λ n h. v.later n (omega (arith, Change-nodes c));
      once = v.once;
      unfired = λ fd i h r. elim (Option-cases (lookup fd s.disp.timer_callbacks)) [
        | inl n ↦ inr (v.later i.node (omega (arith, (Change-new fd i c n h).0)))
        | inr (j, o) ↦
            let same = Change-old fd i j c o h in v.unfired fd i (o ∙ ap some (sym same)) r
      ];
    }

-- A phase in which the same timer's callback runs, or none.
quiet-Inv :
    {s : System} (p : Phase) → Inv s → current p ≡ current s.phase → Inv (record s { phase = p })
quiet-Inv {s} p v c = record {
  sound = v.sound;
  later = v.later;
  once = v.once;
  unfired = λ fd i h r. rw c (v.unfired fd i h r);
}

fires-Inv :
    {s : System} (fd : ℕ) (info : TimerInfo) (es : List (ℕ × EpollEvents))
    → Inv s
    → current s.phase ≡ none
    → lookup fd s.disp.timer_callbacks ≡ some info
    → Inv (record s { phase = in_timer fd info es; fired = s.fired ++ info ∷ [] })
fires-Inv {s} fd info es v c h = record {
  sound = v.sound;
  later = λ n k.
      ground (
        arith,
        shots-append n s.fired info,
        v.later n k,
        v.sound.live fd info h,
        ==_iff info.node n,
      );
  once = λ n.
      ground
        (arith, shots-append n s.fired info, v.once n, v.unfired fd info h, c, ==_iff info.node n);
  unfired = λ g i k r.
      ground
        (arith, shots-append i.node s.fired info, v.unfired g i k r, c, ==_iff info.node i.node);
}

-- After the callback of a timer that fires once its entry is gone.
finish_timer-clears :
    {d e : Dispatcher} (fd g : ℕ) (info i : TimerInfo)
    → IsSound d
    → finish_timer d fd info ≡ some e
    → lookup g e.timer_callbacks ≡ some i
    → i.repeating ≡ false
    → (i.node ≢ info.node) × (lookup g d.timer_callbacks ≡ some i)
unfolding finish_timer drop_timer
finish_timer-clears {d} fd g info i v h a r = elim (Option-cases (lookup fd d.timer_callbacks)) [
  | inl n ↦ ground (arith, h, n)
  | inr (j, o) ↦ ground (
    arith,
    h,
    o,
    a,
    v.single g fd i j,
    lookup-erase fd g d.timer_callbacks,
    ==_iff fd g,
    ==_iff j.node info.node,
  )
]

finishes-Inv :
    {s : System} (fd : ℕ) (info : TimerInfo) (es : List (ℕ × EpollEvents)) (d : Dispatcher)
    → Inv s
    → s.phase ≡ in_timer fd info es
    → finish_timer s.disp fd info ≡ some d
    → Inv (record s { disp = d; phase = batch es })
finishes-Inv {s} fd info es d v p h = record {
  sound = (elim (finish_timer-Acts fd info h) [
    | inl e ↦ rw e v.sound
    | inr e ↦ rw e (Acts-IsSound v.sound (cancels fd))
  ]);
  later = λ n k. v.later n (elim (finish_timer-Acts fd info h) [
    | inl e ↦ rw e at k
    | inr e ↦
        omega (
          arith,
          Change-nodes (Acts-Change v.sound (cancels fd)),
          ap (λ (x : Dispatcher). x.nodes) e,
        )
  ]);
  once = v.once;
  unfired = λ g i a r.
      let (n, b) = finish_timer-clears fd g info i v.sound h a r in
      inr (ground (arith, v.unfired g i b r, ap current p, n));
}

pub Step-Inv : {s t : System} → Step s t → Inv s → Inv t
Step-Inv (acts d b a) v = Acts-Inv v a
Step-Inv (polls es p l) v = quiet-Inv _ v (sym (ap current p))
Step-Inv (polled p) v = quiet-Inv _ v (sym (ap current p))
Step-Inv (drains e es p) v = quiet-Inv _ v (sym (ap current p))
Step-Inv (fires fd e es info p w h) v = fires-Inv fd info es v (ap current p) h
Step-Inv (finishes fd info es d p h) v = finishes-Inv fd info es d v p h
Step-Inv (breaks fd info es p h) v = quiet-Inv _ v (sym (ap current p))
Step-Inv (dispatches fd e es cb p w h k) v =
    let q = quiet-Inv (in_socket es) v (sym (ap current p)) in
    record { sound = q.sound; later = q.later; once = q.once; unfired = q.unfired }
Step-Inv (ignores fd e es p w h k) v = quiet-Inv _ v (sym (ap current p))
Step-Inv (returns es p) v = quiet-Inv _ v (sym (ap current p))

pub Reach-Inv : {w : ℕ} {o : ℕ → Bool} {s : System} → Reach (start w o) s → Inv s
Reach-Inv {w} {o} here = start-Inv w o
Reach-Inv (next r st) = Step-Inv st (Reach-Inv r)

-- Whatever the callbacks do with the dispatcher and whatever the kernel reports: a timer that is not
-- repeating fires at most once; every entry of the table has an open descriptor, which is its id,
-- which the kernel watches and which holds a setting; and no timer stands in the table twice.
pub timers_fire_once :
    (w : ℕ) (o : ℕ → Bool) (s : System)
    → Reach (start w o) s
    → ((n : ℕ) → shots n s.fired ≤ 1) × IsSound s.disp
timers_fire_once w o s r = let v = Reach-Inv r in (v.once, v.sound)
