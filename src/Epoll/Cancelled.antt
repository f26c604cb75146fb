-- ===== src/Epoll/Cancelled.antt =====
-- A cancelled timer of src/event/epoll.cpp.
use socketpp.Base.{
  ℕ, ◌<◌, ◌≡◌, ◌≢◌, ◌∙◌, refl, sym, ap, inl, inr, Bool, ==_iff, some, arith, nat_eq, Option-cases,
}
use socketpp.Base.Map.{lookup, lookup-erase}
use socketpp.Epoll.{TimerInfo, Dispatcher, cancel_timer, drop_timer}
use socketpp.Epoll.System.{
  Acts, cancels, System, start, Step, acts, polls, polled, drains, fires, finishes, breaks,
  dispatches, ignores, returns, Reach, here, next,
}
use socketpp.Epoll.Invariant.{IsSound, Acts-Change, Change-old}
use socketpp.Epoll.Changes.{Change-nodes, Change-new, finish_timer-Acts}
use socketpp.Epoll.Once.{count-append, Acts-Inv, Step-Inv, Reach-Inv, Inv, count}

-- No entry has the node `n`, and none will.
abbrev IsGone : ℕ → System → Type 0
IsGone n s =
    (n < s.disp.nodes)
    × ((fd : ℕ) (i : TimerInfo) → lookup fd s.disp.timer_callbacks ≡ some i → i.node ≢ n)

Acts-IsGone :
    {d e : Dispatcher} (n : ℕ)
    → IsSound d
    → Acts d e
    → n < d.nodes
    → ((fd : ℕ) (i : TimerInfo) → lookup fd d.timer_callbacks ≡ some i → i.node ≢ n)
    → (fd : ℕ) (i : TimerInfo) → lookup fd e.timer_callbacks ≡ some i
    → i.node ≢ n
Acts-IsGone {d} n v a l g fd i h = elim (Option-cases (lookup fd d.timer_callbacks)) [
  | inl none_there ↦ omega (arith, (Change-new fd i (Acts-Change v a) none_there h).0)
  | inr (j, o) ↦ g fd i (o ∙ ap some (sym (Change-old fd i j (Acts-Change v a) o h)))
]

Step-IsGone :
    {s t : System} (n : ℕ)
    → Step s t
    → IsSound s.disp
    → IsGone n s
    → IsGone n t × (count n t.fired ≡ count n s.fired)
Step-IsGone n (acts d b a) v (l, g) =
    ((omega (arith, Change-nodes (Acts-Change v a)), Acts-IsGone n v a l g), refl)
Step-IsGone n (polls es p k) v g = (g, refl)
Step-IsGone n (polled p) v g = (g, refl)
Step-IsGone n (drains e es p) v g = (g, refl)
Step-IsGone {s} n (fires fd e es info p w h) v g =
    (g, ground (arith, count-append n s.fired info, g.1 fd info h, ==_iff info.node n))
Step-IsGone {s} n (finishes fd info es d p h) v g = elim (finish_timer-Acts fd info h) [
  | inl e ↦ rw e (g, refl)
  | inr e ↦
      let a : Acts s.disp (cancel_timer s.disp fd) = cancels fd in
      rw e ((omega (arith, Change-nodes (Acts-Change v a), g.0), Acts-IsGone n v a g.0 g.1), refl)
]
Step-IsGone n (breaks fd info es p h) v g = (g, refl)
Step-IsGone n (dispatches fd e es cb p w h k) v g = (g, refl)
Step-IsGone n (ignores fd e es p w h k) v g = (g, refl)
Step-IsGone n (returns es p) v g = (g, refl)

Reach-IsGone :
    {s t : System} (n : ℕ)
    → Reach s t
    → Inv s
    → IsGone n s
    → IsGone n t × (count n t.fired ≡ count n s.fired) × Inv t
Reach-IsGone n here v g = (g, refl, v)
Reach-IsGone n (next r st) v g =
    let (h, c, w) = Reach-IsGone n r v g in
    let (k, e) = Step-IsGone n st w.sound h in (k, e ∙ c, Step-Inv st w)

-- A timer that has been cancelled never fires again, also where its event is in the batch at hand or
-- its descriptor is used again for another timer.
pub cancelled_timer_never_fires :
    (w : ℕ) (o : ℕ → Bool) (s t : System) (fd : ℕ) (i : TimerInfo)
    → Reach (start w o) s
    → lookup fd s.disp.timer_callbacks ≡ some i
    → Reach (record s { disp = cancel_timer s.disp fd }) t
    → count i.node t.fired ≡ count i.node s.fired
unfolding cancel_timer drop_timer
cancelled_timer_never_fires w o s t fd i r h q =
    let v = Reach-Inv r in
    let gone : IsGone i.node (record s { disp = drop_timer s.disp fd }) = (
      ground (arith, v.sound.live fd i h),
      λ g j k. ground (
        arith,
        k,
        lookup-erase fd g s.disp.timer_callbacks,
        v.sound.single g fd j i,
        h,
        ==_iff fd g,
      ),
    ) in
    let here_now : cancel_timer s.disp fd ≡ drop_timer s.disp fd = rw h refl in
    let gone' : IsGone i.node (record s { disp = cancel_timer s.disp fd }) = rw here_now gone in
    (Reach-IsGone i.node q (Acts-Inv v (cancels fd)) gone').1
