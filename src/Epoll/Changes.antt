-- ===== src/Epoll/Changes.antt =====
-- What an action does to the timers of src/event/epoll.cpp keeps them sound.
use socketpp.Base.{
  ℕ, ◌≤◌, ◌<◌, ◌≡◌, ◌∙◌, sym, ap, ◌⊎◌, inl, inr, none, some, arith, nat_eq, Option-cases,
}
use socketpp.Base.Map.{lookup, insert, erase, lookup-erase, lookup-insert}
use socketpp.Epoll.{TimerInfo, Dispatcher, cancel_timer, finish_timer}
use socketpp.Epoll.System.{Acts}
use socketpp.Epoll.Invariant.{
  IsSound, Change, kept, dropped, added, Acts-Change, Change-single, Change-old,
}
use socketpp.Epoll.Backing.{Acts-Backed, Acts-new}

pub Change-nodes : {d e : Dispatcher} → Change d e → d.nodes ≤ e.nodes
Change-nodes (kept t n) = omega arith
Change-nodes (dropped fd t n) = omega arith
Change-nodes (added fd i t m n free) = omega arith

pub Change-new :
    {d e : Dispatcher} (g : ℕ) (i : TimerInfo)
    → Change d e
    → lookup g d.timer_callbacks ≡ none
    → lookup g e.timer_callbacks ≡ some i
    → (i.node ≡ d.nodes) × (i.node < e.nodes)
Change-new {d} g i (kept t n) a b =
    let b' : lookup g d.timer_callbacks ≡ some i = rw t at b in ground (arith, b', a)
Change-new {d} g i (dropped fd t n) a b =
    let b' : lookup g (erase fd d.timer_callbacks) ≡ some i = rw t at b in
    ground (arith, b', a, lookup-erase fd g d.timer_callbacks)
Change-new {d} g i (added fd k t m n free) a b =
    let b' : lookup g (insert fd k d.timer_callbacks) ≡ some i = rw t at b in
    ground (arith, b', a, m, n, lookup-insert fd g k d.timer_callbacks)

pub Acts-IsSound : {d e : Dispatcher} → IsSound d → Acts d e → IsSound e
Acts-IsSound {d} {e} v a = record {
  live = λ fd i h. elim (Option-cases (lookup fd d.timer_callbacks)) [
    | inl n ↦
        let (b, k) = Acts-new fd i a n h in
        let (p, q) = Change-new fd i (Acts-Change v a) n h in (b.0, b.1, b.2, k, q)
    | inr (j, o) ↦
        let same = Change-old fd i j (Acts-Change v a) o h in
        let was : lookup fd d.timer_callbacks ≡ some i = o ∙ ap some (sym same) in
        let (x, y, z, k, n) = v.live fd i was in
        let b = Acts-Backed fd i v a was h (x, y, z) in
        (b.0, b.1, b.2, k, omega (arith, n, Change-nodes (Acts-Change v a)))
  ];
  single = Change-single v (Acts-Change v a);
}

pub finish_timer-Acts :
    {d e : Dispatcher} (fd : ℕ) (info : TimerInfo)
    → finish_timer d fd info ≡ some e
    → (e ≡ d) ⊎ (e ≡ cancel_timer d fd)
unfolding finish_timer cancel_timer
finish_timer-Acts {d} fd info h = elim (Option-cases (lookup fd d.timer_callbacks)) [
  | inl n ↦ ground (arith, h, n)
  | inr (j, o) ↦ ground (arith, h, o)
]
