-- ===== src/Dgram/Race.antt =====
-- The batch path of handle_readable in src/high/dgram.cpp, where another thread relinquishes a peer
-- between its two loops.
use socketpp.Base.{
  ℕ, ◌≤◌, ◌<◌, ◌≡◌, ◌∙◌, refl, sym, ap, inl, inr, Bool, true, false, Option, none, some, List, [],
  ◌∷◌, ◌++◌, length, Bool-cases, Option-cases, arith, nat_eq,
}
use socketpp.Base.Map.{Map, lookup, erase, lookup-erase}
use socketpp.Dgram.{
  Dgram, Datagram, flags, route_one, route, claimed_open, open_claim, gather, survey, new_survey,
  batch, finish_batch,
}
use socketpp.Dgram.Routing.{route-unclaimed}
use socketpp.Dgram.Batch.{survey-Counts}

-- Handling a datagram adds no entry.
route_one-lookup :
    (s : Dgram) (d : Datagram) (a p : ℕ)
    → lookup a (route_one s d).0.claimed_peers ≡ some p
    → lookup a s.claimed_peers ≡ some p
unfolding route_one
route_one-lookup s d a p h = elim (Option-cases (lookup d.from s.claimed_peers)) [
  | inl n ↦ rw n at h
  | inr (q, f) ↦ elim (Bool-cases (flags s q)) [
    | inl o ↦ rw (f, o) at h
    | inr c ↦
        let g : lookup a (erase d.from s.claimed_peers) ≡ some p = rw (f, c) at h in
        ground (arith, g, lookup-erase d.from a s.claimed_peers)
  ]
]

pub route-lookup :
    (s : Dgram) (ds : List Datagram) (a p : ℕ)
    → lookup a (route s ds).0.claimed_peers ≡ some p
    → lookup a s.claimed_peers ≡ some p
unfolding route
route-lookup s [] a p h = h
route-lookup s (d ∷ ds) a p h = route_one-lookup s d a p (route-lookup (route_one s d).0 ds a p h)

module _ (now later : ℕ → Bool) (m n : Map ℕ ℕ)
    (fewer : (a : ℕ) → claimed_open later n a ≡ true → claimed_open now m a ≡ true) where
  gather-le : (ds : List Datagram) → length (gather now m ds) ≤ length (gather later n ds)
  unfolding gather
  gather-le [] = omega arith
  gather-le (d ∷ ds) = ground (arith, gather-le ds, fewer d.from)

  -- A datagram whose peer was open and is closed now is copied, but was not counted.
  gather-lt :
      (before : List Datagram) (d : Datagram) (after : List Datagram)
      → claimed_open now m d.from ≡ true
      → claimed_open later n d.from ≡ false
      → length (gather now m (before ++ d ∷ after)) < length (gather later n (before ++ d ∷ after))
  unfolding gather
  gather-lt [] d after o c = rw (o, c) (omega (arith, gather-le after))
  gather-lt (b ∷ before) d after o c = ground (arith, gather-lt before d after o c, fewer b.from)

open_later :
    (now later : ℕ → Bool) (o : Option ℕ)
    → ((p : ℕ) → later p ≡ true → now p ≡ true)
    → open_claim later o ≡ true
    → open_claim now o ≡ true
open_later now later none h k = k
open_later now later (some p) h k = h p k

-- A peer that another thread relinquishes between the two loops of the batch path makes the second
-- write past the end of the buffers: if some datagram of the batch is not claimed, and that of an
-- open peer is in the batch whose flag the second loop reads as closed, `batch` has no result.
pub relinquish_overruns_buffers :
    (s : Dgram) (later : ℕ → Bool) (before : List Datagram) (d : Datagram) (after : List Datagram)
    (p : ℕ)
    → ((q : ℕ) → later q ≡ true → flags s q ≡ true)
    → lookup d.from s.claimed_peers ≡ some p
    → flags s p ≡ true
    → later p ≡ false
    → 0 < length (gather (flags s) s.claimed_peers (before ++ d ∷ after))
    → batch s later (before ++ d ∷ after) ≡ none
unfolding batch finish_batch
relinquish_overruns_buffers s later before d after p mono h o c pos =
    let ds = before ++ d ∷ after in
    let v = survey s (new_survey s) ds in
    let (cl, n, b, f, g) = survey-Counts s ds (new_survey s) in
    let (rm, rp, ra) = route-unclaimed s ds in
    let fewer : (a : ℕ)
        → claimed_open later v.claimed a ≡ true
        → claimed_open (flags s) s.claimed_peers a ≡ true =
      λ a k.
        sym (ra a)
        ∙ sym (ap (λ m. claimed_open (flags s) m a) cl)
        ∙ open_later (flags s) later (lookup a v.claimed) mono k in
    let closed : claimed_open later v.claimed d.from ≡ false =
      elim (Option-cases (lookup d.from v.claimed)) [
        | inl e ↦ rw e refl
        | inr (q, e) ↦
            let back = route-lookup s ds d.from q (ap (λ m. lookup d.from m) (sym cl) ∙ e) in
            ground (arith, e, back, h, c)
      ] in
    let more =
      gather-lt (flags s) later s.claimed_peers v.claimed fewer before d after
        (ap (open_claim (flags s)) h ∙ o) closed in
    ground (arith, n, more, pos)
