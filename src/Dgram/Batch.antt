-- ===== src/Dgram/Batch.antt =====
-- The batch path of handle_readable in src/high/dgram.cpp: two loops over one batch.
use socketpp.Base.{
  ltb, replicate, ◌-◌, ℕ, suc, ◌+◌, ◌≡◌, ◌∙◌, refl, sym, ap, ◌⊎◌, inl, inr, true, false, ◌==◌, some,
  List, [], ◌∷◌, ◌++◌, append_assoc, append-nil, length, Bool-cases, Option-cases, arith, nat_eq,
}
use socketpp.Base.Map.{Map, lookup, erase}
use socketpp.Dgram.{
  Dgram, Datagram, Job, on_data, on_data_batch, flags, forward, route_one, survey_one, route,
  claimed_open, gather, size, empty_message, Survey, survey, new_survey, batch, finish_batch,
}
use socketpp.Dgram.Routing.{
  messages, forwards, messages-append, forwards-append, erase-keeps, gather-ext, route-state,
  forward-messages, route-unclaimed,
}

abbrev at_claims : Dgram → Map ℕ ℕ → Dgram
at_claims s m = record s { claimed_peers = m }

-- One datagram in the first loop and on the path of `on_data`: the same claims are erased, and the
-- same is forwarded.
survey_one-cases :
    (s : Dgram) (v : Survey) (d : Datagram)
    → ((m : Map ℕ ℕ) × (survey_one s v d ≡ record v {
      claimed = m;
      total_bytes = v.total_bytes + length d.bytes;
      unclaimed_count = suc v.unclaimed_count;
    })
        × (route_one (at_claims s v.claimed) d ≡ (at_claims s m, on_data d ∷ []))
        × (claimed_open (flags s) v.claimed d.from ≡ false)
        × ((a : ℕ) → claimed_open (flags s) m a ≡ claimed_open (flags s) v.claimed a))
      ⊎ ((p : ℕ) × (survey_one s v d ≡ record v { forwarded = v.forwarded ++ forward s p d.bytes })
          × (route_one (at_claims s v.claimed) d ≡ (at_claims s v.claimed, forward s p d.bytes))
          × (claimed_open (flags s) v.claimed d.from ≡ true))
unfolding survey_one route_one forward
survey_one-cases s v d = elim (Option-cases (lookup d.from v.claimed)) [
  | inl h ↦ inl (v.claimed, rw h refl, rw h refl, rw h refl, λ a. refl)
  | inr (p, h) ↦ elim (Bool-cases (flags s p)) [
    | inl o ↦ inr (p, rw (h, o) refl, rw (h, o) refl, rw h o)
    | inr c ↦
        let closed : claimed_open (flags s) v.claimed d.from ≡ false = rw h c in
        inl (
          erase d.from v.claimed,
          rw (h, c) refl,
          rw (h, c) refl,
          closed,
          λ a. erase-keeps (flags s) v.claimed d.from a closed,
        )
  ]
]

abbrev Counts : Dgram → Survey → Map ℕ ℕ → List Datagram → Survey → List Job → Type 0
Counts s v m ds w js =
    (w.claimed ≡ m)
    × (w.unclaimed_count ≡ v.unclaimed_count + length (gather (flags s) v.claimed ds))
    × (w.total_bytes ≡ v.total_bytes + size (gather (flags s) v.claimed ds))
    × (forwards w.forwarded ≡ forwards v.forwarded ++ forwards js)
    × (messages w.forwarded ≡ messages v.forwarded)

forwarded-step :
    (fs : List (ℕ × List ℕ)) (v : List Job) (k js : List Job)
    → fs ≡ forwards (v ++ k) ++ forwards js
    → fs ≡ forwards v ++ forwards (k ++ js)
forwarded-step fs v k js h =
    h
    ∙ ap (λ l. l ++ forwards js) (forwards-append v k)
    ∙ append_assoc (forwards v) (forwards k) (forwards js)
    ∙ ap (λ l. forwards v ++ l) (sym (forwards-append k js))

survey-cons :
    (s : Dgram) (v : Survey) (d : Datagram) (ds : List Datagram)
    → survey s v (d ∷ ds) ≡ survey s (survey_one s v d) ds
unfolding survey
survey-cons s v d ds = refl

survey-nil : (s : Dgram) (v : Survey) → survey s v [] ≡ v
unfolding survey
survey-nil s v = refl

-- The first loop counts what `gather` keeps, and does to the claims and for the peers what the path
-- of `on_data` does.
pub survey-Counts :
    (s : Dgram) (ds : List Datagram) (v : Survey)
    → let r = route (at_claims s v.claimed) ds in
      Counts s v r.0.claimed_peers ds (survey s v ds) r.1
unfolding route gather
survey-Counts s [] v =
    rw (survey-nil s v) (refl, omega arith, omega arith, sym (append-nil _), refl)
survey-Counts s (d ∷ ds) v = elim (survey_one-cases s v d) [
  | inl (m, e, r, c, same) ↦
      rw (survey-cons s v d ds, e, r, c)
        (let (i, j, k, f, g) = survey-Counts s ds _ in
          let kept = gather-ext (flags s) m v.claimed ds same in
          (i, omega (arith, j, ap length kept), omega (arith, k, ap size kept), f, g))
  | inr (p, e, r, o) ↦
      rw (survey-cons s v d ds, e, r, o)
        (let (i, j, k, f, g) = survey-Counts s ds _ in
          (
            i,
            j,
            k,
            forwarded-step _ v.forwarded (forward s p d.bytes) _ f,
            g
                ∙ messages-append v.forwarded (forward s p d.bytes)
                ∙ ap (λ l. messages v.forwarded ++ l) (forward-messages s p d.bytes)
                ∙ append-nil _,
          ))
]

ltb_self : (n : ℕ) → ltb n n ≡ false
ltb_self n = ground arith

suc==0 : (n : ℕ) → (suc n == 0) ≡ false
suc==0 n = ground arith

padded : (ds : List Datagram) (n : ℕ) → ds ++ replicate (n - n) empty_message ≡ ds
padded ds n =
    let zero_left : n - n ≡ 0 = omega arith in
    ap (λ k. ds ++ replicate k empty_message) zero_left ∙ append-nil ds

finish_batch-exact :
    (s : Dgram) (v : Survey) (copied : List Datagram)
    → v.unclaimed_count ≡ length copied
    → v.total_bytes ≡ size copied
    → (t : Dgram) × (js : List Job) × (finish_batch s v copied ≡ some (t, js))
      × (messages js ≡ messages v.forwarded ++ copied)
      × (forwards js ≡ forwards v.forwarded)
      × (t ≡ at_claims s v.claimed)
unfolding finish_batch
finish_batch-exact s v [] n b = rw n (_, _, refl, sym (append-nil _), refl, refl)
finish_batch-exact s v (d ∷ ds) n b = (
  record s { claimed_peers = v.claimed },
  v.forwarded ++ on_data_batch (d ∷ ds) ∷ [],
  rw
      (
        n,
        b,
        suc==0 (length ds),
        ltb_self (suc (length ds)),
        ltb_self (length d.bytes + size ds),
        padded (d ∷ ds) (suc (length ds)),
      )
      refl,
  messages-append v.forwarded _ ∙ ap (λ l. messages v.forwarded ++ l) (append-nil _),
  forwards-append v.forwarded _ ∙ append-nil _,
  refl,
)

-- Where no peer is relinquished between the two loops, the second stays inside the buffers, and
-- `on_data_batch` gets the datagrams that `on_data` would get one by one, in order; the same is
-- forwarded to peers, and the same entries are erased.
pub single_and_batch_agree :
    (s : Dgram) (ds : List Datagram)
    → (t : Dgram) × (js : List Job) × (batch s (flags s) ds ≡ some (t, js))
      × (messages js ≡ messages (route s ds).1)
      × (forwards js ≡ forwards (route s ds).1)
      × (t ≡ (route s ds).0)
unfolding batch
single_and_batch_agree s ds =
    let (c, n, b, f, m) = survey-Counts s ds (new_survey s) in
    let (rm, rp, ra) = route-unclaimed s ds in
    let v = survey s (new_survey s) ds in
    let same : gather (flags s) v.claimed ds ≡ gather (flags s) s.claimed_peers ds =
      ap (λ k. gather (flags s) k ds) c
      ∙ gather-ext (flags s) (route s ds).0.claimed_peers s.claimed_peers ds ra in
    let (t, js, e, x, y, z) =
      finish_batch-exact s v (gather (flags s) v.claimed ds) (omega (arith, n, ap length same))
        (omega (arith, b, ap size same)) in
    (
      t,
      js,
      e,
      x ∙ ap (λ l. l ++ gather (flags s) v.claimed ds) m ∙ same ∙ sym rm,
      y ∙ f,
      z ∙ ap (at_claims s) c ∙ sym (route-state s ds),
    )
