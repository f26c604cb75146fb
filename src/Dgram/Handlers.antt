-- ===== src/Dgram/Handlers.antt =====
-- Which of the socket's own handlers the jobs of handle_readable in src/high/dgram.cpp go to.
use socketpp.Base.{
  ℕ, ◌≡◌, ◌∙◌, refl, inl, inr, Bool, true, false, ◌&&◌, not, some, List, [], ◌-◌, length, replicate,
  ◌∷◌, ◌++◌, Bool-cases, Option-cases, arith, nat_eq,
}
use socketpp.Base.Map.{lookup}
use socketpp.Dgram.{
  Dgram, Datagram, Job, on_error, on_data, on_data_batch, peer_data, flags, forward, route_one,
  route, gather, survey_one, empty_message, Survey, survey, new_survey, batch, finish_batch,
}
use socketpp.Dgram.Routing.{route_one-cases}

-- The datagrams for the socket itself go to `on_data_batch` (`true`), or all of them to `on_data`.
abbrev pub only_to : Bool → List Job → Bool
only_to b [] = true
only_to b (on_error e ∷ js) = only_to b js
only_to b (on_data d ∷ js) = not b && only_to b js
only_to b (on_data_batch ds ∷ js) = b && only_to b js
only_to b (peer_data p bytes ∷ js) = only_to b js

pub only_to-append :
    (b : Bool) (js ks : List Job) → only_to b (js ++ ks) ≡ (only_to b js && only_to b ks)
only_to-append b [] ks = refl
only_to-append b (on_error e ∷ js) ks = only_to-append b js ks
only_to-append b (on_data d ∷ js) ks = ground (arith, only_to-append b js ks)
only_to-append b (on_data_batch ds ∷ js) ks = ground (arith, only_to-append b js ks)
only_to-append b (peer_data p bytes ∷ js) ks = only_to-append b js ks

forward-only_to :
    (b : Bool) (s : Dgram) (p : ℕ) (bytes : List ℕ) → only_to b (forward s p bytes) ≡ true
unfolding forward
forward-only_to b s p bytes = ground arith

route_one-only_to : (s : Dgram) (d : Datagram) → only_to false (route_one s d).1 ≡ true
route_one-only_to s d = elim (route_one-cases s d) [
  | inl (m, e, c, a) ↦ rw e refl
  | inr (p, c, e) ↦ rw e (forward-only_to false s p d.bytes)
]

pub route-only_to : (s : Dgram) (ds : List Datagram) → only_to false (route s ds).1 ≡ true
unfolding route
route-only_to s [] = refl
route-only_to s (d ∷ ds) =
    let one = route_one s d in
    ground (
      arith,
      only_to-append false one.1 (route one.0 ds).1,
      route_one-only_to s d,
      route-only_to one.0 ds,
    )

survey_one-only_to :
    (s : Dgram) (v : Survey) (d : Datagram)
    → only_to true v.forwarded ≡ true
    → only_to true (survey_one s v d).forwarded ≡ true
unfolding survey_one
survey_one-only_to s v d h = elim (Option-cases (lookup d.from v.claimed)) [
  | inl n ↦ rw n h
  | inr (p, e) ↦ elim (Bool-cases (flags s p)) [
    | inl o ↦
        rw (e, o)
          (only_to-append true v.forwarded (forward s p d.bytes)
            ∙ ground (arith, h, forward-only_to true s p d.bytes))
    | inr c ↦ rw (e, c) h
  ]
]

survey-only_to :
    (s : Dgram) (ds : List Datagram) (v : Survey)
    → only_to true v.forwarded ≡ true
    → only_to true (survey s v ds).forwarded ≡ true
unfolding survey
survey-only_to s [] v h = h
survey-only_to s (d ∷ ds) v h = survey-only_to s ds (survey_one s v d) (survey_one-only_to s v d h)

finish_batch-only_to :
    (s t : Dgram) (v : Survey) (copied : List Datagram) (js : List Job)
    → only_to true v.forwarded ≡ true
    → finish_batch s v copied ≡ some (t, js)
    → only_to true js ≡ true
unfolding finish_batch
finish_batch-only_to s t v copied js h e =
    let padding = replicate (v.unclaimed_count - length copied) empty_message in
    ground (arith, h, e, only_to-append true v.forwarded (on_data_batch (copied ++ padding) ∷ []))

pub batch-only_to :
    (s t : Dgram) (later : ℕ → Bool) (ds : List Datagram) (js : List Job)
    → batch s later ds ≡ some (t, js)
    → only_to true js ≡ true
unfolding batch
batch-only_to s t later ds js e =
    let v = survey s (new_survey s) ds in
    finish_batch-only_to s t v (gather later v.claimed ds) js
      (survey-only_to s ds (new_survey s) refl) e
