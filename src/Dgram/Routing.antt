-- ===== src/Dgram/Routing.antt =====
-- Where the two paths of handle_readable in src/high/dgram.cpp send the datagrams of one batch.
use socketpp.Base.{
  ℕ, ◌≡◌, ◌∙◌, refl, sym, ap, ◌⊎◌, inl, inr, Bool, true, false, ◌==◌, ==_iff, List, [], ◌∷◌, ◌++◌,
  append_assoc, Bool-cases, Option-cases, arith, nat_eq,
}
use socketpp.Base.Map.{Map, lookup, erase, lookup-erase}
use socketpp.Dgram.{
  Dgram, Datagram, Job, on_error, on_data, on_data_batch, peer_data, flags, forward, route_one,
  route, claimed_open, gather,
}

-- The datagrams that jobs hand to the socket's own handlers, in order.
abbrev pub messages : List Job → List Datagram
messages [] = []
messages (on_error e ∷ js) = messages js
messages (on_data d ∷ js) = d ∷ messages js
messages (on_data_batch ds ∷ js) = ds ++ messages js
messages (peer_data p bytes ∷ js) = messages js

-- What jobs hand to the handlers of peers, in order.
abbrev pub forwards : List Job → List (ℕ × List ℕ)
forwards [] = []
forwards (on_error e ∷ js) = forwards js
forwards (on_data d ∷ js) = forwards js
forwards (on_data_batch ds ∷ js) = forwards js
forwards (peer_data p bytes ∷ js) = (p, bytes) ∷ forwards js

pub messages-append : (js ks : List Job) → messages (js ++ ks) ≡ messages js ++ messages ks
messages-append [] ks = refl
messages-append (on_error e ∷ js) ks = messages-append js ks
messages-append (on_data d ∷ js) ks = ap (λ l. d ∷ l) (messages-append js ks)
messages-append (on_data_batch ds ∷ js) ks =
    ap (λ l. ds ++ l) (messages-append js ks) ∙ sym (append_assoc ds (messages js) (messages ks))
messages-append (peer_data p bytes ∷ js) ks = messages-append js ks

pub forwards-append : (js ks : List Job) → forwards (js ++ ks) ≡ forwards js ++ forwards ks
forwards-append [] ks = refl
forwards-append (on_error e ∷ js) ks = forwards-append js ks
forwards-append (on_data d ∷ js) ks = forwards-append js ks
forwards-append (on_data_batch ds ∷ js) ks = forwards-append js ks
forwards-append (peer_data p bytes ∷ js) ks = ap (λ l. (p, bytes) ∷ l) (forwards-append js ks)

-- Erasing an entry whose peer is closed changes no other answer.
pub erase-keeps :
    (opened : ℕ → Bool) (m : Map ℕ ℕ) (k a : ℕ)
    → claimed_open opened m k ≡ false
    → claimed_open opened (erase k m) a ≡ claimed_open opened m a
erase-keeps opened m k a h = elim (Bool-cases (k == a)) [
  | inl same ↦ ground (arith, lookup-erase k a m, ==_iff k a)
  | inr other ↦ ground (arith, lookup-erase k a m)
]

pub gather-ext :
    (opened : ℕ → Bool) (m n : Map ℕ ℕ) (ds : List Datagram)
    → ((a : ℕ) → claimed_open opened m a ≡ claimed_open opened n a)
    → gather opened m ds ≡ gather opened n ds
unfolding gather
gather-ext opened m n [] h = refl
gather-ext opened m n (d ∷ ds) h = ground (arith, h d.from, gather-ext opened m n ds h)

pub forward-messages : (s : Dgram) (p : ℕ) (bytes : List ℕ) → messages (forward s p bytes) ≡ []
unfolding forward
forward-messages s p bytes = ground arith

-- One datagram: it goes to the socket's handlers, where only an entry of a closed peer is erased, or
-- to the open peer that claimed its source.
pub route_one-cases :
    (s : Dgram) (d : Datagram)
    → ((m : Map ℕ ℕ) × (route_one s d ≡ (record s { claimed_peers = m }, on_data d ∷ []))
        × (claimed_open (flags s) s.claimed_peers d.from ≡ false)
        × ((a : ℕ) → claimed_open (flags s) m a ≡ claimed_open (flags s) s.claimed_peers a))
      ⊎ ((p : ℕ) × (claimed_open (flags s) s.claimed_peers d.from ≡ true)
          × (route_one s d ≡ (s, forward s p d.bytes)))
unfolding route_one
route_one-cases s d = elim (Option-cases (lookup d.from s.claimed_peers)) [
  | inl h ↦ inl (s.claimed_peers, rw h refl, rw h refl, λ a. refl)
  | inr (p, h) ↦ elim (Bool-cases (flags s p)) [
    | inl o ↦ inr (p, rw h o, rw (h, o) refl)
    | inr c ↦
        let closed : claimed_open (flags s) s.claimed_peers d.from ≡ false = rw h c in
        inl (
          erase d.from s.claimed_peers,
          rw (h, c) refl,
          closed,
          λ a. erase-keeps (flags s) s.claimed_peers d.from a closed,
        )
  ]
]

-- Where `on_data` is set, the datagrams handed to it are those of the batch whose source no open
-- peer has claimed, in order; an entry is erased only if its peer is closed, and no peer changes.
pub route-unclaimed :
    (s : Dgram) (ds : List Datagram)
    → (messages (route s ds).1 ≡ gather (flags s) s.claimed_peers ds)
      × ((route s ds).0.peers ≡ s.peers)
      × ((a : ℕ)
          → claimed_open (flags s) (route s ds).0.claimed_peers a
            ≡ claimed_open (flags s) s.claimed_peers a)
unfolding route gather
route-unclaimed s [] = (refl, refl, λ a. refl)
route-unclaimed s (d ∷ ds) = elim (route_one-cases s d) [
  | inl (m, e, c, same) ↦
      let (im, ip, ia) = route-unclaimed (record s { claimed_peers = m }) ds in
      rw (e, c)
        (
          ap (λ l. d ∷ l) (im ∙ gather-ext (flags s) m s.claimed_peers ds same),
          ip,
          λ a. ia a ∙ same a,
        )
  | inr (p, o, e) ↦
      let (im, ip, ia) = route-unclaimed s ds in
      rw (e, o)
        (
          messages-append (forward s p d.bytes) (route s ds).1
              ∙ ap (λ l. l ++ messages (route s ds).1) (forward-messages s p d.bytes)
              ∙ im,
          ip,
          ia,
        )
]

-- Nothing but the claims changes.
pub route-state :
    (s : Dgram) (ds : List Datagram)
    → (route s ds).0 ≡ record s { claimed_peers = (route s ds).0.claimed_peers }
unfolding route
route-state s [] = refl
route-state s (d ∷ ds) = elim (route_one-cases s d) [
  | inl (m, e, c, same) ↦ rw e (route-state (record s { claimed_peers = m }) ds)
  | inr (p, o, e) ↦ rw e (route-state s ds)
]

pub gather-append :
    (opened : ℕ → Bool) (m : Map ℕ ℕ) (xs ys : List Datagram)
    → gather opened m (xs ++ ys) ≡ gather opened m xs ++ gather opened m ys
unfolding gather
gather-append opened m [] ys = refl
gather-append opened m (x ∷ xs) ys = ground (arith, gather-append opened m xs ys)
