-- ===== src/Dgram/Claims/Outcome.antt =====
-- What holds of the peers of src/high/dgram.cpp, whatever threads claim, relinquish and receive.
use socketpp.Base.{
  inl, inr, ◌⊎◌, ℕ, ◌≡◌, ◌≢◌, refl, Bool, true, false, none, some, [], ◌∷◌, ◌==◌, ==_iff, arith,
  nat_eq, Bool-cases,
}
use socketpp.Base.Map.{Map, lookup}
use socketpp.Dgram.{Dgram, Datagram, Peer, route_one, forward}
use socketpp.Dgram.Claims.{new_peer, peer_relinquish, relinquish_each, relinquish_all}
use socketpp.Dgram.Claims.Life.{System, steady, Reach}
use socketpp.Dgram.Claims.Keeping.{Inv, Reach-Inv}

-- A socket with no peers, among peers that threads are about to claim.
pub record IsNew (s : System) : Type 0 where
  pub no_claims : s.socket.claimed_peers ≡ []
  pub unclaimed : (p : ℕ) → s.owner p ≡ none
  pub peers : (p : ℕ) → (with_data : Bool) × (s.socket.peers p ≡ new_peer with_data)
  pub at_rest : (p : ℕ) → s.stage p ≡ steady

pub new-Inv : {s : System} → IsNew s → Inv s.socket s.owner s.stage
unfolding lookup
new-Inv {s} n = record {
  listed = λ p a o h. ground (arith, o, n.unclaimed p);
  owned = λ a p h. let h' : none ≡ some p = rw n.no_claims at h in cc;
  equipped = λ p a o h. ground (arith, o, n.unclaimed p);
  ended = λ p h. absurd (h (n.at_rest p));
  opened = λ p h. let (w, e) = n.peers p in ground (arith, e, h);
  demuxed = λ p h. let (w, e) = n.peers p in ground (arith, e, h);
}

-- An address has one open peer at most, and datagrams from it are not handed to the socket's own
-- handler but to that peer, or dropped where the kernel routes to the peer's own socket; and a peer
-- whose socket is open is itself open, or a thread is in the middle of relinquishing it: it has
-- cleared the peer's flag and not yet closed the socket.
pub claims_are_exclusive :
    (s t : System)
    → IsNew s
    → Reach s t
    → ((d : Datagram) (p q : ℕ)
        → t.owner p ≡ some d.from
        → (t.socket.peers p).is_open ≡ true
        → (t.owner q ≡ some d.from → (t.socket.peers q).is_open ≡ true → q ≡ p)
          × (route_one t.socket d ≡ (t.socket, forward t.socket p d.bytes)))
      × ((p : ℕ)
          → (t.socket.peers p).socket_open ≡ true
          → ((t.socket.peers p).is_open ≡ true)
            ⊎ (((t.socket.peers p).is_open ≡ false) × (t.stage p ≢ steady)))
unfolding route_one
claims_are_exclusive s t n r =
    let v = Reach-Inv r (new-Inv n) in
    (
      λ d p q o h.
          let there = v.listed p d.from o h in
          (λ o' h'. ground (arith, v.listed q d.from o' h', there), rw (there, h) refl),
      λ p h. elim (v.opened p h) [ inl o ↦ inl o | inr m ↦ inr (v.ended p m, m) ],
    )

-- What is left of a peer that was relinquished as a whole.
record Shut (x : Peer) : Type 0 where
  pub ended : x.is_open ≡ false
  pub closed : x.socket_open ≡ false
  pub forgotten : x.registered ≡ false

peer_relinquish-Shut :
    (s : Dgram) (p : ℕ)
    → s.kernel_demux ≡ true
    → (s.peers p).is_open ≡ true
    → (s.peers p).socket_open ≡ true
    → Shut ((peer_relinquish s p).peers p)
unfolding peer_relinquish
peer_relinquish-Shut s p k o h = record {
  ended = ground (arith, ==_iff p p);
  closed = ground (arith, ==_iff p p);
  forgotten = ground (arith, ==_iff p p);
}

peer_relinquish-keeps :
    (s : Dgram) (p q : ℕ)
    → ((s.peers q).is_open ≡ false → ((peer_relinquish s p).peers q).is_open ≡ false)
      × ((s.peers q).socket_open ≡ false → ((peer_relinquish s p).peers q).socket_open ≡ false)
      × ((s.peers q).registered ≡ false → ((peer_relinquish s p).peers q).registered ≡ false)
      × ((p == q) ≡ false → (peer_relinquish s p).peers q ≡ s.peers q)
unfolding peer_relinquish
peer_relinquish-keeps s p q = (
  λ h. ground (arith, h, ==_iff q p),
  λ h. ground (arith, h, ==_iff q p),
  λ h. ground (arith, h, ==_iff q p),
  λ h. ground (arith, h, ==_iff q p, ==_iff p q),
)

relinquish_each-keeps :
    (m : Map ℕ ℕ) (s : Dgram) (q : ℕ)
    → ((s.peers q).is_open ≡ false → ((relinquish_each m s).peers q).is_open ≡ false)
      × ((s.peers q).socket_open ≡ false → ((relinquish_each m s).peers q).socket_open ≡ false)
      × ((s.peers q).registered ≡ false → ((relinquish_each m s).peers q).registered ≡ false)
unfolding relinquish_each
relinquish_each-keeps [] s q = (λ h. h, λ h. h, λ h. h)
relinquish_each-keeps ((a, p) ∷ m) s q =
    let (i, j, k) = relinquish_each-keeps m (peer_relinquish s p) q in
    let (x, y, z, w) = peer_relinquish-keeps s p q in (λ h. i (x h), λ h. j (y h), λ h. k (z h))

relinquish_each-Shut :
    (m : Map ℕ ℕ) (s : Dgram) (a q : ℕ)
    → lookup a m ≡ some q
    → s.kernel_demux ≡ true
    → (s.peers q).is_open ≡ true
    → (s.peers q).socket_open ≡ true
    → Shut ((relinquish_each m s).peers q)
unfolding relinquish_each lookup peer_relinquish
relinquish_each-Shut [] s a q e k o h = cc
relinquish_each-Shut ((b, p) ∷ m) s a q e k o h = elim (Bool-cases (p == q)) [
  | inl hit ↦
      let same : p ≡ q = (==_iff p q).0 hit in
      let x = peer_relinquish-Shut s q k o h in
      let (i, j, f) = relinquish_each-keeps m (peer_relinquish s q) q in
      rw same (record { ended = i x.ended; closed = j x.closed; forgotten = f x.forgotten })
  | inr miss ↦
      let still = (peer_relinquish-keeps s p q).3 miss in
      let later : lookup a m ≡ some q = ground (arith, e, miss, ==_iff p q) in
      relinquish_each-Shut m (peer_relinquish s p) a q later k (rw still o) (rw still h)
]

-- Where the kernel routes to the peers' sockets, the callback that the destruction of the socket posts,
-- run with no other thread between its steps, leaves no claim and no open peer of all that were ever
-- claimed. It closes the socket of each peer that it finds open and takes it out of the dispatcher;
-- the socket of each other peer is closed already, unless another thread is in the middle of
-- relinquishing that peer.
pub destroy_closes_every_peer :
    (s t : System) (p a : ℕ)
    → IsNew s
    → Reach s t
    → t.owner p ≡ some a
    → t.socket.kernel_demux ≡ true
    → let u = relinquish_all t.socket in
      ((u.peers p).is_open ≡ false)
      × (((u.peers p).socket_open ≡ false)
          ⊎ (((t.socket.peers p).is_open ≡ false) × (t.stage p ≢ steady)))
      × (((u.peers p).registered ≡ false) ⊎ ((t.socket.peers p).is_open ≡ false))
      × (u.claimed_peers ≡ [])
unfolding relinquish_all
destroy_closes_every_peer s t p a n r o k =
    let v = Reach-Inv r (new-Inv n) in
    let (i, j, f) = relinquish_each-keeps t.socket.claimed_peers t.socket p in
    elim (Bool-cases (t.socket.peers p).is_open) [
      | inl h ↦
          let x =
            relinquish_each-Shut t.socket.claimed_peers t.socket a p (v.listed p a o h) k h
              (ground (arith, v.equipped p a o h, k)) in
          (x.ended, inl x.closed, inl x.forgotten, refl)
      | inr c ↦ elim (Bool-cases (t.socket.peers p).socket_open) [
        | inr shut ↦ (i c, inl (j shut), inr c, refl)
        | inl held ↦
            let busy : t.stage p ≢ steady = elim (v.opened p held) [
              | inl h ↦ absurd (ground (arith, h, c))
              | inr m ↦ m
            ] in
            (i c, inr (c, busy), inr c, refl)
      ]
    ]
