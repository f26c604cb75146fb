-- ===== src/Dgram/Claims/Keeping.antt =====
-- What every step of the life of a peer of src/high/dgram.cpp keeps.
use socketpp.Base.{
  ℕ, ◌≡◌, ◌≢◌, ◌⊎◌, inl, inr, Bool, true, false, Option, none, some, ◌==◌, ==_iff, arith, nat_eq,
  Bool-cases, Option-cases,
}
use socketpp.Base.Map.{lookup, insert, lookup-erase, lookup-insert}
use socketpp.Errors.{ErrorCode}
use socketpp.Dgram.{Dgram, Datagram, route_one, flags}
use socketpp.Dgram.Claims.{
  new_peer, Created, set_peer, execute_claim, arm_on_loop, cleared, removed, shut, erase_claim,
}
use socketpp.Dgram.Claims.Life.{
  Stage, steady, open_cleared, handler_removed, System, claims, at_stage, Step, claim, refuse, arms,
  registers, clears, removes, closes, erases, receives, Reach, here, next,
}

-- An open peer is in the map under its address, the map holds nothing else than peers that claimed,
-- an open peer has its socket where the kernel routes; a peer that is being relinquished is not open,
-- and a peer with a socket is open or being relinquished, and only where the kernel routes.
pub record Inv (s : Dgram) (owner : ℕ → Option ℕ) (stage : ℕ → Stage) : Type 0 where
  pub listed :
      (p a : ℕ) → owner p ≡ some a → (s.peers p).is_open ≡ true → lookup a s.claimed_peers ≡ some p
  pub owned : (a p : ℕ) → lookup a s.claimed_peers ≡ some p → owner p ≡ some a
  pub equipped :
      (p a : ℕ)
      → owner p ≡ some a
      → (s.peers p).is_open ≡ true
      → (s.peers p).socket_open ≡ s.kernel_demux
  pub ended : (p : ℕ) → stage p ≢ steady → (s.peers p).is_open ≡ false
  pub opened :
      (p : ℕ) → (s.peers p).socket_open ≡ true → ((s.peers p).is_open ≡ true) ⊎ (stage p ≢ steady)
  pub demuxed : (p : ℕ) → (s.peers p).socket_open ≡ true → s.kernel_demux ≡ true

abbrev SystemInv : System → Type 0
SystemInv s = Inv s.socket s.owner s.stage

clears-Inv :
    (s : System) (p : ℕ)
    → SystemInv s
    → SystemInv (record (at_stage s p open_cleared) {
      socket = set_peer s.socket p (cleared (s.socket.peers p));
    })
clears-Inv s p v = record {
  listed = λ q a o h. ground (arith, v.listed q a, ==_iff q p);
  owned = v.owned;
  equipped = λ q a o h. ground (arith, v.equipped q a, ==_iff q p);
  ended = λ q h. ground (arith, v.ended q, ==_iff q p);
  opened = λ q h. ground (arith, v.opened q, ==_iff q p);
  demuxed = λ q h. ground (arith, v.demuxed q, ==_iff q p);
}

removes-Inv :
    (s : System) (p : ℕ)
    → s.stage p ≡ open_cleared
    → SystemInv s
    → SystemInv (record (at_stage s p handler_removed) {
      socket = set_peer s.socket p (removed s.socket.kernel_demux (s.socket.peers p));
    })
removes-Inv s p e v = record {
  listed = λ q a o h. ground (arith, v.listed q a, ==_iff q p);
  owned = v.owned;
  equipped = λ q a o h. ground (arith, v.equipped q a, ==_iff q p);
  ended = λ q h. ground (arith, v.ended q, e, ==_iff q p);
  opened = λ q h. ground (arith, v.opened q, ==_iff q p);
  demuxed = λ q h. ground (arith, v.demuxed q, ==_iff q p);
}

closes-Inv :
    (s : System) (p : ℕ)
    → s.stage p ≡ handler_removed
    → SystemInv s
    → SystemInv (record (at_stage s p steady) {
      socket = set_peer s.socket p (shut s.socket.kernel_demux (s.socket.peers p));
    })
closes-Inv s p e v = record {
  listed = λ q a o h. ground (arith, v.listed q a, ==_iff q p);
  owned = v.owned;
  equipped = λ q a o h. ground (arith, v.equipped q a, v.ended q, e, ==_iff q p);
  ended = λ q h. ground (arith, v.ended q, ==_iff q p);
  opened = λ q h. ground (arith, v.opened q, v.demuxed q, ==_iff q p);
  demuxed = λ q h. ground (arith, v.demuxed q, ==_iff q p);
}

-- Erasing the entry of a peer that is not open.
erase-Inv :
    {s : Dgram} {owner : ℕ → Option ℕ} {stage : ℕ → Stage} (a p : ℕ)
    → lookup a s.claimed_peers ≡ some p
    → (s.peers p).is_open ≡ false
    → Inv s owner stage
    → Inv (erase_claim s a) owner stage
unfolding erase_claim
erase-Inv {s} a p there c v = record {
  listed = λ q b o h.
      ground (arith, v.listed q b, there, c, lookup-erase a b s.claimed_peers, ==_iff a b);
  owned = λ b q h. ground (arith, v.owned b q, lookup-erase a b s.claimed_peers);
  equipped = v.equipped;
  ended = v.ended;
  opened = v.opened;
  demuxed = v.demuxed;
}

route_one-Inv :
    {s : Dgram} {owner : ℕ → Option ℕ} {stage : ℕ → Stage} (d : Datagram)
    → Inv s owner stage
    → Inv (route_one s d).0 owner stage
unfolding route_one erase_claim
route_one-Inv {s} d v = elim (Option-cases (lookup d.from s.claimed_peers)) [
  | inl none_there ↦ rw none_there v
  | inr (p, there) ↦ elim (Bool-cases (flags s p)) [
    | inl o ↦ rw (there, o) v
    | inr c ↦ rw (there, c) (erase-Inv d.from p there c v)
  ]
]

arm_on_loop-Inv :
    {s : Dgram} {owner : ℕ → Option ℕ} {stage : ℕ → Stage} (reused : Bool) (p : ℕ)
    → Inv s owner stage
    → Inv (arm_on_loop reused s p) owner stage
unfolding arm_on_loop
arm_on_loop-Inv {s} b p v = record {
  listed = λ q a o h. ground (arith, v.listed q a, ==_iff q p);
  owned = λ a q h. ground (arith, v.owned a q);
  equipped = λ q a o h. ground (arith, v.equipped q a, ==_iff q p);
  ended = λ q h. ground (arith, v.ended q, ==_iff q p);
  opened = λ q h. ground (arith, v.opened q, ==_iff q p);
  demuxed = λ q h. ground (arith, v.demuxed q, ==_iff q p);
}

-- What a successful claim has done.
pub execute_claim-cases :
    (s : Dgram) (a p : ℕ) (r : Created) (t : Dgram)
    → execute_claim s a p r ≡ (t, none)
    → (lookup a s.claimed_peers ≡ none)
      × (t.claimed_peers ≡ insert a p s.claimed_peers)
      × (t.kernel_demux ≡ s.kernel_demux)
      × ((q : ℕ) → q ≢ p → t.peers q ≡ s.peers q)
      × ((t.peers p).is_open ≡ (s.peers p).is_open)
      × (((t.peers p).socket_open ≡ s.kernel_demux) ⊎ ((s.peers p).socket_open ≡ true))
unfolding execute_claim
execute_claim-cases s a p r t h = (
  ground arith,
  ground arith,
  ground arith,
  λ q k. ground (arith, ==_iff q p),
  ground (arith, ==_iff p p),
  ground (arith, ==_iff p p),
)

pub execute_claim-refused :
    (s : Dgram) (a p : ℕ) (r : Created) (t : Dgram) (e : ErrorCode)
    → execute_claim s a p r ≡ (t, some e)
    → t ≡ s
unfolding execute_claim
execute_claim-refused s a p r t e h = ground arith

claim-Inv :
    (s : System) {t : Dgram} (a p : ℕ) (with_data : Bool) (r : Created)
    → SystemInv s
    → s.owner p ≡ none
    → s.socket.peers p ≡ new_peer with_data
    → execute_claim s.socket a p r ≡ (t, none)
    → SystemInv (record (claims s a p) { socket = t })
claim-Inv s {t} a p d r v fresh new e =
    let (free, moved, same, others, still, sock) = execute_claim-cases s.socket a p r t e in
    record {
      listed = λ q b o h. elim (Bool-cases (q == p)) [
        | inl eq ↦
            let at : q ≡ p = (==_iff q p).0 eq in
            let named : some a ≡ some b = ground (arith, o, eq) in
            rw moved
              (ground (arith, lookup-insert a b p s.socket.claimed_peers, named, at, ==_iff a b))
        | inr ne ↦
            let apart : q ≢ p = ground (arith, ==_iff q p) in
            let was : s.owner q ≡ some b = ground (arith, o, ne) in
            let h' : (s.socket.peers q).is_open ≡ true = rw (others q apart) at h in
            let there = v.listed q b was h' in
            rw moved
              (ground (arith, lookup-insert a b p s.socket.claimed_peers, there, free, ==_iff a b))
      ];
      owned = λ b q h.
          let h' : lookup b (insert a p s.socket.claimed_peers) ≡ some q = rw moved at h in
          ground (
            arith,
            h',
            lookup-insert a b p s.socket.claimed_peers,
            v.owned b q,
            fresh,
            ==_iff a b,
            ==_iff q p,
          );
      equipped = λ q b o h. elim (Bool-cases (q == p)) [
        | inl eq ↦ ground (arith, ==_iff q p, new, sock, same)
        | inr ne ↦
            let apart : q ≢ p = ground (arith, ==_iff q p) in
            let was : s.owner q ≡ some b = ground (arith, o, ne) in
            rw (same, others q apart) (v.equipped q b was (rw (others q apart) at h))
      ];
      ended = λ q h. elim (Bool-cases (q == p)) [
        | inl eq ↦ ground (arith, ==_iff q p, new, v.ended p, h)
        | inr ne ↦
            let apart : q ≢ p = ground (arith, ==_iff q p) in rw (others q apart) (v.ended q h)
      ];
      opened = λ q h. elim (Bool-cases (q == p)) [
        | inl eq ↦ ground (arith, ==_iff q p, new, still)
        | inr ne ↦
            let apart : q ≢ p = ground (arith, ==_iff q p) in
            rw (others q apart) (v.opened q (rw (others q apart) at h))
      ];
      demuxed = λ q h. elim (Bool-cases (q == p)) [
        | inl eq ↦ ground (arith, ==_iff q p, new, sock, same)
        | inr ne ↦
            let apart : q ≢ p = ground (arith, ==_iff q p) in
            rw same (v.demuxed q (rw (others q apart) at h))
      ];
    }

pub Step-Inv : {s t : System} → Step s t → SystemInv s → SystemInv t
Step-Inv {s} (claim a p d r t fresh new e) v = claim-Inv s a p d r v fresh new e
Step-Inv {s} (refuse a p r t e h) v = rw (execute_claim-refused s.socket a p r t e h) v
Step-Inv (arms p h) v = v
Step-Inv (registers b p ps h) v = arm_on_loop-Inv b p v
Step-Inv {s} (clears p h) v = clears-Inv s p v
Step-Inv {s} (removes p h) v = removes-Inv s p h v
Step-Inv {s} (closes p h) v = closes-Inv s p h v
Step-Inv (erases a p h c) v = erase-Inv a p h c v
Step-Inv (receives d) v = route_one-Inv d v

pub Reach-Inv :
    {s t : System} → Reach s t → Inv s.socket s.owner s.stage → Inv t.socket t.owner t.stage
Reach-Inv here v = v
Reach-Inv (next r st) v = Step-Inv st (Reach-Inv r v)
