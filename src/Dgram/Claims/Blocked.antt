-- ===== src/Dgram/Claims/Blocked.antt =====
-- The address of a peer of src/high/dgram.cpp that was relinquished through its own handle.
use socketpp.Base.{
  inl, inr, ℕ, ◌≡◌, ◌≢◌, refl, Bool, true, false, not, none, some, List, [], ◌∷◌, ◌==◌, ==_iff,
  arith, nat_eq, Bool-cases, Option-cases,
}
use socketpp.Base.Map.{lookup, lookup-erase, lookup-insert}
use socketpp.Errors.{socketpp_code, address_in_use}
use socketpp.Dgram.{Datagram, on_data, route_one, flags}
use socketpp.Dgram.Claims.{Created, created, execute_claim, arm_on_loop, erase_claim}
use socketpp.Dgram.Claims.Life.{
  System, Step, claim, refuse, arms, registers, clears, removes, closes, erases, receives, Reach,
}
use socketpp.Dgram.Claims.Keeping.{
  Inv, Step-Inv, Reach-Inv, execute_claim-cases, execute_claim-refused,
}
use socketpp.Dgram.Claims.Outcome.{IsNew, new-Inv}

-- No datagram comes from `a`, and `relinquish` of the socket is not called for it.
abbrev pub leaves_alone : ℕ → {s t : System} → Step s t → Bool
leaves_alone a (receives d) = not (d.from == a)
leaves_alone a (erases b p h c) = not (b == a)
leaves_alone a _ = true

pub data Silent (a : ℕ) : System → System → Type 0 where
  rests : {s : System} → Silent a s s
  goes : {s t u : System} (st : Step s t) → leaves_alone a st ≡ true → Silent a t u → Silent a s u

-- The entry of a peer that is not open.
abbrev Stale : ℕ → ℕ → System → Type 0
Stale a p s = (lookup a s.socket.claimed_peers ≡ some p) × ((s.socket.peers p).is_open ≡ false)

route_one-Stale :
    (s : System) (d : Datagram) (a p : ℕ)
    → (d.from == a) ≡ false
    → Stale a p s
    → Stale a p (record s { socket = (route_one s.socket d).0 })
unfolding route_one
route_one-Stale s d a p n (e, c) = elim (Option-cases (lookup d.from s.socket.claimed_peers)) [
  | inl none_there ↦ rw none_there (e, c)
  | inr (q, there) ↦ elim (Bool-cases (flags s.socket q)) [
    | inl o ↦ rw (there, o) (e, c)
    | inr k ↦ rw (there, k) (ground (arith, e, n, lookup-erase d.from a s.socket.claimed_peers), c)
  ]
]

Step-Stale :
    {s t : System} (st : Step s t) (a p : ℕ)
    → leaves_alone a st ≡ true
    → Inv s.socket s.owner s.stage
    → Stale a p s
    → Stale a p t
unfolding arm_on_loop erase_claim
Step-Stale {s} (claim b q d r t fresh new x) a p h v (e, c) =
    let (free, moved, same, others, still, sock) = execute_claim-cases s.socket b q r t x in
    let apart : p ≢ q = ground (arith, v.owned a p e, fresh) in
    (
      rw moved (ground (arith, lookup-insert b a q s.socket.claimed_peers, e, free, ==_iff b a)),
      rw (others p apart) c,
    )
Step-Stale {s} (refuse b q r t x k) a p h v w = rw (execute_claim-refused s.socket b q r t x k) w
Step-Stale (arms q k) a p h v w = w
Step-Stale {s} (registers b q ps k) a p h v (e, c) =
    (ground (arith, e), ground (arith, c, ==_iff p q))
Step-Stale {s} (clears q k) a p h v (e, c) = (e, ground (arith, c, ==_iff p q))
Step-Stale {s} (removes q k) a p h v (e, c) = (e, ground (arith, c, ==_iff p q))
Step-Stale {s} (closes q k) a p h v (e, c) = (e, ground (arith, c, ==_iff p q))
Step-Stale {s} (erases b q k l) a p h v (e, c) =
    (ground (arith, e, h, lookup-erase b a s.socket.claimed_peers), c)
Step-Stale {s} (receives d) a p h v w = route_one-Stale s d a p (ground (arith, h)) w

Silent-Stale :
    {a : ℕ} {s t : System} (p : ℕ)
    → Silent a s t
    → Inv s.socket s.owner s.stage
    → Stale a p s
    → Inv t.socket t.owner t.stage × Stale a p t
Silent-Stale p rests v w = (v, w)
Silent-Stale {a} p (goes st h r) v w = Silent-Stale p r (Step-Inv st v) (Step-Stale st a p h v w)

-- After a peer has been relinquished through its own handle, which leaves its entry in the map, its
-- address cannot be claimed: whatever threads do, as long as no datagram comes from there and
-- `relinquish` of the socket is not called for it, `do_claim` answers `address_in_use` and changes
-- nothing, though no open peer has the address. The first datagram from there goes to the socket's
-- handler, and the address can be claimed then.
pub relinquished_peer_blocks_claim :
    (s t u : System) (a p q : ℕ) (r : Created) (bytes : List ℕ)
    → IsNew s
    → Reach s t
    → lookup a t.socket.claimed_peers ≡ some p
    → (t.socket.peers p).is_open ≡ false
    → Silent a t u
    → let d : Datagram = record { from = a; bytes = bytes } in
      (execute_claim u.socket a q r ≡ (u.socket, some (socketpp_code address_in_use)))
      × ((x : ℕ) → u.owner x ≡ some a → (u.socket.peers x).is_open ≡ false)
      × ((route_one u.socket d).1 ≡ on_data d ∷ [])
      × ((execute_claim (route_one u.socket d).0 a q created).1 ≡ none)
unfolding execute_claim route_one
relinquished_peer_blocks_claim s t u a p q r bytes n reach h c silent =
    let (v, (e, k)) = Silent-Stale p silent (Reach-Inv reach (new-Inv n)) (h, c) in
    (
      rw e refl,
      λ x o. ground (arith, v.listed x a o, e, k),
      ground (arith, e, k),
      ground (arith, e, k, lookup-erase a a u.socket.claimed_peers, ==_iff a a),
    )
