-- ===== src/Dgram/Claims/Life.antt =====
-- Peers of src/high/dgram.cpp among threads that claim and relinquish, datagrams and the loop.
use socketpp.Base.{
  ℕ, ◌≡◌, Bool, true, false, Option, none, some, List, [], ◌∷◌, ◌++◌, ◌==◌, if◌then◌else◌, nat_eq,
}
use socketpp.Base.Map.{lookup}
use socketpp.Errors.{ErrorCode}
use socketpp.Dgram.{Dgram, Datagram, route_one}
use socketpp.Dgram.Claims.{
  new_peer, Created, set_peer, execute_claim, arm, arm_on_loop, cleared, removed, shut, erase_claim,
}

-- How far `do_relinquish` of a peer is. One thread is in it at most: the one that found `open_` set.
pub data Stage : Type 0 where
  steady open_cleared handler_removed : Stage

-- `owner p` is the address that the peer `p` claimed; `arming` holds the callbacks that `arm` posted.
pub record System : Type 0 where
  pub socket : Dgram
  pub owner : ℕ → Option ℕ
  pub arming : List ℕ
  pub stage : ℕ → Stage

abbrev pub claims : System → ℕ → ℕ → System
claims s a p = record s { owner = λ q. if q == p then some a else s.owner q }

abbrev pub at_stage : System → ℕ → Stage → System
at_stage s p x = record s { stage = λ q. if q == p then x else s.stage q }

-- `clears`, `removes` and `closes` are the steps of `do_relinquish` of a peer, by any thread. That of
-- the socket calls it for the entry that it found, and then `erases` the entry.
pub data Step (s : System) : System → Type 0 where
  claim :
      (a p : ℕ) (with_data : Bool) (r : Created) (t : Dgram)
      → s.owner p ≡ none
      → s.socket.peers p ≡ new_peer with_data
      → execute_claim s.socket a p r ≡ (t, none)
      → Step s (record (claims s a p) { socket = t })
  refuse :
      (a p : ℕ) (r : Created) (t : Dgram) (e : ErrorCode)
      → execute_claim s.socket a p r ≡ (t, some e)
      → Step s (record s { socket = t })
  arms : (p : ℕ) → arm s.socket p ≡ true → Step s (record s { arming = s.arming ++ p ∷ [] })
  registers :
      (reused : Bool) (p : ℕ) (ps : List ℕ)
      → s.arming ≡ p ∷ ps
      → Step s (record s { socket = arm_on_loop reused s.socket p; arming = ps })
  clears :
      (p : ℕ)
      → (s.socket.peers p).is_open ≡ true
      → Step s (record (at_stage s p open_cleared) {
        socket = set_peer s.socket p (cleared (s.socket.peers p));
      })
  removes :
      (p : ℕ)
      → s.stage p ≡ open_cleared
      → Step s (record (at_stage s p handler_removed) {
        socket = set_peer s.socket p (removed s.socket.kernel_demux (s.socket.peers p));
      })
  closes :
      (p : ℕ)
      → s.stage p ≡ handler_removed
      → Step s (record (at_stage s p steady) {
        socket = set_peer s.socket p (shut s.socket.kernel_demux (s.socket.peers p));
      })
  erases :
      (a p : ℕ)
      → lookup a s.socket.claimed_peers ≡ some p
      → (s.socket.peers p).is_open ≡ false
      → Step s (record s { socket = erase_claim s.socket a })
  receives : (d : Datagram) → Step s (record s { socket = (route_one s.socket d).0 })

pub data Reach (s : System) : System → Type 0 where
  here : Reach s s
  next : {t u : System} → Reach s t → Step t u → Reach s u
