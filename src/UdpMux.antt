-- ===== src/UdpMux.antt =====
-- src/socket/udp_mux.hpp (udp_mux): the multiplexer of Windows, its peers, and the registry that shares
-- one multiplexer for a local address. An address, and a callback that is set, are numbers that stand
-- for them; the weak pointers of the registry name the multiplexers.
pub mod Routing
pub mod System
pub mod Lifetime
pub mod Peers
mod Examples
use socketpp.Base.{
  ℕ, suc, ◌+◌, ◌-◌, Bool, true, false, Option, none, some, List, [], ◌∷◌, ◌++◌, ltb, ◌==◌, ◌||◌,
  if◌then◌else◌, is_some, nat_eq,
}
use socketpp.Base.Map.{Map, lookup, insert, erase}

-- `handles` counts the shared pointers outside; `thread`: the poll thread runs, whose function holds
-- one more. `armed`: a receive is pending.
pub record UdpMux : Type 0 where
  pub local_addr : ℕ
  pub peers : Map ℕ ℕ
  pub catch_all : Option ℕ
  pub stop_requested : Bool
  pub thread : Bool
  pub armed : Bool
  pub handles : ℕ

-- A call of the callback of a peer, or of the catch-all.
pub data Call : Type 0 where
  peer_call : (cb bytes : ℕ) → Call
  catch_all_call : (cb bytes src : ℕ) → Call

-- The second part says whether the call succeeded.
unfoldable pub register_peer : UdpMux → ℕ → ℕ → UdpMux × Bool
register_peer m peer cb =
    if is_some (lookup peer m.peers)
    then (m, false)
    else (record m { peers = insert peer cb m.peers }, true)

unfoldable pub deregister_peer : UdpMux → ℕ → UdpMux
deregister_peer m peer = record m { peers = erase peer m.peers }

unfoldable pub set_catch_all : UdpMux → Option ℕ → UdpMux
set_catch_all m cb = record m { catch_all = cb }

unfoldable pub route : Option ℕ → Option ℕ → ℕ → ℕ → List Call
route (some cb) all src bytes = peer_call cb bytes ∷ []
route none (some cb) src bytes = catch_all_call cb bytes src ∷ []
route none none src bytes = []

unfoldable pub dispatch : UdpMux → ℕ → ℕ → List Call
unfolding route
dispatch m src bytes = route (lookup src m.peers) m.catch_all src bytes

-- What `recvfrom` gives: an error, or the source and the size of a datagram.
pub data Received : Type 0 where
  failed : Received
  datagram : (src bytes : ℕ) → Received

-- The results of `recvfrom`, call by call; after the last it would block.
unfoldable pub on_readable : UdpMux → List Received → List Call
on_readable m [] = []
on_readable m (failed ∷ rs) = []
on_readable m (datagram src n ∷ rs) =
    let rest = on_readable m rs in if n == 0 then rest else dispatch m src n ++ rest

-- A completion in the poll thread; `arms`: the next receive can be started.
unfoldable pub on_completion : UdpMux → Received → Bool → UdpMux × List Call
on_completion m failed arms = (record m { armed = if m.stop_requested then false else arms }, [])
on_completion m (datagram src n) arms = (
  record m { armed = if m.stop_requested then false else arms },
  if n == 0 then [] else dispatch m src n,
)

-- The registry and the multiplexers that have been made, by number. `locked`: a thread hangs while it
-- holds `registry_mutex_`, so that no other ever gets it.
pub record Registry : Type 0 where
  pub locked : Bool
  pub entries : Map ℕ ℕ
  pub muxes : ℕ → UdpMux
  pub made : ℕ

abbrev pub use_count : UdpMux → ℕ
use_count m = m.handles + (if m.thread then 1 else 0)

abbrev pub expired : UdpMux → Bool
expired m = use_count m == 0

abbrev pub set_mux : Registry → ℕ → UdpMux → Registry
set_mux r id m = record r { muxes = λ i. if i == id then m else r.muxes i }

-- How far the system calls of `get_or_create` come.
pub data Opening : Type 0 where
  no_socket no_options no_bind no_port no_association : Opening
  opened : (arms : Bool) → Opening

-- `hangs`: the thread waits for ever for a spinlock, which it holds itself or another that hangs.
pub data Outcome : Type 0 where
  returned : Option ℕ → Registry → Outcome
  hangs : Outcome

-- The end of `~udp_mux`, which takes `registry_mutex_`; `held`: the same thread holds it.
unfoldable pub unregister : Bool → Registry → ℕ → Outcome
unregister held r addr =
    if held || r.locked
    then hangs
    else returned none (elim (lookup addr r.entries) [
      | none ↦ r
      | some id ↦ if expired (r.muxes id) then record r { entries = erase addr r.entries } else r
    ])

abbrev pub new_mux : ℕ → Bool → UdpMux
new_mux addr arms = record {
  local_addr = addr;
  peers = [];
  catch_all = none;
  stop_requested = false;
  thread = true;
  armed = arms;
  handles = 1;
}

abbrev pub added : Registry → ℕ → Bool → Registry
added r addr arms = record (set_mux r r.made (new_mux addr arms)) {
  entries = insert addr r.made r.entries;
  made = suc r.made;
}

-- `get_or_create` where there is none; a multiplexer that is not returned is destroyed under the lock.
unfoldable pub make : Registry → ℕ → Opening → Outcome
unfolding unregister
make r addr (opened arms) = returned (some r.made) (added r addr arms)
make r addr no_port = unregister true (record r { entries = insert addr r.made r.entries }) addr
make r addr no_association =
    unregister true (record r { entries = insert addr r.made r.entries }) addr
make r addr _ = unregister true r addr

found : Registry → ℕ → Opening → Option ℕ → Outcome
unfolding make
found r addr o none = make r addr o
found r addr o (some id) =
    if expired (r.muxes id)
    then make (record r { entries = erase addr r.entries }) addr o
    else (let m = r.muxes id in
        returned (some id) (set_mux r id (record m { handles = suc m.handles })))

unfoldable pub get_or_create : Registry → ℕ → Opening → Outcome
unfolding found
get_or_create r addr o = if r.locked then hangs else found r addr o (lookup addr r.entries)

-- A shared pointer outside goes away; the last one of all runs the destructor.
unfoldable pub drop_handle : Registry → ℕ → Outcome
unfolding unregister
drop_handle r id =
    let m = r.muxes id in
    let r' = set_mux r id (record m { handles = m.handles - 1 }) in
    if expired (r'.muxes id)
    then unregister false (set_mux r' id (record (r'.muxes id) { stop_requested = true }))
        m.local_addr
    else returned none r'

-- The poll thread returns from its loop, which a stop alone ends.
unfoldable pub leave_thread : Registry → ℕ → Registry
leave_thread r id = set_mux r id (record (r.muxes id) { thread = false })
