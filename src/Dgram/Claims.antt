-- ===== src/Dgram/Claims.antt =====
-- The life of a claimed peer: do_claim and do_relinquish of src/high/dgram.cpp, arm and do_relinquish
-- of src/high/dgram_peer_impl.hpp, which takes no lock and runs on any thread.
pub mod Life
pub mod Keeping
pub mod Outcome
pub mod Blocked
use socketpp.Base.{
  ℕ, Bool, true, false, ◌&&◌, ◌||◌, Option, none, some, List, [], ◌∷◌, ◌==◌, if◌then◌else◌, nat_eq,
}
use socketpp.Base.Map.{Map, lookup, insert, erase}
use socketpp.Errors.{Errc, ErrorCode, socketpp_code, address_in_use}
use socketpp.Dgram.{Dgram, Peer}

abbrev pub set_peer : Dgram → ℕ → Peer → Dgram
set_peer s p x = record s { peers = λ q. if q == p then x else s.peers q }

-- A peer that `claim` has just made.
abbrev pub new_peer : Bool → Peer
new_peer with_data = record {
  is_open = true;
  has_on_data = with_data;
  socket_open = false;
  registered = false;
}

-- What `PeerSocket::create` returns: a socket, or an error.
pub data Created : Type 0 where
  created : Created
  failed : ErrorCode → Created

-- The second part is the error, if there is one.
claim_socket : Dgram → ℕ → ℕ → Created → Dgram × Option ErrorCode
claim_socket s a p (failed e) = (s, some e)
claim_socket s a p created = (
  record (set_peer s p (record (s.peers p) { socket_open = true })) {
    claimed_peers = insert a p s.claimed_peers;
  },
  none,
)

claim_found : Dgram → ℕ → ℕ → Created → Option ℕ → Dgram × Option ErrorCode
unfolding claim_socket
claim_found s a p r (some q) = (s, some (socketpp_code address_in_use))
claim_found s a p r none =
    if s.kernel_demux
    then claim_socket s a p r
    else (record s { claimed_peers = insert a p s.claimed_peers }, none)

unfoldable pub execute_claim : Dgram → ℕ → ℕ → Created → Dgram × Option ErrorCode
unfolding claim_found
execute_claim s a p r = claim_found s a p r (lookup a s.claimed_peers)

-- `arm`: whether it posts the callback that registers the socket.
unfoldable pub arm : Dgram → ℕ → Bool
arm s p = s.kernel_demux && (s.peers p).socket_open

-- The callback that `arm` posts: `add` of the descriptor that `arm` read. It fails where the socket is
-- closed, unless the descriptor is `reused` for something else meanwhile.
unfoldable pub arm_on_loop : Bool → Dgram → ℕ → Dgram
arm_on_loop reused s p =
    if (s.peers p).socket_open || reused
    then set_peer s p (record (s.peers p) { registered = true })
    else s

-- `open_.exchange(false)`.
abbrev pub cleared : Peer → Peer
cleared x = record x { is_open = false }

-- `loop_->io().remove(...)`.
abbrev pub removed : Bool → Peer → Peer
removed demux x = if demux && x.socket_open then record x { registered = false } else x

-- `peer_socket_ = PeerSocket {}`.
abbrev pub shut : Bool → Peer → Peer
shut demux x = if demux && x.socket_open then record x { socket_open = false } else x

close_peer : Bool → Peer → Peer
close_peer demux x = if x.is_open then shut demux (removed demux (cleared x)) else cleared x

-- `do_relinquish` of the peer, where no other thread comes between its steps.
unfoldable pub peer_relinquish : Dgram → ℕ → Dgram
unfolding close_peer
peer_relinquish s p = set_peer s p (close_peer s.kernel_demux (s.peers p))

-- The end of `do_relinquish` of the socket, which erases the entry that it found.
unfoldable pub erase_claim : Dgram → ℕ → Dgram
erase_claim s a = record s { claimed_peers = erase a s.claimed_peers }

unfoldable pub relinquish_each : Map ℕ ℕ → Dgram → Dgram
relinquish_each [] s = s
relinquish_each ((a, p) ∷ m) s = relinquish_each m (peer_relinquish s p)

-- The callback that `do_destroy` posts, where no other thread comes between its steps.
unfoldable pub relinquish_all : Dgram → Dgram
relinquish_all s = record (relinquish_each s.claimed_peers s) { claimed_peers = [] }
