-- ===== src/UdpMux/Peers.antt =====
-- Peer sockets on a multiplexer (src/socket/udp_peer.cpp on Windows): `create`, once the multiplexer is there,
-- and the destructor of `impl`. An address and a callback are numbers that stand for them.
use socketpp.Base.{ℕ, Bool, true, false, Option, none, some, [], ◌∷◌, ◌≡◌, refl, ==_iff, nat_eq}
use socketpp.Base.Map.{lookup, lookup-erase}
use socketpp.UdpMux.{UdpMux, peer_call, register_peer, deregister_peer, route, dispatch}

unfoldable pub destroy_impl : UdpMux → ℕ → UdpMux
unfolding deregister_peer
destroy_impl m peer = deregister_peer m peer

-- If the registration fails, the new `impl` is destroyed.
registered : UdpMux × Bool → ℕ → UdpMux × Option ℕ
unfolding destroy_impl
registered (m, true) peer = (m, some peer)
registered (m, false) peer = (destroy_impl m peer, none)

unfoldable pub create : UdpMux → ℕ → ℕ → UdpMux × Option ℕ
unfolding registered register_peer
create m peer cb = registered (register_peer m peer cb) peer

-- When a peer is registered, creating a second peer socket for its address fails, and takes the
-- registration of the first one away: its datagrams went to its callback before, and go to the catch-all
-- afterwards, or nowhere.
pub second_peer_silences_first :
    (m : UdpMux) (peer cb other bytes : ℕ)
    → lookup peer m.peers ≡ some cb
    → (dispatch m peer bytes ≡ peer_call cb bytes ∷ [])
      × ((create m peer other).1 ≡ none)
      × (dispatch (create m peer other).0 peer bytes ≡ route none m.catch_all peer bytes)
unfolding create registered register_peer dispatch route destroy_impl deregister_peer
second_peer_silences_first m peer cb other bytes h =
    (rw h refl, rw h refl, rw (h, lookup-erase peer peer m.peers, (==_iff peer peer).1 refl) refl)
