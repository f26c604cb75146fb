-- ===== src/UdpMux/Examples.antt =====
-- The theorems on src/socket/udp_mux.hpp at concrete multiplexers.
use socketpp.Base.{ℕ, suc, ◌⊎◌, ◌≡◌, refl, true, false, none, some, [], ◌∷◌, arith, nat_eq}
use socketpp.Base.Map.{lookup, insert, erase}
use socketpp.UdpMux.{
  UdpMux, Registry, dispatch, route, peer_call, no_bind, opened, returned, hangs, new_mux,
  get_or_create, drop_handle,
}
use socketpp.UdpMux.Peers
use socketpp.UdpMux.Peers.{second_peer_silences_first}
use socketpp.UdpMux.System.{empty, Reach, here, next, gets, drops}
use socketpp.UdpMux.Lifetime.{one_mux_for_ever}

abbrev plain : UdpMux
plain = new_mux 8080 true

-- A multiplexer is made, and its one handle is dropped.
abbrev dropped_run : (r : Registry) × Reach (empty (λ i. plain)) r
unfolding get_or_create drop_handle lookup insert erase
dropped_run = (
  _,
  next (next here (gets 8080 (opened true) (some 0) _ refl))
      (drops 0 none _ (omega arith) (omega arith) refl),
)

one_mux_for_ever_example :
    ((dropped_run.0.muxes 0).local_addr ≡ (dropped_run.0.muxes 0).local_addr → ◌≡◌ {A = ℕ} 0 0)
    × (((dropped_run.0.locked ≡ true)
          × (get_or_create dropped_run.0 (dropped_run.0.muxes 0).local_addr no_bind ≡ hangs))
        ⊎ ((s : Registry) × (dropped_run.0.locked ≡ false)
            × (get_or_create dropped_run.0 (dropped_run.0.muxes 0).local_addr no_bind
                ≡ returned (some 0) s)
            × ((s.muxes 0).handles ≡ suc ((dropped_run.0.muxes 0).handles))))
    × ((dropped_run.0.muxes 0).thread ≡ true)
    × ((dropped_run.0.muxes 0).stop_requested ≡ false)
unfolding get_or_create drop_handle lookup insert erase
one_mux_for_ever_example =
    one_mux_for_ever (λ i. plain) dropped_run.0 0 0 no_bind dropped_run.1 (omega arith)
      (omega arith)

-- Peer 4 is registered.
abbrev shared : UdpMux
shared = record plain { peers = (4, 11) ∷ [] }

shared-peer : lookup {K = ℕ} 4 shared.peers ≡ some 11
unfolding lookup
shared-peer = refl

second_peer_silences_first_example :
    (dispatch shared 4 100 ≡ peer_call 11 100 ∷ [])
    × ((Peers.create shared 4 12).1 ≡ none)
    × (dispatch (Peers.create shared 4 12).0 4 100 ≡ route none shared.catch_all 4 100)
second_peer_silences_first_example = second_peer_silences_first shared 4 11 12 100 shared-peer
