-- ===== src/UdpMux/Routing.antt =====
-- Where the datagrams of src/socket/udp_mux.hpp go.
use socketpp.Base.{
  ℕ, ◌≡◌, ◌↔◌, inl, inr, true, false, Option, none, [], ◌∷◌, ◌==◌, ==_iff, arith, nat_eq,
  Option-cases,
}
use socketpp.Base.Map.{lookup, insert, lookup-erase, lookup-insert}
use socketpp.UdpMux.{UdpMux, peer_call, register_peer, deregister_peer, set_catch_all, dispatch}

-- A peer can be registered exactly if it is not registered, and a call that fails changes nothing.
-- Where it is registered, its datagrams go to its callback, whatever the catch-all, and those of
-- others go where they went; when it is deregistered again, all go where they went before.
pub routing_follows_registration :
    (m : UdpMux) (peer cb src bytes : ℕ) (all : Option ℕ)
    → let m' = (register_peer m peer cb).0 in
      (((register_peer m peer cb).1 ≡ true) ↔ (lookup peer m.peers ≡ none))
      × ((register_peer m peer cb).1 ≡ false → m' ≡ m)
      × ((register_peer m peer cb).1 ≡ true
          → (dispatch (set_catch_all m' all) peer bytes ≡ peer_call cb bytes ∷ [])
            × ((src == peer) ≡ false → dispatch m' src bytes ≡ dispatch m src bytes)
            × (dispatch (deregister_peer m' peer) src bytes ≡ dispatch m src bytes))
unfolding register_peer deregister_peer set_catch_all dispatch
routing_follows_registration m peer cb src bytes all = elim (Option-cases (lookup peer m.peers)) [
  | inr (old, e) ↦ (
    (λ h. ground (arith, h, e), λ h. ground (arith, h, e)),
    λ h. ground (arith, e),
    λ h. absurd (ground (arith, h, e)),
  )
  | inl e ↦
      let put = λ (s : ℕ). lookup-insert peer s cb m.peers in
      let gone = lookup-erase peer src (insert peer cb m.peers) in
      (
        (λ h. e, λ h. ground (arith, e)),
        λ h. absurd (ground (arith, h, e)),
        λ h. (
          ground (arith, e, put peer, ==_iff peer peer),
          λ n. ground (arith, e, n, put src, ==_iff peer src, ==_iff src peer),
          ground (arith, e, gone, put src, ==_iff peer src),
        ),
      )
]
