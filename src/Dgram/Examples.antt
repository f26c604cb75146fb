-- ===== src/Dgram/Examples.antt =====
-- The theorems on src/high/dgram.cpp at concrete sockets.
use socketpp.Base.{
  ℕ, ◌≡◌, ◌≢◌, ◌⊎◌, refl, true, false, Bool, not, ◌&&◌, none, some, List, [], ◌∷◌, nat_eq, arith,
}
use socketpp.Base.Map.{lookup, insert}
use socketpp.Dgram.{
  on_data, Dgram, Datagram, Job, flags, forward, batch, route, route_one, gather, claimed_open,
}
use socketpp.Dgram.Routing.{messages, forwards}
use socketpp.Dgram.Batch.{single_and_batch_agree}
use socketpp.Dgram.Handlers.{only_to}
use socketpp.Dgram.Race.{relinquish_overruns_buffers}
use socketpp.Dgram.Readable.{
  Recv, received, handle_readable, taken, max_iterations, readable_delivers_unclaimed,
}
use socketpp.Dgram.Claims.{new_peer, created, execute_claim, relinquish_all}
use socketpp.Dgram.Claims.Life.{System, steady, Reach, here, next, claim, clears, removes, closes}
use socketpp.Dgram.Claims.Blocked
use socketpp.Dgram.Claims.Blocked.{relinquished_peer_blocks_claim}
use socketpp.Errors.{socketpp_code, address_in_use}
use socketpp.Dgram.Claims.Outcome.{IsNew, claims_are_exclusive, destroy_closes_every_peer}
use socketpp.Dgram.Arming.{
  Arming, run_task, run_all, do_pause, do_on_data, sets_on_data, pauses, resumes, runs, add_socket,
  interest_settles,
}
use socketpp.Dgram.Arming

-- No kernel demultiplexing; address 9 is claimed by peer 1, which is open.
abbrev one_peer : Dgram
one_peer = record {
  kernel_demux = false;
  has_on_data = false;
  has_on_data_batch = true;
  has_on_error = false;
  batch_size = 2;
  claimed_peers = (9, 1) ∷ [];
  peers = λ p. new_peer true;
}

abbrev from_7 : Datagram
from_7 = record { from = 7; bytes = 1 ∷ 2 ∷ [] }

abbrev from_9 : Datagram
from_9 = record { from = 9; bytes = 3 ∷ [] }

single_and_batch_agree_example :
    (t : Dgram) × (js : List Job) × (batch one_peer (flags one_peer) (from_7 ∷ from_9 ∷ [])
      ≡ some (t, js))
    × (messages js ≡ messages (route one_peer (from_7 ∷ from_9 ∷ [])).1)
    × (forwards js ≡ forwards (route one_peer (from_7 ∷ from_9 ∷ [])).1)
    × (t ≡ (route one_peer (from_7 ∷ from_9 ∷ [])).0)
single_and_batch_agree_example = single_and_batch_agree one_peer (from_7 ∷ from_9 ∷ [])

relinquish_overruns_buffers_example : batch one_peer (λ p. false) (from_7 ∷ from_9 ∷ []) ≡ none
unfolding lookup gather
relinquish_overruns_buffers_example =
    relinquish_overruns_buffers one_peer (λ p. false) (from_7 ∷ []) from_9 [] 1 (λ q h. cc) refl
      refl refl (omega arith)

-- Two batches, of which the second is not full, and one that stays in the socket.
abbrev readable_batches : List Recv
readable_batches =
    received (flags one_peer) (from_7 ∷ from_9 ∷ [])
    ∷ received (flags one_peer) (from_7 ∷ [])
    ∷ received (flags one_peer) (from_9 ∷ [])
    ∷ []

readable_delivers_unclaimed_example :
    (t : Dgram) × (js : List Job) × (handle_readable readable_batches one_peer ≡ some (t, js))
    × (messages js
        ≡ gather (flags one_peer) one_peer.claimed_peers (taken max_iterations 2 readable_batches))
    × (only_to true js ≡ true)
    × ((a : ℕ)
        → claimed_open (flags one_peer) t.claimed_peers a
          ≡ claimed_open (flags one_peer) one_peer.claimed_peers a)
readable_delivers_unclaimed_example =
    readable_delivers_unclaimed one_peer readable_batches refl (refl, (refl, (refl, tt)))

-- The kernel demultiplexes. Peer 1 claims address 9.
abbrev unclaimed : System
unclaimed = record {
  socket = record one_peer { kernel_demux = true; claimed_peers = [] };
  owner = λ p. none;
  arming = [];
  stage = λ p. steady;
}

unclaimed-IsNew : IsNew unclaimed
unclaimed-IsNew = record {
  no_claims = refl;
  unclaimed = λ p. refl;
  peers = λ p. (true, refl);
  at_rest = λ p. refl;
}

abbrev claim_run : (t : System) × Reach unclaimed t
unfolding execute_claim insert lookup
claim_run = (_, next here (claim 9 1 true created _ refl refl refl))

-- Another thread has cleared the peer's flag and not yet closed its socket.
abbrev relinquish_run : (t : System) × Reach unclaimed t
unfolding execute_claim insert lookup
relinquish_run = (_, next claim_run.1 (clears 1 refl))

claims_are_exclusive_example :
    ((d : Datagram) (p q : ℕ)
      → relinquish_run.0.owner p ≡ some d.from
      → (relinquish_run.0.socket.peers p).is_open ≡ true
      → (relinquish_run.0.owner q ≡ some d.from
          → (relinquish_run.0.socket.peers q).is_open ≡ true
          → q ≡ p)
        × (route_one relinquish_run.0.socket d
            ≡ (relinquish_run.0.socket, forward relinquish_run.0.socket p d.bytes)))
    × ((p : ℕ)
        → (relinquish_run.0.socket.peers p).socket_open ≡ true
        → ((relinquish_run.0.socket.peers p).is_open ≡ true)
          ⊎ (((relinquish_run.0.socket.peers p).is_open ≡ false)
              × (relinquish_run.0.stage p ≢ steady)))
claims_are_exclusive_example =
    claims_are_exclusive unclaimed relinquish_run.0 unclaimed-IsNew relinquish_run.1

destroy_closes_every_peer_example :
    let u = relinquish_all claim_run.0.socket in
    ((u.peers 1).is_open ≡ false)
    × (((u.peers 1).socket_open ≡ false)
        ⊎ (((claim_run.0.socket.peers 1).is_open ≡ false) × (claim_run.0.stage 1 ≢ steady)))
    × (((u.peers 1).registered ≡ false) ⊎ ((claim_run.0.socket.peers 1).is_open ≡ false))
    × (u.claimed_peers ≡ [])
unfolding execute_claim insert lookup
destroy_closes_every_peer_example =
    destroy_closes_every_peer unclaimed claim_run.0 1 9 unclaimed-IsNew claim_run.1 refl refl

-- The thread goes on, up to the end of `do_relinquish`.
abbrev silent_run : (u : System) × Blocked.Silent 9 relinquish_run.0 u
unfolding execute_claim insert lookup
silent_run =
    (_, Blocked.goes (removes 1 refl) refl (Blocked.goes (closes 1 refl) refl Blocked.rests))

relinquished_peer_blocks_claim_example :
    let u = silent_run.0 in
    (execute_claim u.socket 9 2 created ≡ (u.socket, some (socketpp_code address_in_use)))
    × ((x : ℕ) → u.owner x ≡ some 9 → (u.socket.peers x).is_open ≡ false)
    × ((route_one u.socket from_9).1 ≡ on_data from_9 ∷ [])
    × ((execute_claim (route_one u.socket from_9).0 9 2 created).1 ≡ none)
unfolding execute_claim insert lookup
relinquished_peer_blocks_claim_example =
    relinquished_peer_blocks_claim unclaimed relinquish_run.0 silent_run.0 9 1 2 created (3 ∷ [])
      unclaimed-IsNew relinquish_run.1 refl refl silent_run.1

-- A pause that is ignored, a handler, and a pause; the first posted call has run.
abbrev paused_run : (s : Arming) × Arming.Reach Arming.create s
unfolding do_pause do_on_data run_task Arming.create
paused_run = (
  _,
  Arming.next
      (Arming.next (Arming.next (Arming.next Arming.here pauses) (sets_on_data true)) pauses)
      (runs add_socket _ refl),
)

interest_settles_example :
    (run_all paused_run.0.registered paused_run.0.posted
      ≡ (paused_run.0.armed && not paused_run.0.paused))
    × ((paused_run.0.has_on_data && paused_run.0.has_on_data_batch) ≡ false)
    × (paused_run.0.armed ≡ false
        → (b : Bool)
        → (let t = do_on_data (do_pause paused_run.0) b in run_all t.registered t.posted) ≡ true)
interest_settles_example = interest_settles paused_run.0 paused_run.1
