-- ===== src/Dgram.antt =====
-- src/high/dgram.cpp (dgram_impl) and src/high/dgram_peer_impl.hpp: the datagram socket, the peers
-- claimed on it, and how a readable event is handled. An address is a number that stands for it.
pub mod Routing
pub mod Batch
pub mod Race
pub mod Handlers
pub mod Readable
pub mod Claims
pub mod Arming
mod Examples
use socketpp.Base.{
  ℕ, zero, suc, ◌+◌, ◌-◌, Bool, true, false, ◌&&◌, ◌||◌, not, Option, none, some, List, [], ◌∷◌,
  ◌++◌, length, replicate, ltb, ◌==◌, if◌then◌else◌, nat_eq,
}
use socketpp.Base.Map.{Map, lookup, insert, erase}
use socketpp.Errors.{Errc, ErrorCode, socketpp_code}

-- `dgram_peer_impl`. `registered`: its socket is in the dispatcher.
pub record Peer : Type 0 where
  pub is_open : Bool
  pub has_on_data : Bool
  pub socket_open : Bool
  pub registered : Bool

-- `dgram_impl`. `peers` holds the peer objects, which the handles share; `claimed_peers` names them.
-- `kernel_demux`: the constant `has_kernel_udp_demux`.
pub record Dgram : Type 0 where
  pub kernel_demux : Bool
  pub has_on_data : Bool
  pub has_on_data_batch : Bool
  pub has_on_error : Bool
  pub batch_size : ℕ
  pub claimed_peers : Map ℕ ℕ
  pub peers : ℕ → Peer

pub record Datagram : Type 0 where
  pub from : ℕ
  pub bytes : List ℕ

-- What is submitted to the serial queue of the socket, or to that of a peer.
pub data Job : Type 0 where
  on_error : ErrorCode → Job
  on_data : Datagram → Job
  on_data_batch : List Datagram → Job
  peer_data : ℕ → List ℕ → Job

abbrev pub flags : Dgram → ℕ → Bool
flags s p = (s.peers p).is_open

unfoldable pub deliver_data : Dgram → ℕ → List ℕ → List Job
deliver_data s p bytes =
    let peer = s.peers p in
    if not peer.is_open || not peer.has_on_data then [] else peer_data p bytes ∷ []

-- `if constexpr (!has_kernel_udp_demux)`.
unfoldable pub forward : Dgram → ℕ → List ℕ → List Job
unfolding deliver_data
forward s p bytes = if s.kernel_demux then [] else deliver_data s p bytes

-- One datagram where `on_data` is set, by what `find` gives.
route_found : Dgram → Datagram → Option ℕ → Dgram × List Job
route_found s d none = (s, on_data d ∷ [])
route_found s d (some p) =
    if not (s.peers p).is_open
    then (record s { claimed_peers = erase d.from s.claimed_peers }, on_data d ∷ [])
    else (s, forward s p d.bytes)

unfoldable pub route_one : Dgram → Datagram → Dgram × List Job
unfolding route_found
route_one s d = route_found s d (lookup d.from s.claimed_peers)

unfoldable pub route : Dgram → List Datagram → Dgram × List Job
route s [] = (s, [])
route s (d ∷ ds) = let one = route_one s d in let rest = route one.0 ds in (rest.0, one.1 ++ rest.1)

-- What the first loop of the batch path has found out.
pub record Survey : Type 0 where
  pub claimed : Map ℕ ℕ
  pub total_bytes : ℕ
  pub unclaimed_count : ℕ
  pub forwarded : List Job

survey_found : Dgram → Survey → Datagram → Option ℕ → Survey
survey_found s v d none = record v {
  total_bytes = v.total_bytes + length d.bytes;
  unclaimed_count = suc v.unclaimed_count;
}
survey_found s v d (some p) =
    if not (s.peers p).is_open
    then record v {
      claimed = erase d.from v.claimed;
      total_bytes = v.total_bytes + length d.bytes;
      unclaimed_count = suc v.unclaimed_count;
    }
    else record v { forwarded = v.forwarded ++ forward s p d.bytes }

unfoldable pub survey_one : Dgram → Survey → Datagram → Survey
unfolding survey_found
survey_one s v d = survey_found s v d (lookup d.from v.claimed)

unfoldable pub survey : Dgram → Survey → List Datagram → Survey
survey s v [] = v
survey s v (d ∷ ds) = survey s (survey_one s v d) ds

abbrev pub new_survey : Dgram → Survey
new_survey s = record {
  claimed = s.claimed_peers;
  total_bytes = 0;
  unclaimed_count = 0;
  forwarded = [];
}

-- `find`, and the entry's peer is open.
abbrev pub open_claim : (ℕ → Bool) → Option ℕ → Bool
open_claim opened none = false
open_claim opened (some p) = opened p

abbrev pub claimed_open : (ℕ → Bool) → Map ℕ ℕ → ℕ → Bool
claimed_open opened m a = open_claim opened (lookup a m)

-- The datagrams that the second loop of the batch path copies.
unfoldable pub gather : (ℕ → Bool) → Map ℕ ℕ → List Datagram → List Datagram
gather opened m [] = []
gather opened m (d ∷ ds) =
    let rest = gather opened m ds in if claimed_open opened m d.from then rest else d ∷ rest

abbrev pub size : List Datagram → ℕ
size [] = 0
size (d ∷ ds) = length d.bytes + size ds

abbrev empty_message : Datagram
empty_message = record { from = 0; bytes = [] }

-- What follows the first loop. The buffers hold what it counted; `none`: the second loop, which
-- copies `copied`, writes outside of them.
unfoldable pub finish_batch : Dgram → Survey → List Datagram → Option (Dgram × List Job)
finish_batch s v copied =
    let t = record s { claimed_peers = v.claimed } in
    if v.unclaimed_count == 0
    then some (t, v.forwarded)
    else if ltb v.unclaimed_count (length copied) || ltb v.total_bytes (size copied)
    then none
    else some (
      t,
      v.forwarded
          ++ on_data_batch (copied ++ replicate (v.unclaimed_count - length copied) empty_message)
            ∷ [],
    )

-- `later`: the flags of the peers as the second loop reads them.
unfoldable pub batch : Dgram → (ℕ → Bool) → List Datagram → Option (Dgram × List Job)
unfolding finish_batch
batch s later ds =
    let v = survey s (new_survey s) ds in finish_batch s v (gather later v.claimed ds)
