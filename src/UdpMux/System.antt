-- ===== src/UdpMux/System.antt =====
-- The registry of src/socket/udp_mux.hpp among threads that use it, and the poll threads.
use socketpp.Base.{ℕ, ◌<◌, ◌≡◌, Bool, true, false, Option, [], nat_eq}
use socketpp.UdpMux.{
  UdpMux, Registry, Opening, returned, hangs, set_mux, register_peer, deregister_peer,
  set_catch_all, Received, on_completion, get_or_create, drop_handle, leave_thread,
}

abbrev pub empty : (ℕ → UdpMux) → Registry
empty muxes = record { locked = false; entries = []; muxes = muxes; made = 0 }

-- What threads do with the registry and with multiplexers that they have a handle of, and what the
-- poll threads do. `sticks`: a call of `get_or_create` hangs while it holds `registry_mutex_`; nothing
-- reads what it wrote before, since every reader takes that lock.
pub data Step (r : Registry) : Registry → Type 0 where
  gets :
      (addr : ℕ) (o : Opening) (got : Option ℕ) (s : Registry)
      → get_or_create r addr o ≡ returned got s
      → Step r s
  sticks :
      (addr : ℕ) (o : Opening)
      → r.locked ≡ false
      → get_or_create r addr o ≡ hangs
      → Step r (record r { locked = true })
  drops :
      (id : ℕ) (got : Option ℕ) (s : Registry)
      → id < r.made
      → 0 < (r.muxes id).handles
      → drop_handle r id ≡ returned got s
      → Step r s
  registers :
      (id peer cb : ℕ) → id < r.made → Step r (set_mux r id (register_peer (r.muxes id) peer cb).0)
  deregisters :
      (id peer : ℕ) → id < r.made → Step r (set_mux r id (deregister_peer (r.muxes id) peer))
  sets :
      (id : ℕ) (cb : Option ℕ) → id < r.made → Step r (set_mux r id (set_catch_all (r.muxes id) cb))
  completes :
      (id : ℕ) (d : Received) (arms : Bool)
      → id < r.made
      → (r.muxes id).thread ≡ true
      → Step r (set_mux r id (on_completion (r.muxes id) d arms).0)
  leaves : (id : ℕ) → id < r.made → (r.muxes id).stop_requested ≡ true → Step r (leave_thread r id)

pub data Reach (r : Registry) : Registry → Type 0 where
  here : Reach r r
  next : {s t : Registry} → Reach r s → Step s t → Reach r t
