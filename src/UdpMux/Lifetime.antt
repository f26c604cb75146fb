-- ===== src/UdpMux/Lifetime.antt =====
-- How long a multiplexer of src/socket/udp_mux.hpp lives.
use socketpp.Base.{
  ℕ, suc, ◌-◌, ◌<◌, ◌≡◌, ◌≢◌, ◌∙◌, refl, sym, ap, subst, ◌⊎◌, inl, inr, Bool, true, false, Option,
  none, some, ◌==◌, ==_iff, arith, nat_eq, Bool-cases, Option-cases,
}
use socketpp.Base.Map.{lookup, lookup-insert}
use socketpp.UdpMux.{
  UdpMux, Registry, Opening, no_socket, no_options, no_bind, no_port, no_association, opened,
  Outcome, returned, hangs, expired, added, set_mux, register_peer, deregister_peer, set_catch_all,
  on_completion, make, get_or_create, drop_handle, leave_thread,
}
use socketpp.UdpMux.System.{
  empty, Step, gets, sticks, drops, registers, deregisters, sets, completes, leaves, Reach, here,
  next,
}

-- The entry at the address of each multiplexer names it, its poll thread runs, and nothing stops it.
pub record Inv (r : Registry) : Type 0 where
  pub lives :
      (id : ℕ)
      → id < r.made
      → ((r.muxes id).thread ≡ true)
        × ((r.muxes id).stop_requested ≡ false)
        × (lookup (r.muxes id).local_addr r.entries ≡ some id)
  pub named :
      (addr id : ℕ)
      → lookup addr r.entries ≡ some id
      → (id < r.made) × ((r.muxes id).local_addr ≡ addr)

-- A step that keeps address, thread and flag of a multiplexer.
set_mux-Inv :
    (r : Registry) (id : ℕ) (m : UdpMux)
    → Inv r
    → m.local_addr ≡ (r.muxes id).local_addr
    → m.thread ≡ (r.muxes id).thread
    → m.stop_requested ≡ (r.muxes id).stop_requested
    → Inv (set_mux r id m)
set_mux-Inv r id m v a t s = record {
  lives = λ i h. ground (arith, v.lives i h, a, t, s, ==_iff i id);
  named = λ addr i h. ground (arith, v.named addr i h, a, ==_iff i id);
}

live_expired : (r : Registry) (id : ℕ) → (r.muxes id).thread ≡ true → expired (r.muxes id) ≡ false
live_expired r id h = ground (arith, h)

-- Where the address has a multiplexer and the lock is free, `get_or_create` gives it.
get_or_create-shared :
    (r : Registry) (addr id : ℕ) (o : Opening)
    → Inv r
    → r.locked ≡ false
    → lookup addr r.entries ≡ some id
    → get_or_create r addr o
      ≡ returned
          (some id)
          (set_mux r id (record (r.muxes id) { handles = suc ((r.muxes id).handles) }))
unfolding get_or_create
get_or_create-shared r addr id o v f e =
    rw (f, e) (rw (live_expired r id (v.lives id (v.named addr id e).0).0) refl)

make-fails :
    (r : Registry) (addr : ℕ) (o : Opening)
    → ((arms : Bool) → o ≢ opened arms)
    → make r addr o ≡ hangs
unfolding make
make-fails r addr no_socket n = refl
make-fails r addr no_options n = refl
make-fails r addr no_bind n = refl
make-fails r addr no_port n = refl
make-fails r addr no_association n = refl
make-fails r addr (opened arms) n = absurd (n arms refl)

get_or_create-stuck :
    (r : Registry) (addr : ℕ) (o : Opening) → r.locked ≡ true → get_or_create r addr o ≡ hangs
unfolding get_or_create
get_or_create-stuck r addr o l = rw l refl

-- Where it has none, every failure is under the lock.
get_or_create-fails :
    (r : Registry) (addr : ℕ) (o : Opening)
    → lookup addr r.entries ≡ none
    → ((arms : Bool) → o ≢ opened arms)
    → get_or_create r addr o ≡ hangs
unfolding get_or_create
get_or_create-fails r addr o e n = elim (Bool-cases r.locked) [
  | inl l ↦ rw l refl
  | inr f ↦ ground (arith, f, e, make-fails r addr o n)
]

get_or_create-opened :
    (r : Registry) (addr : ℕ) (arms : Bool)
    → r.locked ≡ false
    → lookup addr r.entries ≡ none
    → get_or_create r addr (opened arms) ≡ returned (some r.made) (added r addr arms)
unfolding get_or_create
get_or_create-opened r addr arms f e = rw (f, e) refl

opened-or_not :
    (o : Opening) → ((arms : Bool) × (o ≡ opened arms)) ⊎ ((arms : Bool) → o ≢ opened arms)
opened-or_not (opened arms) = inl (arms, refl)
opened-or_not no_socket = inr (λ arms e. cc)
opened-or_not no_options = inr (λ arms e. cc)
opened-or_not no_bind = inr (λ arms e. cc)
opened-or_not no_port = inr (λ arms e. cc)
opened-or_not no_association = inr (λ arms e. cc)

state : Registry → Outcome → Registry
state r (returned got s) = s
state r hangs = r

state-Inv :
    (r s t : Registry) (got g : Option ℕ) (o : Outcome)
    → o ≡ returned g t
    → o ≡ returned got s
    → Inv t
    → Inv s
unfolding state
state-Inv r s t got g o e k v = let same : t ≡ s = ap (state r) (sym e ∙ k) in subst Inv same v

added-Inv :
    (r : Registry) (addr : ℕ) (arms : Bool)
    → Inv r
    → lookup addr r.entries ≡ none
    → Inv (added r addr arms)
added-Inv r addr arms v n = record {
  lives = λ i h. elim (Bool-cases (i == r.made)) [
    | inl new ↦
        ground
          (arith, new, lookup-insert addr addr r.made r.entries, ==_iff addr addr, ==_iff i r.made)
    | inr old ↦
        let (a, b, c) = v.lives i (ground (arith, h, old, ==_iff i r.made)) in
        ground (
          arith,
          a,
          b,
          c,
          n,
          old,
          lookup-insert addr (r.muxes i).local_addr r.made r.entries,
          ==_iff addr (r.muxes i).local_addr,
        )
  ];
  named = λ a i h. elim (Bool-cases (addr == a)) [
    | inl same ↦
        ground
          (arith, h, same, lookup-insert addr a r.made r.entries, ==_iff addr a, ==_iff i r.made)
    | inr other ↦
        let kept : lookup a r.entries ≡ some i =
          ground (arith, h, other, lookup-insert addr a r.made r.entries) in
        ground (arith, v.named a i kept, ==_iff i r.made)
  ];
}

gets-Inv :
    (r s : Registry) (addr : ℕ) (o : Opening) (got : Option ℕ)
    → Inv r
    → get_or_create r addr o ≡ returned got s
    → Inv s
gets-Inv r s addr o got v e = elim (Bool-cases r.locked) [
  | inl l ↦ let stuck : hangs ≡ returned got s = sym (get_or_create-stuck r addr o l) ∙ e in cc
  | inr f ↦ elim (Option-cases (lookup addr r.entries)) [
    | inr (id, k) ↦
        state-Inv r s _ got (some id) _ (get_or_create-shared r addr id o v f k) e
          (set_mux-Inv r id _ v refl refl refl)
    | inl n ↦ elim (opened-or_not o) [
      | inl (arms, q) ↦
          state-Inv r s _ got (some r.made) _
            (ap (get_or_create r addr) q ∙ get_or_create-opened r addr arms f n) e
            (added-Inv r addr arms v n)
      | inr q ↦
          let stuck : hangs ≡ returned got s = sym (get_or_create-fails r addr o n q) ∙ e in cc
    ]
  ]
]

drops-Inv :
    (r s : Registry) (id : ℕ) (got : Option ℕ)
    → Inv r
    → id < r.made
    → drop_handle r id ≡ returned got s
    → Inv s
unfolding drop_handle
drops-Inv r s id got v h e =
    let (a, b, c) = v.lives id h in
    state-Inv r s _ got none (drop_handle r id) (ground (arith, a, ==_iff id id)) e (
      set_mux-Inv r id (record (r.muxes id) { handles = (r.muxes id).handles - 1 }) v refl refl
        refl)

Step-Inv : {r s : Registry} → Step r s → Inv r → Inv s
unfolding register_peer deregister_peer set_catch_all on_completion leave_thread
Step-Inv {r} {s} (gets addr o got _ e) v = gets-Inv r s addr o got v e
Step-Inv {r} (sticks addr o f e) v = record { lives = v.lives; named = v.named }
Step-Inv {r} {s} (drops id got _ h p e) v = drops-Inv r s id got v h e
Step-Inv {r} (registers id peer cb h) v =
    set_mux-Inv r id _ v (ground arith) (ground arith) (ground arith)
Step-Inv {r} (deregisters id peer h) v = set_mux-Inv r id _ v refl refl refl
Step-Inv {r} (sets id cb h) v = set_mux-Inv r id _ v refl refl refl
Step-Inv {r} (completes id d arms h t) v =
    set_mux-Inv r id _ v (ground arith) (ground arith) (ground arith)
Step-Inv {r} (leaves id h q) v = absurd (ground (arith, v.lives id h, q))

Reach-Inv : (m : ℕ → UdpMux) {r : Registry} → Reach (empty m) r → Inv r
unfolding lookup
Reach-Inv m here = record {
  lives = λ i h. absurd (omega arith);
  named = λ a i h. absurd (ground (arith, h));
}
Reach-Inv m (next q st) = Step-Inv st (Reach-Inv m q)

-- Whatever the threads do: each local address has one multiplexer at most, for which `get_or_create`
-- gives a further handle, whatever the system calls would do, unless a call of `get_or_create` has hung
-- with the registry's lock, after which every call hangs. And a multiplexer is never destroyed, also
-- when no handle of it is left: its poll thread runs for ever, as nothing requests its stop.
pub one_mux_for_ever :
    (m : ℕ → UdpMux) (r : Registry) (i j : ℕ) (o : Opening)
    → Reach (empty m) r
    → i < r.made
    → j < r.made
    → ((r.muxes i).local_addr ≡ (r.muxes j).local_addr → i ≡ j)
      × (((r.locked ≡ true) × (get_or_create r (r.muxes i).local_addr o ≡ hangs))
          ⊎ ((s : Registry) × (r.locked ≡ false)
              × (get_or_create r (r.muxes i).local_addr o ≡ returned (some i) s)
              × ((s.muxes i).handles ≡ suc ((r.muxes i).handles))))
      × ((r.muxes i).thread ≡ true)
      × ((r.muxes i).stop_requested ≡ false)
one_mux_for_ever m r i j o q hi hj =
    let v = Reach-Inv m q in
    let (t, f, e) = v.lives i hi in
    (
      λ same. ground (arith, e, (v.lives j hj).2, same),
      elim (Bool-cases r.locked) [
        | inl l ↦ inl (l, get_or_create-stuck r (r.muxes i).local_addr o l)
        | inr n ↦ inr (
          _,
          n,
          get_or_create-shared r (r.muxes i).local_addr i o v n e,
          ground (arith, ==_iff i i),
        )
      ],
      t,
      f,
    )

-- Where the local address has no multiplexer and a system call of `get_or_create` fails, the call
-- does not return an error: it hangs. Where none fails and the lock is free it returns a new
-- multiplexer.
pub failed_creation_hangs :
    (m : ℕ → UdpMux) (r : Registry) (addr : ℕ) (o : Opening)
    → Reach (empty m) r
    → ((i : ℕ) → i < r.made → (r.muxes i).local_addr ≢ addr)
    → r.locked ≡ false
    → (((arms : Bool) → o ≢ opened arms) → get_or_create r addr o ≡ hangs)
      × ((arms : Bool)
          → get_or_create r addr (opened arms) ≡ returned (some r.made) (added r addr arms))
failed_creation_hangs m r addr o q none_there free =
    let v = Reach-Inv m q in
    let absent : lookup addr r.entries ≡ none = elim (Option-cases (lookup addr r.entries)) [
      | inl n ↦ n
      | inr (id, e) ↦ absurd (none_there id (v.named addr id e).0 (v.named addr id e).1)
    ] in
    (get_or_create-fails r addr o absent, λ arms. get_or_create-opened r addr arms free absent)
