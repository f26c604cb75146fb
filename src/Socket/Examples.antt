-- ===== src/Socket/Examples.antt =====
-- The theorems on sockets at a concrete system and program.
use socketpp.Base.{
  ℕ, suc, ◌+◌, ◌<◌, Bool, true, false, Option, none, some, List, [], ◌∷◌, ◌++◌, ◌≡◌, ◌∙◌, refl, sym,
  ap, ◌==◌, Bool-cases, inl, inr, arith,
}
use socketpp.Errors.{system_code}
use socketpp.Net.Inet4.{Result, ok, err}
use socketpp.Net.SockAddress.{SockAddress}
use socketpp.Options.{macos, SocketOptions, Layout, other_family}
use socketpp.Options.Build
use socketpp.Socket.{ipv4, ipv6, stream, both, Call, bind_call, Log, Sys, invalid, close, create}
use socketpp.Socket.Open.{TcpListener}
use socketpp.Socket.Descriptors.{live, makes_descriptor, remove, Fresh}
use socketpp.Socket.Opening.{held}
use socketpp.Socket.Owned.{
  Op, open_udp, open_listener, close_it, shutdown_it, assign_created, release_it, apply_options,
  do_ops, descriptors_are_closed_once,
}

abbrev sum : List ℕ → ℕ
sum [] = 0
sum (x ∷ xs) = x + sum xs

-- Above every descriptor that is open.
abbrev next : Option (List ℕ) → ℕ
next none = 3
next (some fds) = suc (sum fds)

-- Every call succeeds, except `bind`.
abbrev refuses : Call → Bool
refuses (bind_call h addr) = true
refuses _ = false

abbrev answer : Bool → Bool → ℕ → Result ℕ
answer true b n = ok n
answer false true n = err (system_code 98)
answer false false n = ok 0

abbrev sys : Sys
sys log c = answer (makes_descriptor c) (refuses c) (next (live log))

remove-above : (fd : ℕ) (fds : List ℕ) → sum fds < fd → remove fd fds ≡ none
remove-above fd [] h = refl
remove-above fd (x ∷ xs) h = elim (Bool-cases (fd == x)) [
  | inl y ↦ absurd (ground (arith, h))
  | inr n ↦ rw (n, remove-above fd xs (omega (arith, h))) refl
]

abbrev descriptor : Result ℕ → ℕ
descriptor (ok n) = n
descriptor (err e) = 0

sys-Fresh : Fresh sys
sys-Fresh log c fd fds o m e = remove-above fd fds (
    omega (
      arith,
      ap descriptor (sym (ap (λ b. answer b (refuses c) (next (live log))) m) ∙ e),
      ap next o,
    ))

abbrev layout : Layout
layout = record {
  sa_family = λ bs. other_family;
  sin_addr = λ bs. record { b0 = 0; b1 = 0; b2 = 0; b3 = 0 };
  sin6_addr = λ bs. [];
  sin6_scope_id = λ bs. 0;
}

abbrev sizes : Bool → Option ℕ
sizes b = none

abbrev addr : SockAddress
addr = record { storage = []; len = 16 }

abbrev options : SocketOptions
options = Build.send_buf 4096 Build.create

-- Opened twice, the second time without success, used afterwards, created anew and released.
abbrev program : List Op
program =
    open_listener ipv4 addr 128 options
    ∷ open_udp ipv6 addr options
    ∷ apply_options options
    ∷ close_it
    ∷ shutdown_it both
    ∷ assign_created ipv4 stream 0
    ∷ release_it
    ∷ []

abbrev listener : TcpListener
listener = record {
  socket = record { handle = some 1; dispatcher = false; on_close_deregister = false };
  accepted_opts = options;
  has_accepted_opts = true;
}

-- A log with one descriptor, 1, that is open.
abbrev past : Log
past = (Call.socket_call ipv4 stream true 0, ok 1) ∷ []

past-live : live past ≡ some (1 ∷ [])
unfolding live
past-live = refl

descriptors_are_closed_once_example :
    (let (log, s, given) = do_ops macos sys layout sizes program invalid past [] in
      (live log ≡ some (held s.handle (given ++ 1 ∷ [])))
      × (live (close sys s log).0 ≡ some (given ++ 1 ∷ [])))
descriptors_are_closed_once_example =
    descriptors_are_closed_once macos sys layout sizes sys-Fresh program (1 ∷ []) past past-live
