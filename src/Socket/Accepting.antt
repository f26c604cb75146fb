-- ===== src/Socket/Accepting.antt =====
-- What `accept_raw` (src/socket/tcp_listener.cpp) and `connect_impl` (src/socket/tcp_connector.cpp) do to
-- the descriptors that are open.
use socketpp.Socket.Opening.{held, create_lem, with_new_lem, options_applied_lem, bind_lem}
use socketpp.Base.{
  ℕ, Bool, true, false, Option, none, some, List, ◌∷◌, ◌≡◌, ◌∙◌, refl, sym, ap, subst, Bool-cases,
  Option-cases, inl, inr,
}
use socketpp.Errors.{ErrorCode, socketpp_code, invalid_state}
use socketpp.Net.SockAddress.{SockAddress}
use socketpp.Options.{Platform, linux, macos, windows, SocketOptions, Layout, OptName, int_option}
use socketpp.Socket.{
  AddressFamily, stream, dgram, option_call, Log, Sys, Socket, accept_call, connect_call,
  set_cloexec, no_inherit, no_sigpipe,
}
use socketpp.Socket.Open.{
  TcpListener, accepted, accept_open, accept_from, accept_raw, connected, connect_impl,
  create_connected_udp,
}
use socketpp.Socket.Descriptors.{live, effect, Fresh, Made, failed, Settled, kept, used-head, opens}
use socketpp.Socket.Live.{use_lem, set_non_blocking_lem, guard_lem, created_lem}

module _ (sys : Sys) (fresh : Fresh sys) where
  module _ (p : Platform) (l : Layout) (get : Bool → Option ℕ) where
    accepted_lem :
        (t : TcpListener) (s : Socket) (fd : ℕ) (log : Log) (fds : List ℕ)
        → s.handle ≡ some fd
        → live log ≡ some (fd ∷ fds)
        → Settled fd fds (accepted p sys l get t s log)
    unfolding accepted
    accepted_lem t s fd log fds e k = elim (Bool-cases t.has_accepted_opts) [
      | inl y ↦ rw y (
          guard_lem sys fd fds _ s _ e
            (options_applied_lem sys fresh p l get t.accepted_opts s.handle fd log fds e k)
            (λ log k. kept e k refl))
      | inr n ↦ rw n (kept e k refl)
    ]

    accept_open_lem :
        (q : Platform) (t : TcpListener) (h : ℕ) (log : Log) (fds : List ℕ)
        → t.socket.handle ≡ some h
        → live log ≡ some (h ∷ fds)
        → Made (h ∷ fds) (accept_open p sys l get q t log)
    unfolding accept_open effect
    accept_open_lem linux t h log fds e k =
        created_lem sys (h ∷ fds) (accept_call t.socket.handle true) log _ fresh refl
          (λ r. ap (opens r) (used-head t.socket.handle h fds e)) k
          (λ fd s log e k. accepted_lem t s fd log (h ∷ fds) e k)
    accept_open_lem macos t h log fds e k =
        created_lem sys (h ∷ fds) (accept_call t.socket.handle false) log _ fresh refl
          (λ r. ap (opens r) (used-head t.socket.handle h fds e)) k
          (λ fd s log e k.
            guard_lem sys fd (h ∷ fds) _ s _ e
              (use_lem sys (set_cloexec s.handle) s.handle fd log (h ∷ fds) (λ r x. refl) e k)
              (λ log k.
                guard_lem sys fd (h ∷ fds) _ s _ e
                  (set_non_blocking_lem sys macos true s fd log (h ∷ fds) e k)
                  (λ log k.
                    guard_lem sys fd (h ∷ fds) _ s _ e
                      (use_lem sys (no_sigpipe s.handle) s.handle fd log (h ∷ fds) (λ r x. refl) e
                        k)
                      (λ log k. accepted_lem t s fd log (h ∷ fds) e k))))
    accept_open_lem windows t h log fds e k =
        created_lem sys (h ∷ fds) (accept_call t.socket.handle false) log _ fresh refl
          (λ r. ap (opens r) (used-head t.socket.handle h fds e)) k
          (λ fd s log e k.
            guard_lem sys fd (h ∷ fds) _ s _ e
              (set_non_blocking_lem sys windows true s fd _ (h ∷ fds) e
                (use_lem sys (no_inherit s.handle) s.handle fd log (h ∷ fds) (λ r x. refl) e k))
              (λ log k. accepted_lem t s fd log (h ∷ fds) e k))

    pub accept_raw_lem :
        (t : TcpListener) (log : Log) (fds : List ℕ)
        → live log ≡ some (held t.socket.handle fds)
        → Made (held t.socket.handle fds) (accept_raw p sys l get t log)
    unfolding accept_raw accept_from
    accept_raw_lem t log fds k = elim (Option-cases t.socket.handle) [
      | inl e ↦
          subst (λ h. Made (held h fds) (accept_from p sys l get h t log)) (sym e)
            (failed (socketpp_code invalid_state) refl (k ∙ ap (λ h. some (held h fds)) e))
      | inr (h, e) ↦
          subst (λ x. Made (held x fds) (accept_from p sys l get x t log)) (sym e)
            (accept_open_lem p t h log fds e (k ∙ ap (λ x. some (held x fds)) e))
    ]

    connected_lem : (r : Log × Option ErrorCode) → (connected r).0 ≡ r.0
    unfolding connected
    connected_lem (log, none) = refl
    connected_lem (log, some e) = refl

    pub connect_impl_lem :
        (af : AddressFamily) (addr : SockAddress) (o : SocketOptions) (log : Log) (fds : List ℕ)
        → live log ≡ some fds
        → Made fds (connect_impl p sys l get af addr o log)
    unfolding connect_impl effect
    connect_impl_lem af addr o log fds k =
        with_new_lem sys fresh fds _ _ (create_lem sys fresh p af stream 0 log fds k)
          (λ fd s log e k.
            guard_lem sys fd fds _ s _ e
              (options_applied_lem sys fresh p l get o s.handle fd log fds e k)
              (λ log k.
                guard_lem sys fd fds _ s _ e
                  (ap live (connected_lem _)
                    ∙ use_lem sys (connect_call s.handle addr) s.handle fd log fds (λ r x. refl) e
                        k)
                  (λ log k. kept e k refl)))

    pub create_connected_udp_lem :
        (af : AddressFamily) (local peer : SockAddress) (o : SocketOptions) (log : Log)
        (fds : List ℕ)
        → live log ≡ some fds
        → Made fds (create_connected_udp p sys l get af local peer o log)
    unfolding create_connected_udp effect
    create_connected_udp_lem af local peer o log fds k =
        with_new_lem sys fresh fds _ _ (create_lem sys fresh p af dgram 0 log fds k)
          (λ fd s log e k.
            guard_lem sys fd fds _ s _ e
              (use_lem sys (option_call s.handle (int_option OptName.so_reuseaddr 1)) s.handle fd
                log fds (λ r x. refl) e k)
              (λ log k.
                guard_lem sys fd fds _ s _ e
                  (options_applied_lem sys fresh p l get o s.handle fd _ fds e (
                    use_lem sys (option_call s.handle (int_option OptName.so_reuseport 1)) s.handle
                      fd log fds (λ r x. refl) e k))
                  (λ log k.
                    guard_lem sys fd fds _ s _ e (bind_lem sys fresh local s fd log fds e k)
                      (λ log k.
                        guard_lem sys fd fds _ s _ e
                          (use_lem sys (connect_call s.handle peer) s.handle fd log fds
                            (λ r x. refl) e k)
                          (λ log k. kept e k refl)))))
