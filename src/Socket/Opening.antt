-- ===== src/Socket/Opening.antt =====
-- What opening (src/socket/udp.cpp, src/socket/tcp_listener.cpp) does to the descriptors that are open.
use socketpp.Base.{
  ℕ, Bool, true, false, Option, none, some, List, ◌∷◌, ◌≡◌, ◌≢◌, ◌∙◌, refl, sym, ap, ◌==◌, ==_iff,
  Bool-cases, Option-cases, inl, inr, if◌then◌else◌, arith,
}
use socketpp.Errors.{ErrorCode}
use socketpp.Net.Inet4.{Result, ok, err}
use socketpp.Net.SockAddress.{SockAddress}
use socketpp.Options.{Platform, linux, macos, windows, SocketOptions, Layout, OptName, int_option}
use socketpp.Socket.{
  AddressFamily, SocketType, stream, dgram, Handle, Log, Sys, Socket, socket_call, bind_call,
  listen_call, set_cloexec, no_sigpipe, option_call, close, close_open, move_assign, bind, create,
  options_applied,
}
use socketpp.Socket.Open.{
  applied_pre_bind, applied_post_bind, adopt, udp_open, exclusive, listener_open, with_new,
}
use socketpp.Socket.Descriptors.{
  live, effect, remove, Fresh, Made, made, failed, Settled, kept, closed,
}
use socketpp.Socket.Live.{
  use_lem, settings_lem, close_lem, on_open_lem, set_non_blocking_lem, guard_lem, returned_lem,
  created_lem,
}

-- The descriptor of a handle, before others.
abbrev pub held : Handle → List ℕ → List ℕ
held none fds = fds
held (some fd) fds = fd ∷ fds

-- `this` holds a new descriptor, or there is an error and it holds what is left.
pub data Opened (fds : List ℕ) (r : Log × Socket × Option ErrorCode) : Type 0 where
  opened : (fd : ℕ) → r.1.handle ≡ some fd → live r.0 ≡ some (fd ∷ fds) → r.2 ≡ none → Opened fds r
  refused : (e : ErrorCode) → live r.0 ≡ some (held r.1.handle fds) → r.2 ≡ some e → Opened fds r

Settled-Opened :
    (fd : ℕ) (fds : List ℕ) (r : Log × Socket × Option ErrorCode) → Settled fd fds r → Opened fds r
Settled-Opened fd fds r (kept h o e) = opened fd h o e
Settled-Opened fd fds r (closed x h o e) = refused x (o ∙ ap (λ k. some (held k fds)) (sym h)) e

-- A new descriptor is another than one that is open.
abbrev handle_of : Result Socket → Handle
handle_of (ok s) = s.handle
handle_of (err e) = none

if-true : {A : Type 0} (b : Bool) (x y : A) → b ≡ true → (if b then x else y) ≡ x
if-true b x y h = rw h refl

other : (a b : ℕ) → (a == b) ≡ false → (b == a) ≡ false
other a b h = ground arith

some_ne_none : {A : Type 0} {x : A} → some x ≢ none
some_ne_none e = cc

remove-second :
    (h fd : ℕ) (fds : List ℕ)
    → remove fd (h ∷ fds) ≡ none
    → remove h (fd ∷ h ∷ fds) ≡ some (fd ∷ fds)
remove-second h fd fds n = elim (Bool-cases (fd == h)) [
  | inl y ↦ absurd (some_ne_none (sym (if-true (fd == h) _ _ y) ∙ n))
  | inr d ↦ rw (other fd h d, (==_iff h h).1 refl) refl
]

module _ (sys : Sys) (fresh : Fresh sys) where
  pub create_lem :
      (p : Platform) (af : AddressFamily) (type : SocketType) (protocol : ℕ) (log : Log)
      (fds : List ℕ)
      → live log ≡ some fds
      → Made fds (create sys p af type protocol log)
  unfolding create effect
  create_lem linux af type protocol log fds o =
      created_lem sys fds (socket_call af type true protocol) log (λ s log. (log, s, none)) fresh
        refl (λ r. refl) o (λ fd s log e o. kept e o refl)
  create_lem macos af type protocol log fds o =
      created_lem sys fds (socket_call af type false protocol) log _ fresh refl (λ r. refl) o
        (λ fd s log e o.
          guard_lem sys fd fds _ s _ e
            (use_lem sys (set_cloexec s.handle) s.handle fd log fds (λ r x. refl) e o)
            (λ log o.
              guard_lem sys fd fds _ s _ e (set_non_blocking_lem sys macos true s fd log fds e o)
                (λ log o.
                  guard_lem sys fd fds _ s _ e
                    (use_lem sys (no_sigpipe s.handle) s.handle fd log fds (λ r x. refl) e o)
                    (λ log o. kept e o refl))))
  create_lem windows af type protocol log fds o =
      created_lem sys fds (socket_call af type false protocol) log _ fresh refl (λ r. refl) o
        (λ fd s log e o.
          guard_lem sys fd fds _ s _ e (set_non_blocking_lem sys windows true s fd log fds e o)
            (λ log o. kept e o refl))

  adopt_none :
      (s : Socket) (log : Log) (fds : List ℕ)
      → s.handle ≡ none
      → live log ≡ some fds
      → live (close sys s log).0 ≡ some fds
  unfolding close close_open
  adopt_none s log fds e o = rw e o

  close-replaced :
      (s : Socket) (log : Log) (fd : ℕ) (fds : List ℕ)
      → remove fd (held s.handle fds) ≡ none
      → live log ≡ some (fd ∷ held s.handle fds)
      → live (close sys s log).0 ≡ some (fd ∷ fds)
  close-replaced s log fd fds n o = elim (Option-cases s.handle) [
    | inl e ↦ adopt_none s log (fd ∷ fds) e (o ∙ ap (λ h. some (fd ∷ held h fds)) e)
    | inr (h, e) ↦
        (close_lem sys s h log (fd ∷ h ∷ fds) (fd ∷ fds) e
          (remove-second h fd fds (ap (λ k. remove fd (held k fds)) (sym e) ∙ n))
          (o ∙ ap (λ k. some (fd ∷ held k fds)) e)).0
  ]

  pub adopt_lem :
      (fds : List ℕ) (r : Log × Result Socket) (s : Socket)
      (k : Socket → Log → Log × Socket × Option ErrorCode)
      → Made (held s.handle fds) r
      → ((fd : ℕ) (new : Socket) (log : Log)
          → new.handle ≡ some fd
          → live log ≡ some (fd ∷ fds)
          → Settled fd fds (k new log))
      → Opened fds (adopt sys r s k)
  unfolding adopt move_assign
  adopt_lem fds (log, err x) s k (made fd t q e o n) f = cc
  adopt_lem fds (log, err x) s k (failed e q o) f = refused x o refl
  adopt_lem fds (log, ok new) s k (failed e q o) f = cc
  adopt_lem fds (log, ok new) s k (made fd t q e o n) f =
      Settled-Opened fd fds _
        (f fd new (close sys s log).0 (ap handle_of q ∙ e) (close-replaced s log fd fds n o))

  pub with_new_lem :
      (fds : List ℕ) (r : Log × Result Socket) (k : Socket → Log → Log × Socket × Option ErrorCode)
      → Made fds r
      → ((fd : ℕ) (new : Socket) (log : Log)
          → new.handle ≡ some fd
          → live log ≡ some (fd ∷ fds)
          → Settled fd fds (k new log))
      → Made fds (with_new sys r k)
  unfolding with_new
  with_new_lem fds (log, err x) k (made fd t q e o n) f = cc
  with_new_lem fds (log, err x) k (failed e q o) f = failed x refl o
  with_new_lem fds (log, ok new) k (failed e q o) f = cc
  with_new_lem fds (log, ok new) k (made fd t q e o n) f =
      returned_lem sys fd fds _ n (f fd new log (ap handle_of q ∙ e) o)

  pub options_applied_lem :
      (p : Platform) (l : Layout) (get : Bool → Option ℕ) (o : SocketOptions) (h : Handle) (fd : ℕ)
      (log : Log) (fds : List ℕ)
      → h ≡ some fd
      → live log ≡ some (fd ∷ fds)
      → live (options_applied sys p l get o h log).0 ≡ some (fd ∷ fds)
  unfolding options_applied
  options_applied_lem p l get o h fd log fds e k = settings_lem sys h fd _ log fds e k

  pub bind_lem :
      (addr : SockAddress) (s : Socket) (fd : ℕ) (log : Log) (fds : List ℕ)
      → s.handle ≡ some fd
      → live log ≡ some (fd ∷ fds)
      → live (bind sys addr s log).0 ≡ some (fd ∷ fds)
  unfolding bind effect
  bind_lem addr s fd log fds e o =
      on_open_lem sys s.handle fd log _ fds e
        (use_lem sys (bind_call s.handle addr) s.handle fd log fds (λ r x. refl) e o)

  module _ (p : Platform) (l : Layout) (get : Bool → Option ℕ) where
    pub udp_open_lem :
        (af : AddressFamily) (addr : SockAddress) (o : SocketOptions) (s : Socket) (log : Log)
        (fds : List ℕ)
        → live log ≡ some (held s.handle fds)
        → Opened fds (udp_open p sys l get af addr o s log)
    unfolding udp_open applied_pre_bind applied_post_bind
    udp_open_lem af addr o s log fds k =
        adopt_lem fds _ s _ (create_lem p af dgram 0 log (held s.handle fds) k) (λ fd s log e k.
          guard_lem sys fd fds _ s _ e (settings_lem sys s.handle fd _ log fds e k) (λ log k.
            guard_lem sys fd fds _ s _ e (bind_lem addr s fd log fds e k) (λ log k.
              guard_lem sys fd fds _ s _ e (settings_lem sys s.handle fd _ log fds e k)
                (λ log k. kept e k refl))))

    exclusive_lem :
        (q : Platform) (o : SocketOptions) (s : Socket) (fd : ℕ) (log : Log) (fds : List ℕ)
        (rest : Log → Log × Socket × Option ErrorCode)
        → s.handle ≡ some fd
        → live log ≡ some (fd ∷ fds)
        → ((log : Log) → live log ≡ some (fd ∷ fds) → Settled fd fds (rest log))
        → Settled fd fds (exclusive p sys l get q o s log rest)
    unfolding exclusive effect
    exclusive_lem windows o s fd log fds rest e k f = elim (Bool-cases o.has_reuse_addr) [
      | inl y ↦ rw y (f log k)
      | inr n ↦ rw n (
          guard_lem sys fd fds _ s _ e
            (use_lem sys (option_call s.handle (int_option OptName.so_exclusiveaddruse 1)) s.handle
              fd log fds (λ r x. refl) e k)
            f)
    ]
    exclusive_lem _ o s fd log fds rest e k f =
        guard_lem sys fd fds _ s _ e
          (use_lem sys (option_call s.handle (int_option OptName.so_reuseaddr 1)) s.handle fd log
            fds (λ r x. refl) e k)
          (λ log k. f _ (
            use_lem sys (option_call s.handle (int_option OptName.so_reuseport 1)) s.handle fd log
              fds (λ r x. refl) e k))

    pub listener_open_lem :
        (af : AddressFamily) (addr : SockAddress) (backlog : ℕ) (o : SocketOptions) (s : Socket)
        (log : Log) (fds : List ℕ)
        → live log ≡ some (held s.handle fds)
        → Opened fds (listener_open p sys l get af addr backlog o s log)
    unfolding listener_open effect
    listener_open_lem af addr backlog o s log fds k =
        adopt_lem fds _ s _ (create_lem p af stream 0 log (held s.handle fds) k) (λ fd s log e k.
          exclusive_lem p o s fd log fds _ e k (λ log k.
            guard_lem sys fd fds _ s _ e (options_applied_lem p l get o s.handle fd log fds e k)
              (λ log k. guard_lem sys fd fds _ s _ e (bind_lem addr s fd log fds e k) (λ log k.
                guard_lem sys fd fds _ s _ e
                  (use_lem sys (listen_call s.handle backlog) s.handle fd log fds (λ r x. refl) e k)
                  (λ log k. kept e k refl)))))
