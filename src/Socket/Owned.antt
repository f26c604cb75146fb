-- ===== src/Socket/Owned.antt =====
-- A program that uses a socket of src/socket/socket.cpp, and the descriptors that it leaves open.
use socketpp.Base.{
  ℕ, Bool, true, Option, none, some, List, [], ◌∷◌, ◌≡◌, ◌∙◌, refl, sym, ap, subst, Option-cases,
  Bool-cases, ◌++◌, inl, inr,
}
use socketpp.Errors.{ErrorCode}
use socketpp.Net.SockAddress.{SockAddress}
use socketpp.Options.{Platform, SocketOptions, Layout}
use socketpp.Socket.{
  AddressFamily, SocketType, ShutdownMode, Log, Sys, Socket, shutdown_call, bind_call, invalid,
  Handle, deregistered, release, move_construct, close, close_open, shutdown, bind,
  set_non_blocking, create, apply, on_open,
}
use socketpp.Socket.Open.{udp_open, listener_open, adopt}
use socketpp.Socket.Descriptors.{live, effect, told, and_then, Fresh, kept, remove-head}
use socketpp.Socket.Live.{use_lem, close_lem, deregistered_lem, non_blocking_open_lem}
use socketpp.Socket.Opening.{
  held, Opened, opened, refused, create_lem, adopt_lem, options_applied_lem, udp_open_lem,
  listener_open_lem,
}

-- What a program does to a socket.
pub data Op : Type 0 where
  open_udp : AddressFamily → SockAddress → SocketOptions → Op
  open_listener : AddressFamily → SockAddress → ℕ → SocketOptions → Op
  assign_created : AddressFamily → SocketType → ℕ → Op
  close_it : Op
  shutdown_it : ShutdownMode → Op
  bind_it : SockAddress → Op
  non_blocking : Bool → Op
  apply_options : SocketOptions → Op
  set_dispatcher : Bool → Op
  set_close_callback : Op
  release_it : Op
  move_away : Op

module _ (p : Platform) (sys : Sys) (l : Layout) (get : Bool → Option ℕ) where
  -- The log, the socket and the handle that the operation hands over to the program or to another
  -- socket, which `release` and the move constructor do.
  unfoldable pub do_op : Op → Socket → Log → Log × Socket × Handle
  unfolding release move_construct
  do_op (open_udp af addr o) s log =
      let (log, s, e) = udp_open p sys l get af addr o s log in (log, s, none)
  do_op (open_listener af addr backlog o) s log =
      let (log, s, e) = listener_open p sys l get af addr backlog o s log in (log, s, none)
  do_op (assign_created af type protocol) s log =
      let (log, s, e) = adopt sys (create sys p af type protocol log) s (λ s log. (log, s, none)) in
      (log, s, none)
  do_op close_it s log = let (log, s, e) = close sys s log in (log, s, none)
  do_op (shutdown_it how) s log = ((shutdown sys how s log).0, s, none)
  do_op (bind_it addr) s log = ((bind sys addr s log).0, s, none)
  do_op (non_blocking b) s log = ((set_non_blocking sys p b s log).0, s, none)
  do_op (apply_options o) s log = ((apply sys p l get o s log).0, s, none)
  do_op (set_dispatcher b) s log = (log, record s { dispatcher = b }, none)
  do_op set_close_callback s log = (log, record s { on_close_deregister = true }, none)
  do_op release_it s log = release sys s log
  do_op move_away s log = let (new, s) = move_construct sys s in (log, s, new.handle)

  -- With the descriptors handed over so far.
  unfoldable pub do_ops : List Op → Socket → Log → List ℕ → Log × Socket × List ℕ
  unfolding do_op
  do_ops [] s log given = (log, s, given)
  do_ops (op ∷ ops) s log given =
      let (log, s, h) = do_op op s log in do_ops ops s log (held h given)

  module _ (fresh : Fresh sys) where
    abbrev Owns : List ℕ → Log × Socket → Type 0
    Owns fds r = live r.0 ≡ some (held r.1.handle fds)

    Opened-Owns :
        (fds : List ℕ) (r : Log × Socket × Option ErrorCode) → Opened fds r → Owns fds (r.0, r.1)
    Opened-Owns fds r (opened fd h o e) = o ∙ ap (λ k. some (held k fds)) (sym h)
    Opened-Owns fds r (refused x o e) = o

    -- An operation that needs an open socket.
    on_open-Owns :
        (fds : List ℕ) (s : Socket) (log : Log) (r : Log × Option ErrorCode)
        → live log ≡ some (held s.handle fds)
        → ((fd : ℕ) → s.handle ≡ some fd → live log ≡ some (fd ∷ fds) → live r.0 ≡ some (fd ∷ fds))
        → live (on_open s.handle log r).0 ≡ some (held s.handle fds)
    on_open-Owns fds s log r o f = elim (Option-cases s.handle) [
      | inl e ↦
          subst (λ h. live (on_open h log r).0 ≡ some (held h fds)) (sym e)
            (o ∙ ap (λ h. some (held h fds)) e)
      | inr (fd, e) ↦
          subst (λ h. live (on_open h log r).0 ≡ some (held h fds)) (sym e)
            (f fd e (o ∙ ap (λ h. some (held h fds)) e))
    ]

    close-Owns :
        (fds : List ℕ) (s : Socket) (log : Log)
        → live log ≡ some (held s.handle fds)
        → (live (close sys s log).0 ≡ some fds) × ((close sys s log).1.handle ≡ none)
    unfolding close close_open
    close-Owns fds s log o = elim (Option-cases s.handle) [
      | inl e ↦
          subst
            (λ h.
              (live (close_open sys h s log).0 ≡ some fds)
              × ((close_open sys h s log).1.handle ≡ none))
            (sym e) (o ∙ ap (λ h. some (held h fds)) e, e)
      | inr (fd, e) ↦
          close_lem sys s fd log (fd ∷ fds) fds e (remove-head fd fds)
            (o ∙ ap (λ h. some (held h fds)) e)
    ]

    release-Owns :
        (fds : List ℕ) (s : Socket) (log : Log)
        → live log ≡ some (held s.handle fds)
        → live (deregistered sys s log) ≡ some (held s.handle fds)
    unfolding deregistered live effect
    release-Owns fds s log k = elim (Option-cases s.handle) [
      | inr (fd, e) ↦
          deregistered_lem sys s fd log (fd ∷ fds) fds e (remove-head fd fds)
            (k ∙ ap (λ h. some (held h fds)) e)
          ∙ ap (λ h. some (held h fds)) (sym e)
      | inl e ↦ elim (Bool-cases s.on_close_deregister) [
        | inl y ↦ rw y (ap (λ x. and_then x (told s.handle)) k ∙ rw e refl)
        | inr n ↦ rw n k
      ]
    ]

    do_op-Owns :
        (op : Op) (fds : List ℕ) (s : Socket) (log : Log)
        → live log ≡ some (held s.handle fds)
        → Owns (held (do_op op s log).2 fds) ((do_op op s log).0, (do_op op s log).1)
    unfolding do_op release move_construct invalid shutdown bind set_non_blocking apply effect
    do_op-Owns (open_udp af addr o) fds s log k =
        Opened-Owns fds _ (udp_open_lem sys fresh p l get af addr o s log fds k)
    do_op-Owns (open_listener af addr backlog o) fds s log k =
        Opened-Owns fds _ (listener_open_lem sys fresh p l get af addr backlog o s log fds k)
    do_op-Owns (assign_created af type protocol) fds s log k = Opened-Owns fds _ (
        adopt_lem sys fresh fds _ s _
          (create_lem sys fresh p af type protocol log (held s.handle fds) k)
          (λ fd s log e k. kept e k refl))
    do_op-Owns close_it fds s log k =
        let (gone, shut) = close-Owns fds s log k in gone ∙ ap (λ h. some (held h fds)) (sym shut)
    do_op-Owns (shutdown_it how) fds s log k =
        on_open-Owns fds s log _ k
          (λ fd e o. use_lem sys (shutdown_call s.handle how) s.handle fd log fds (λ r x. refl) e o)
    do_op-Owns (bind_it addr) fds s log k =
        on_open-Owns fds s log _ k
          (λ fd e o. use_lem sys (bind_call s.handle addr) s.handle fd log fds (λ r x. refl) e o)
    do_op-Owns (non_blocking b) fds s log k =
        on_open-Owns fds s log _ k (λ fd e o. non_blocking_open_lem sys p b s.handle fd log fds e o)
    do_op-Owns (apply_options o) fds s log k =
        on_open-Owns fds s log _ k
          (λ fd e o'. options_applied_lem sys fresh p l get o s.handle fd log fds e o')
    do_op-Owns (set_dispatcher b) fds s log k = k
    do_op-Owns set_close_callback fds s log k = k
    do_op-Owns release_it fds s log k = release-Owns fds s log k
    do_op-Owns move_away fds s log k = k

    held-append : (h : Handle) (xs fds : List ℕ) → held h (xs ++ fds) ≡ held h xs ++ fds
    held-append none xs fds = refl
    held-append (some fd) xs fds = refl

    do_ops-Owns :
        (ops : List Op) (given fds : List ℕ) (s : Socket) (log : Log)
        → live log ≡ some (held s.handle (given ++ fds))
        → (let (log, s, given) = do_ops ops s log given in
            live log ≡ some (held s.handle (given ++ fds)))
    unfolding do_ops
    do_ops-Owns [] given fds s log k = k
    do_ops-Owns (op ∷ ops) given fds s log k =
        let (log', s', h) = do_op op s log in
        do_ops-Owns ops (held h given) fds s' log' (
          do_op-Owns op (given ++ fds) s log k
          ∙ ap (λ xs. some (held s'.handle xs)) (held-append h given fds))

    -- Whatever a program does to a socket that is invalid at first - opening it again and again, for UDP
    -- or as a listener, closing it twice, using it while it is closed, releasing its descriptor, moving
    -- it to another socket, with every call of the system free to fail -, no call is made on a
    -- descriptor that is not open; what is open is the descriptor that the socket holds, those that it
    -- handed over by `release` or a move, and those of before; and when it is destroyed, those handed
    -- over and those of before are open, and no other: every other descriptor that the system gave is
    -- closed once. Nothing else is done to the descriptors handed over, the system gives no descriptor
    -- that is open, and the callback of the dispatcher makes no call on `invalid_socket`.
    pub descriptors_are_closed_once :
        (ops : List Op) (fds : List ℕ) (log : Log)
        → live log ≡ some fds
        → (let (log, s, given) = do_ops ops invalid log [] in
            (live log ≡ some (held s.handle (given ++ fds)))
            × (live (close sys s log).0 ≡ some (given ++ fds)))
    unfolding invalid
    descriptors_are_closed_once ops fds log o =
        let (log', s, given) = do_ops ops invalid log [] in
        let run = do_ops-Owns ops [] fds invalid log o in
        (run, (close-Owns (given ++ fds) s log' run).0)
