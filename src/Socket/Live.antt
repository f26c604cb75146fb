-- ===== src/Socket/Live.antt =====
-- The descriptors that a log leaves open, and what the operations of src/socket/socket.cpp do to them.
use socketpp.Socket.Descriptors.{
  remove, remove_handle, used, told, opens, effect, and_then, live, makes_descriptor, Fresh,
  remove-head, used-head, Result-cases, Settled, Made, kept, closed, made, failed,
}
use socketpp.Base.{
  ℕ, Bool, true, Option, none, some, List, [], ◌∷◌, ◌≡◌, ◌∙◌, refl, sym, ap, subst, Bool-cases, inl,
  inr,
}
use socketpp.Errors.{ErrorCode}
use socketpp.Net.Inet4.{Result, ok, err}
use socketpp.Options.{Platform, linux, macos, windows, Setting}
use socketpp.Socket.{
  Handle, Call, Log, Sys, Socket, get_flags, set_flags, ioctl_nonblock, option_call, invoke,
  invalid, of_handle, deregistered, close_open, close, on_open, flags_read, non_blocking_open,
  set_non_blocking, guard, returned, created, settings,
}

module _ (sys : Sys) where
  -- A call on the descriptor that is in hand.
  pub use_lem :
      (c : Call) (h : Handle) (fd : ℕ) (log : Log) (fds : List ℕ)
      → ((r : Result ℕ) (o : List ℕ) → effect c r o ≡ used h o)
      → h ≡ some fd
      → live log ≡ some (fd ∷ fds)
      → live ((c, sys log c) ∷ log) ≡ some (fd ∷ fds)
  unfolding live
  use_lem c h fd log fds u e o =
      ap (λ x. and_then x (effect c (sys log c))) o
      ∙ u (sys log c) (fd ∷ fds)
      ∙ used-head h fd fds e

  pub settings_lem :
      (h : Handle) (fd : ℕ) (cs : List Setting) (log : Log) (fds : List ℕ)
      → h ≡ some fd
      → live log ≡ some (fd ∷ fds)
      → live (settings sys h cs log) ≡ some (fd ∷ fds)
  unfolding settings effect
  settings_lem h fd [] log fds e o = o
  settings_lem h fd (c ∷ cs) log fds e o =
      settings_lem h fd cs _ fds e (use_lem (option_call h c) h fd log fds (λ r x. refl) e o)

  pub deregistered_lem :
      (s : Socket) (fd : ℕ) (log : Log) (before after : List ℕ)
      → s.handle ≡ some fd
      → remove fd before ≡ some after
      → live log ≡ some before
      → live (deregistered sys s log) ≡ some before
  unfolding deregistered live effect
  deregistered_lem s fd log before after e d o = elim (Bool-cases s.on_close_deregister) [
    | inl y ↦ rw y (ap (λ x. and_then x (told s.handle)) o ∙ rw (e, d) refl)
    | inr n ↦ rw n o
  ]

  -- Closing takes the descriptor away.
  pub close_lem :
      (s : Socket) (fd : ℕ) (log : Log) (before after : List ℕ)
      → s.handle ≡ some fd
      → remove fd before ≡ some after
      → live log ≡ some before
      → (live (close sys s log).0 ≡ some after) × ((close sys s log).1.handle ≡ none)
  unfolding close close_open invalid live effect
  close_lem s fd log before after e d o =
      subst
        (λ h.
          (live (close_open sys h s log).0 ≡ some after)
          × ((close_open sys h s log).1.handle ≡ none))
        (sym e)
        (
          ap (λ x. and_then x (remove_handle s.handle))
                (deregistered_lem s fd log before after e d o)
              ∙ (ap (λ h. remove_handle h before) e ∙ d),
          refl,
        )

  pub on_open_lem :
      (h : Handle) (fd : ℕ) (log : Log) (r : Log × Option ErrorCode) (fds : List ℕ)
      → h ≡ some fd
      → live r.0 ≡ some (fd ∷ fds)
      → live (on_open h log r).0 ≡ some (fd ∷ fds)
  on_open_lem h fd log r fds e o = rw e o

  flags_read_lem :
      (r : Result ℕ) (b : Bool) (h : Handle) (fd : ℕ) (log : Log) (fds : List ℕ)
      → h ≡ some fd
      → live log ≡ some (fd ∷ fds)
      → live (flags_read sys r b h log).0 ≡ some (fd ∷ fds)
  unfolding flags_read effect
  flags_read_lem (ok n) b h fd log fds e o =
      use_lem (set_flags h n b) h fd log fds (λ r x. refl) e o
  flags_read_lem (err x) b h fd log fds e o = o

  pub non_blocking_open_lem :
      (p : Platform) (b : Bool) (h : Handle) (fd : ℕ) (log : Log) (fds : List ℕ)
      → h ≡ some fd
      → live log ≡ some (fd ∷ fds)
      → live (non_blocking_open sys p b h log).0 ≡ some (fd ∷ fds)
  unfolding non_blocking_open effect
  non_blocking_open_lem windows b h fd log fds e o =
      use_lem (ioctl_nonblock h b) h fd log fds (λ r x. refl) e o
  non_blocking_open_lem linux b h fd log fds e o =
      flags_read_lem _ b h fd _ fds e (use_lem (get_flags h) h fd log fds (λ r x. refl) e o)
  non_blocking_open_lem macos b h fd log fds e o =
      flags_read_lem _ b h fd _ fds e (use_lem (get_flags h) h fd log fds (λ r x. refl) e o)

  pub set_non_blocking_lem :
      (p : Platform) (b : Bool) (s : Socket) (fd : ℕ) (log : Log) (fds : List ℕ)
      → s.handle ≡ some fd
      → live log ≡ some (fd ∷ fds)
      → live (set_non_blocking sys p b s log).0 ≡ some (fd ∷ fds)
  unfolding set_non_blocking
  set_non_blocking_lem p b s fd log fds e o =
      on_open_lem s.handle fd log _ fds e (non_blocking_open_lem p b s.handle fd log fds e o)

  pub guard_lem :
      (fd : ℕ) (fds : List ℕ) (r : Log × Option ErrorCode) (s : Socket)
      (k : Log → Log × Socket × Option ErrorCode)
      → s.handle ≡ some fd
      → live r.0 ≡ some (fd ∷ fds)
      → ((log : Log) → live log ≡ some (fd ∷ fds) → Settled fd fds (k log))
      → Settled fd fds (guard sys r s k)
  unfolding guard
  guard_lem fd fds (log, none) s k e o f = f log o
  guard_lem fd fds (log, some x) s k e o f =
      let (gone, shut) = close_lem s fd log (fd ∷ fds) fds e (remove-head fd fds) o in
      closed x shut gone refl

  pub returned_lem :
      (fd : ℕ) (fds : List ℕ) (r : Log × Socket × Option ErrorCode)
      → remove fd fds ≡ none
      → Settled fd fds r
      → Made fds (returned sys r)
  unfolding returned close close_open
  returned_lem fd fds (log, s, none) n (kept h o e) = made fd s refl h o n
  returned_lem fd fds (log, s, some x) n (kept h o e) = cc
  returned_lem fd fds (log, s, none) n (closed x h o e) = cc
  returned_lem fd fds (log, s, some y) n (closed x h o e) = failed y refl (rw h o)

  pub created_lem :
      (fds : List ℕ) (c : Call) (log : Log) (k : Socket → Log → Log × Socket × Option ErrorCode)
      → Fresh sys
      → makes_descriptor c ≡ true
      → ((r : Result ℕ) → effect c r fds ≡ opens r (some fds))
      → live log ≡ some fds
      → ((fd : ℕ) (s : Socket) (log : Log)
          → s.handle ≡ some fd
          → live log ≡ some (fd ∷ fds)
          → Settled fd fds (k s log))
      → Made fds (created sys (invoke sys c log) k)
  unfolding created live of_handle
  created_lem fds c log k fresh m f o g = elim (Result-cases (sys log c)) [
    | inl (fd, e) ↦ rw e (
        returned_lem fd fds _ (fresh log c fd fds o m e)
          (g fd (of_handle fd) _ refl (rw o (f (sys log c) ∙ ap (λ r. opens r (some fds)) e))))
    | inr (x, e) ↦ rw e (failed x refl (rw o (f (sys log c) ∙ ap (λ r. opens r (some fds)) e)))
  ]
