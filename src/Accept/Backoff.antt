-- ===== src/Accept/Backoff.antt =====
-- What the back-off of src/socket/tcp_accept_loop.cpp guarantees, and where it leaves the listener.
use socketpp.Base.{
  ℕ, zero, suc, ◌+◌, ◌*◌, ◌^◌, ◌≤◌, ◌≡◌, ◌≢◌, ◌∙◌, refl, ap, ◌⊎◌, inl, inr, Bool, true, false, none,
  some, List, [], ◌∷◌, ◌++◌, length, length-append, All, ltb, if◌then◌else◌, arith,
}
use native.Mathlib.Nat.{pow-suc}
use socketpp.Accept.{
  AcceptLoop, Accepted, connection, would_block, fd_limit_reached, other_error, create, back_off,
  accept_all, on_event, on_timer, stop, modify,
}
use socketpp.Accept.System.{Step, readable_event, other_event, expires, stops, Reach, here, next}

All-append : (P : ℕ → Type 0) (xs ys : List ℕ) → All P (xs ++ ys) → All P xs × All P ys
All-append P [] ys h = (tt, h)
All-append P (x ∷ xs) ys h = let (a, b) = All-append P xs ys h.1 in ((h.0, a), b)

append-All : (P : ℕ → Type 0) (xs ys : List ℕ) → All P xs → All P ys → All P (xs ++ ys)
append-All P [] ys a b = b
append-All P (x ∷ xs) ys a b = (a.0, append-All P xs ys a.1 b)

abbrev InRange : ℕ → Type 0
InRange n = (100 ≤ n) × (n ≤ 5000)

-- Of a listener that is registered: it is watched and no timer is pending, or it is not watched and
-- one timer is pending.
pub record Inv (s : AcceptLoop) : Type 0 where
  pub backoff : InRange s.backoff_ms
  pub delays : All InRange s.timers
  pub waits :
      (s.interest ≡ none)
      ⊎ ((s.interest ≡ some true) × (s.timers ≡ []))
      ⊎ ((s.interest ≡ some false) × (length s.timers ≡ 1))

back_off-Inv : (s : AcceptLoop) → Inv s → s.interest ≡ some true → Inv (back_off s true)
unfolding back_off
back_off-Inv s v i = record {
  backoff = ground (arith, v.backoff);
  delays = append-All InRange s.timers (s.backoff_ms ∷ []) v.delays (v.backoff, tt);
  waits =
      inr (inr (ground arith, ground (arith, v.waits, length-append s.timers (s.backoff_ms ∷ []))));
}

accept_all-Inv :
    (s : AcceptLoop) (rs : List Accepted)
    → Inv s
    → s.interest ≡ some true
    → Inv (accept_all s true rs)
unfolding accept_all
accept_all-Inv s [] v i = v
accept_all-Inv s (would_block ∷ rs) v i = v
accept_all-Inv s (fd_limit_reached ∷ rs) v i = back_off-Inv s v i
accept_all-Inv s (other_error ∷ rs) v i = record {
  backoff = v.backoff;
  delays = v.delays;
  waits = v.waits;
}
accept_all-Inv s (connection c ∷ rs) v i =
    accept_all-Inv _ rs
      (record { backoff = (omega arith, omega arith); delays = v.delays; waits = v.waits }) i

length_zero : (xs : List ℕ) → length xs ≡ 0 → xs ≡ []
length_zero [] h = refl
length_zero (x ∷ xs) h = absurd (omega arith)

expires-waits :
    (s : AcceptLoop) (xs : List ℕ) (d : ℕ) (ys : List ℕ)
    → Inv s
    → s.timers ≡ xs ++ (d ∷ ys)
    → (modify s.interest true ≡ none) ⊎ ((modify s.interest true ≡ some true) × (xs ++ ys ≡ []))
unfolding modify
expires-waits s xs d ys v e =
    let total : length s.timers ≡ length xs + suc (length ys) =
      ap length e ∙ length-append xs (d ∷ ys) in
    elim v.waits [
      | inl n ↦ inl (ground (arith, n))
      | inr (inl (i, n)) ↦ absurd (omega (arith, total, ap length n))
      | inr (inr (i, n)) ↦
          inr (
            ground (arith, i),
            length_zero (xs ++ ys) (omega (arith, total, n, length-append xs ys)),
          )
    ]

expires-Inv :
    (s : AcceptLoop) (xs : List ℕ) (d : ℕ) (ys : List ℕ)
    → Inv s
    → s.timers ≡ xs ++ (d ∷ ys)
    → Inv (on_timer (record s { timers = xs ++ ys }))
unfolding on_timer
expires-Inv s xs d ys v e = record {
  backoff = v.backoff;
  delays =
      (let (a, b) = All-append InRange xs (d ∷ ys) (rw e at v.delays) in
        append-All InRange xs ys a b.1);
  waits = (elim (expires-waits s xs d ys v e) [ inl n ↦ inl n | inr h ↦ inr (inl h) ]);
}

Step-Inv : {s t : AcceptLoop} → Step true s t → Inv s → Inv t
unfolding on_event stop
Step-Inv {s} (readable_event rs i) v = accept_all-Inv s rs v i
Step-Inv (other_event rs) v = v
Step-Inv {s} (expires xs d ys e) v = expires-Inv s xs d ys v e
Step-Inv stops v = record { backoff = v.backoff; delays = v.delays; waits = inl refl }

create-Inv : Inv create
unfolding create
create-Inv = record {
  backoff = (omega arith, omega arith);
  delays = tt;
  waits = inr (inl (refl, refl));
}

-- As long as timers can be made: the back-off and the delay of each pending timer are between 100 ms
-- and 5 s, and a listener that is registered is watched, or one timer is pending that will watch it.
pub listener_comes_back : (s : AcceptLoop) → Reach true create s → Inv s
listener_comes_back s here = create-Inv
listener_comes_back s (next {t} r st) = Step-Inv st (listener_comes_back t r)

-- `n` times the descriptors have run out, with no connection accepted in between, and the timer has
-- expired each time.
abbrev pub limits : ℕ → AcceptLoop → AcceptLoop
limits zero s = s
limits (suc n) s =
    on_timer (record (on_event (limits n s) true true (fd_limit_reached ∷ [])) { timers = [] })

abbrev pub min_delay : ℕ → ℕ
min_delay d = if ltb 5000 d then 5000 else d

limits-backoff :
    (n : ℕ) (s : AcceptLoop)
    → s.backoff_ms ≡ 100
    → (limits n s).backoff_ms ≡ min_delay (100 * 2 ^ n)
unfolding on_event on_timer
limits-backoff zero s h = h
limits-backoff (suc n) s h = ground (arith, limits-backoff n s h, pow-suc 2 n)

-- Each time that descriptors run out the delay doubles, from 100 ms up to 5 s, and a connection that
-- is accepted brings it back to 100 ms.
pub delays_double :
    (n c : ℕ) (s : AcceptLoop)
    → (on_event
        (limits n (on_event s true true (connection c ∷ [])))
        true
        true
        (fd_limit_reached ∷ [])).timers
      ≡ (limits n (on_event s true true (connection c ∷ []))).timers ++ min_delay (100 * 2 ^ n) ∷ []
unfolding on_event
delays_double n c s =
    ap (λ d. (limits n (on_event s true true (connection c ∷ []))).timers ++ d ∷ [])
      (limits-backoff n (on_event s true true (connection c ∷ [])) refl)

abbrev IsDeaf : AcceptLoop → Type 0
IsDeaf s = (s.interest ≢ some true) × (s.timers ≡ [])

Step-IsDeaf : {making : Bool} {s t : AcceptLoop} → Step making s t → IsDeaf s → IsDeaf t
unfolding on_event stop
Step-IsDeaf (readable_event rs i) (deaf, e) = absurd (deaf i)
Step-IsDeaf (other_event rs) d = d
Step-IsDeaf (expires [] d ys k) (deaf, e) = cc
Step-IsDeaf (expires (x ∷ xs) d ys k) (deaf, e) = cc
Step-IsDeaf stops (deaf, e) = (λ h. cc, e)

Reach-IsDeaf : {making : Bool} {s t : AcceptLoop} → Reach making s t → IsDeaf s → IsDeaf t
Reach-IsDeaf here d = d
Reach-IsDeaf (next r st) d = Step-IsDeaf st (Reach-IsDeaf r d)

-- Where the timer cannot be made when descriptors have run out, the listener is not watched any
-- more, and never will be, whatever events come.
pub unmade_timer_deafens :
    (making : Bool) (s t : AcceptLoop) (rs : List Accepted)
    → s.timers ≡ []
    → Reach making (on_event s true false (fd_limit_reached ∷ rs)) t
    → t.interest ≢ some true
unfolding on_event
unmade_timer_deafens making s t rs e r = (Reach-IsDeaf r (ground arith, e)).0
