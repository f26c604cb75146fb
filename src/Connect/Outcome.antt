-- ===== src/Connect/Outcome.antt =====
-- What the caller of src/socket/tcp_connect_async.cpp is told.
use socketpp.Base.{
  ℕ, ◌≡◌, ◌≢◌, refl, ◌⊎◌, inl, inr, Bool, true, false, ◌||◌, [], ◌∷◌, ◌++◌, length, arith,
}
use socketpp.Errors.{ErrorCode, Errno, socketpp_code, generic_code, Errc, normalize_error}
use socketpp.Connect.{
  Connect, opened, SoError, so_error, call_failed, error, connect_async, on_timeout, on_writable,
}

-- The timer fires while it is set, and the event comes while the socket is watched. Both may be in
-- one batch of events: where `late` is true they come after their registration has been removed too.
pub data Step (e : Errno) (late : Bool) (c : Connect) : Connect → Type 0 where
  timeout : (c.timer_set || late) ≡ true → Step e late c (on_timeout c)
  writable : (r : SoError) → (c.watched || late) ≡ true → Step e late c (on_writable e c r)

pub data Reach (e : Errno) (late : Bool) (c : Connect) : Connect → Type 0 where
  here : Reach e late c c
  next : {d f : Connect} → Reach e late c d → Step e late d f → Reach e late c f

-- Before the answer the socket is open, and what was set up is there; after it nothing is left.
abbrev Pending : Bool → Bool → Connect → Type 0
Pending timer_made added c =
    (c.answers ≡ [])
    × (c.completed ≡ false)
    × (c.socket_open ≡ true)
    × (c.timer_set ≡ timer_made)
    × (c.watched ≡ added)

abbrev pub Answered : Connect → Type 0
Answered c =
    (length c.answers ≡ 1)
    × (c.completed ≡ true)
    × (c.socket_open ≡ false)
    × (c.timer_set ≡ false)
    × (c.watched ≡ false)

on_timeout-Answered :
    (tm ad : Bool) (c : Connect) → Pending tm ad c ⊎ Answered c → Answered (on_timeout c)
unfolding on_timeout
on_timeout-Answered tm ad c (inl p) = rw p.1 (rw p.0 (refl, refl, refl, refl, refl))
on_timeout-Answered tm ad c (inr a) = ground arith

on_writable-Answered :
    (e : Errno) (tm ad : Bool) (c : Connect) (r : SoError)
    → Pending tm ad c ⊎ Answered c
    → Answered (on_writable e c r)
unfolding on_writable
on_writable-Answered e tm ad c r (inl p) = rw p.1 (rw p.0 (refl, refl, refl, refl, refl))
on_writable-Answered e tm ad c r (inr a) = ground arith

Reach-Inv :
    (e : Errno) (late tm ad : Bool) {c : Connect}
    → Reach e late (connect_async opened tm ad) c
    → Pending tm ad c ⊎ Answered c
unfolding connect_async
Reach-Inv e late tm ad here = inl (refl, refl, refl, refl, refl)
Reach-Inv e late tm ad (next {d} r (timeout h)) =
    inr (on_timeout-Answered tm ad d (Reach-Inv e late tm ad r))
Reach-Inv e late tm ad (next {d} r (writable s h)) =
    inr (on_writable-Answered e tm ad d s (Reach-Inv e late tm ad r))

answering-step :
    (e : Errno) (late tm ad : Bool) (c : Connect)
    → Pending tm ad c
    → (tm || ad) ≡ true
    → (d : Connect) × Step e late c d × Answered d
answering-step e late true ad c p h =
    (on_timeout c, timeout (rw p.3 refl), on_timeout-Answered true ad c (inl p))
answering-step e late false true c p h = (
  on_writable e c (so_error 0),
  writable (so_error 0) (rw p.4 refl),
  on_writable-Answered e false true c (so_error 0) (inl p),
)
answering-step e late false false c p h = cc

-- The callback of a connect that has been started is called once at most, whichever of the timer and
-- the event comes first and whatever comes late. Once it has been called, the socket is closed or
-- handed over, and timer and registration are gone; before that the socket is open, and if the timer
-- or the registration was made, a step that calls it is possible.
pub connect_answers_once :
    (e : Errno) (late timer_made added : Bool) (c : Connect)
    → Reach e late (connect_async opened timer_made added) c
    → Answered c
      ⊎ ((c.answers ≡ [])
          × (c.socket_open ≡ true)
          × ((timer_made || added) ≡ true → (d : Connect) × Step e late c d × Answered d))
connect_answers_once e late tm ad c r = elim (Reach-Inv e late tm ad r) [
  | inl p ↦ inr (p.0, p.2, answering-step e late tm ad c p)
  | inr a ↦ inl a
]

-- On Linux and macOS an asynchronous connect that fails answers with the generic code of the `errno`
-- that `SO_ERROR` holds, whatever it is, and never with a code of socketpp, such as
-- `connection_refused`; a failing `getsockopt` answers with the normalised code.
pub async_error_is_not_normalized :
    (e : Errno) (c : Connect) (n : ℕ)
    → c.completed ≡ false
    → n ≢ 0
    → ((on_writable e c (so_error n)).answers ≡ c.answers ++ error (generic_code n) ∷ [])
      × ((k : Errc) → generic_code n ≢ socketpp_code k)
      × ((on_writable e c (call_failed n)).answers
          ≡ c.answers ++ error (normalize_error e (ErrorCode.system_code n)) ∷ [])
unfolding on_writable normalize_error
async_error_is_not_normalized e c n h z = (rw h (ground arith), λ k. (λ q. cc), rw h refl)
