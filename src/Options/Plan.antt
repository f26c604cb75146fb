-- ===== src/Options/Plan.antt =====
-- What the loops of src/socket/options.cpp ask of the system, against a plan that is made beforehand.
use socketpp.Base.{
  ℕ, Bool, ◌&&◌, ◌||◌, Option, none, some, List, [], ◌∷◌, ◌++◌, ◌≡◌, ◌∙◌, refl, sym, ap, subst,
  append_assoc, append-nil, is_some, Bool-cases, Option-cases, inl, inr, if◌then◌else◌,
}
use mathlib.Core.Path.{fun_ext}
use socketpp.Errors.{ErrorCode}
use socketpp.Options.{Platform, linux, macos, windows, OptionEntry, SocketOptions, Layout, Setting}
use socketpp.Options.Requests.{
  Request, call, remember_idle, remember_interval, refuse, is_multicast_entry, request,
}
use socketpp.Options.Apply.{
  Os, Progress, no_calls, called, step, keepalive_of, apply_keepalive, apply_loop, result_of,
  apply_entries,
}

-- The keep-alive call of Windows, which comes last.
unfoldable pub last_call : Platform → Option ℕ → Option ℕ → List Setting
last_call windows idle interval =
    if is_some idle || is_some interval then keepalive_of idle interval ∷ [] else []
last_call _ idle interval = []

abbrev pub ahead : Setting → List Setting × Option ErrorCode → List Setting × Option ErrorCode
ahead c (cs, r) = (c ∷ cs, r)

-- The calls that the entries want, up to the first that is refused without a call, and that refusal.
unfoldable pub plan_requests :
    Platform → List Request → Option ℕ → Option ℕ → List Setting × Option ErrorCode
unfolding last_call
plan_requests p [] idle interval = (last_call p idle interval, none)
plan_requests p (call c ∷ rs) idle interval = ahead c (plan_requests p rs idle interval)
plan_requests p (remember_idle v ∷ rs) idle interval = plan_requests p rs (some v) interval
plan_requests p (remember_interval v ∷ rs) idle interval = plan_requests p rs idle (some v)
plan_requests p (refuse e ∷ rs) idle interval = ([], some e)

unfoldable pub requests : Platform → Layout → Bool → List OptionEntry → List Request
requests p l skip [] = []
requests p l skip (e ∷ es) =
    let rest = requests p l skip es in
    if skip && is_multicast_entry e.id then rest else request p l e ∷ rest

unfoldable pub plan : Platform → Layout → Bool → List OptionEntry → List Setting × Option ErrorCode
unfolding plan_requests requests
plan p l skip es = plan_requests p (requests p l skip es) none none

-- The system accepts the calls, one after the other.
abbrev pub Accepted : Os → List Setting → List Setting → Type 0
Accepted os done [] = Unit
Accepted os done (c ∷ cs) = (os done c ≡ none) × Accepted os (done ++ c ∷ []) cs

-- A plan carried out as far as the system accepts it.
pub data Ran (os : Os) (done : List Setting) (want : List Setting × Option ErrorCode)
    (calls : List Setting) (error : Option ErrorCode) : Type 0 where
  complete :
      Accepted os done want.0
      → calls ≡ done ++ want.0
      → error ≡ want.1
      → Ran os done want calls error
  failed :
      (pre post : List Setting) (c : Setting) (e : ErrorCode)
      → want.0 ≡ pre ++ c ∷ post
      → Accepted os done pre
      → os (done ++ pre) c ≡ some e
      → calls ≡ done ++ (pre ++ c ∷ [])
      → error ≡ some e
      → Ran os done want calls error

called-Ran :
    (os : Os) (done calls : List Setting) (c : Setting) (want : List Setting × Option ErrorCode)
    (error : Option ErrorCode)
    → os done c ≡ none
    → Ran os (done ++ c ∷ []) want calls error
    → Ran os done (ahead c want) calls error
called-Ran os done calls c want error h (complete a k r) =
    complete (h, a) (k ∙ append_assoc done (c ∷ []) want.0) r
called-Ran os done calls c want error h (failed pre post d e w a f k r) =
    failed (c ∷ pre) post d e (ap (λ l. c ∷ l) w) (h, a)
      (ap (λ l. os l d) (sym (append_assoc done (c ∷ []) pre)) ∙ f)
      (k ∙ append_assoc done (c ∷ []) (pre ++ d ∷ [])) r

-- The requests, one after the other.
unfoldable pub run :
    Os
    → List Request
    → Progress
    → (Progress → Progress × Option ErrorCode)
    → Progress × Option ErrorCode
unfolding step
run os [] s k = k s
run os (r ∷ rs) s k = step os r s (λ t. run os rs t k)

apply_loop-run :
    (p : Platform) (l : Layout) (os : Os) (skip : Bool) (es : List OptionEntry) (s : Progress)
    → apply_loop p l os skip es s ≡ run os (requests p l skip es) s (apply_keepalive p l os p)
unfolding apply_loop run requests
apply_loop-run p l os skip [] s = refl
apply_loop-run p l os skip (e ∷ es) s = elim (Bool-cases (skip && is_multicast_entry e.id)) [
  | inl y ↦ rw y (apply_loop-run p l os skip es s)
  | inr n ↦ rw n (ap (step os (request p l e) s) (fun_ext (λ t. apply_loop-run p l os skip es t)))
]

call-Ran :
    (os : Os) (s : Progress) (c : Setting) (want : List Setting × Option ErrorCode)
    (k : Progress → Progress × Option ErrorCode)
    → (let (t, error) = k (record s { calls = s.calls ++ c ∷ [] }) in
        Ran os (s.calls ++ c ∷ []) want t.calls error)
    → (let (t, error) = step os (call c) s k in Ran os s.calls (ahead c want) t.calls error)
unfolding step called
call-Ran os s c want k rest = elim (Option-cases (os s.calls c)) [
  | inl h ↦ rw h (called-Ran os s.calls _ c want _ h rest)
  | inr (e, h) ↦
      rw h (failed [] want.0 c e refl tt (ap (λ l. os l c) (append-nil s.calls) ∙ h) refl refl)
]

keepalive-Ran :
    (p : Platform) (l : Layout) (os : Os) (s : Progress)
    → (let (t, error) = apply_keepalive p l os p s in
        Ran os s.calls (last_call p s.idle s.interval, none) t.calls error)
unfolding apply_keepalive last_call step called
keepalive-Ran linux l os s = complete tt (sym (append-nil s.calls)) refl
keepalive-Ran macos l os s = complete tt (sym (append-nil s.calls)) refl
keepalive-Ran windows l os s = elim (Bool-cases (is_some s.idle || is_some s.interval)) [
  | inl y ↦ rw y (
      call-Ran os s (keepalive_of s.idle s.interval) ([], none) (λ t. (t, none))
        (complete tt (sym (append-nil _)) refl))
  | inr n ↦ rw n (complete tt (sym (append-nil s.calls)) refl)
]

pub run-Ran :
    (p : Platform) (l : Layout) (os : Os) (rs : List Request) (s : Progress)
    → (let (t, error) = run os rs s (apply_keepalive p l os p) in
        Ran os s.calls (plan_requests p rs s.idle s.interval) t.calls error)
unfolding run plan_requests step called
run-Ran p l os [] s = keepalive-Ran p l os s
run-Ran p l os (call c ∷ rs) s =
    call-Ran os s c (plan_requests p rs s.idle s.interval)
      (λ t. run os rs t (apply_keepalive p l os p))
      (run-Ran p l os rs (record s { calls = s.calls ++ c ∷ [] }))
run-Ran p l os (remember_idle v ∷ rs) s = run-Ran p l os rs (record s { idle = some v })
run-Ran p l os (remember_interval v ∷ rs) s = run-Ran p l os rs (record s { interval = some v })
run-Ran p l os (refuse e ∷ rs) s = complete tt (sym (append-nil s.calls)) refl

-- `apply_to` (`skip` false) and `apply_pre_bind` (`skip` true) carry out the plan of the entries, in the
-- order of the entries and with the keep-alive call of Windows last: either the system accepts every
-- call of the plan, all are made, and the result is an error just where the plan ends in a refusal, that
-- refusal; or some call of the plan fails, the calls before it are accepted, none is made after it, and
-- the result is its error.
pub apply_stops_at_first_failure :
    (p : Platform) (l : Layout) (os : Os) (get : Bool → Option ℕ) (o : SocketOptions) (skip : Bool)
    → (error : Option ErrorCode) × Ran os []
        (plan p l skip o.entries)
        (apply_entries p l os get o skip).0
        error
      × ((apply_entries p l os get o skip).1 ≡ result_of p l os get o error)
unfolding apply_entries plan
apply_stops_at_first_failure p l os get o skip = (
  (apply_loop p l os skip o.entries no_calls).1,
  subst (λ r. Ran os [] (plan p l skip o.entries) r.0.calls r.1)
      (sym (apply_loop-run p l os skip o.entries no_calls))
      (run-Ran p l os (requests p l skip o.entries) no_calls),
  refl,
)
