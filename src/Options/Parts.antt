-- ===== src/Options/Parts.antt =====
-- `apply_pre_bind` and `apply_post_bind` of src/socket/options.cpp against `apply_to`.
use socketpp.Options.Kinds.{is_membership, filter, Kind, request-Kind}
use socketpp.Base.{
  ℕ, Bool, true, false, ◌||◌, not, Option, none, some, List, [], ◌∷◌, ◌++◌, ◌≡◌, refl, subst,
  is_some, Bool-cases, Option-cases, ◌⊎◌, inl, inr,
}
use socketpp.Errors.{ErrorCode}
use socketpp.Net.Inet4.{Result, ok, err}
use socketpp.Options.{Platform, linux, macos, windows, OptionEntry, SocketOptions, Layout, Setting}
use socketpp.Options.Requests.{
  Request, call, remember_idle, remember_interval, refuse, is_multicast_entry, request,
}
use socketpp.Options.Apply.{
  Os, Progress, ApplyResult, no_calls, called, step, keepalive_of, apply_keepalive, apply_loop,
  result_of, apply_entries, apply_to, apply_pre_bind, post_loop, apply_post_bind,
}

-- A system whose answer depends on the call alone.
abbrev pub answers : (Setting → Option ErrorCode) → Os
answers f done c = f c

unfoldable pub unicast : Setting → Bool
unicast c = not (is_membership c)

filter-in :
    (f : Setting → Bool) (xs : List Setting) (c : Setting)
    → f c ≡ true
    → filter f (xs ++ c ∷ []) ≡ filter f xs ++ c ∷ []
filter-in f [] c h = rw h refl
filter-in f (x ∷ xs) c h = elim (Bool-cases (f x)) [
  | inl y ↦ rw (y, filter-in f xs c h) refl
  | inr n ↦ rw (n, filter-in f xs c h) refl
]

filter-out :
    (f : Setting → Bool) (xs : List Setting) (c : Setting)
    → f c ≡ false
    → filter f (xs ++ c ∷ []) ≡ filter f xs
filter-out f [] c h = rw h refl
filter-out f (x ∷ xs) c h = elim (Bool-cases (f x)) [
  | inl y ↦ rw (y, filter-out f xs c h) refl
  | inr n ↦ rw (n, filter-out f xs c h) refl
]

abbrev Run : Type 0
Run = Progress × Option ErrorCode

-- The first run is the other two together, and its error is that of one of them.
data Agree (a b c : Run) : Type 0 where
  together :
      a.1 ≡ none
      → b.1 ≡ none
      → c.1 ≡ none
      → b.0.calls ≡ filter unicast a.0.calls
      → c.0.calls ≡ filter is_membership a.0.calls
      → Agree a b c
  stopped : (e : ErrorCode) → a.1 ≡ some e → (b.1 ≡ some e) ⊎ (c.1 ≡ some e) → Agree a b c

abbrev before : Progress → Progress
before s = record s { calls = filter unicast s.calls }

abbrev after : Progress → Progress
after s = record no_calls { calls = filter is_membership s.calls }

shift :
    (a : Run) (kb kc : Progress → Run) (s : Progress) {b c b' c' : List Setting}
    → b ≡ b'
    → c ≡ c'
    → Agree a (kb (record s { calls = b })) (kc (record no_calls { calls = c }))
    → Agree a (kb (record s { calls = b' })) (kc (record no_calls { calls = c' }))
shift a kb kc s {b = b} {c' = c'} h k g =
    subst (λ x. Agree a (kb (record s { calls = x })) (kc (record no_calls { calls = c' }))) h
      (subst (λ x. Agree a (kb (record s { calls = b })) (kc (record no_calls { calls = x }))) k g)

multicast_step :
    (f : Setting → Option ErrorCode) (r : Request) (s : Progress) (ka kb kc : Progress → Run)
    → Kind true r
    → ((t : Progress) → Agree (ka t) (kb (before t)) (kc (after t)))
    → Agree (step (answers f) r s ka) (kb (before s)) (step (answers f) r (after s) kc)
unfolding step called unicast
multicast_step f (call c) s ka kb kc h k = elim (Option-cases (f c)) [
  | inl y ↦ rw y (
      shift (ka (record s { calls = s.calls ++ c ∷ [] })) kb kc s
        (filter-out unicast s.calls c (rw h refl)) (filter-in is_membership s.calls c h)
        (k (record s { calls = s.calls ++ c ∷ [] })))
  | inr (e, n) ↦ rw n (stopped e refl (inr refl))
]
multicast_step f (remember_idle v) s ka kb kc h k = cc
multicast_step f (remember_interval v) s ka kb kc h k = cc
multicast_step f (refuse e) s ka kb kc h k = (stopped e refl (inr refl))

unicast_step :
    (f : Setting → Option ErrorCode) (r : Request) (s : Progress) (ka kb kc : Progress → Run)
    → Kind false r
    → ((t : Progress) → Agree (ka t) (kb (before t)) (kc (after t)))
    → Agree (step (answers f) r s ka) (step (answers f) r (before s) kb) (kc (after s))
unfolding step called unicast
unicast_step f (call c) s ka kb kc h k = elim (Option-cases (f c)) [
  | inl y ↦ rw y (
      shift (ka (record s { calls = s.calls ++ c ∷ [] })) kb kc s
        (filter-in unicast s.calls c (rw h refl)) (filter-out is_membership s.calls c h)
        (k (record s { calls = s.calls ++ c ∷ [] })))
  | inr (e, n) ↦ rw n (stopped e refl (inl refl))
]
unicast_step f (remember_idle v) s ka kb kc h k = k (record s { idle = some v })
unicast_step f (remember_interval v) s ka kb kc h k = k (record s { interval = some v })
unicast_step f (refuse e) s ka kb kc h k = (stopped e refl (inl refl))

keepalive-Agree :
    (p : Platform) (l : Layout) (f : Setting → Option ErrorCode) (s : Progress)
    → Agree
        (apply_keepalive p l (answers f) p s)
        (apply_keepalive p l (answers f) p (before s))
        (after s, none)
unfolding apply_keepalive
keepalive-Agree linux l f s = together refl refl refl refl refl
keepalive-Agree macos l f s = together refl refl refl refl refl
keepalive-Agree windows l f s = elim (Bool-cases (is_some s.idle || is_some s.interval)) [
  | inl y ↦ rw y (
      unicast_step f (call (keepalive_of s.idle s.interval)) s (λ t. (t, none)) (λ t. (t, none))
        (λ t. (t, none)) refl (λ t. together refl refl refl refl refl))
  | inr n ↦ rw n (together refl refl refl refl refl)
]

loops-Agree :
    (p : Platform) (l : Layout) (f : Setting → Option ErrorCode) (es : List OptionEntry)
    (s : Progress)
    → Agree
        (apply_loop p l (answers f) false es s)
        (apply_loop p l (answers f) true es (before s))
        (post_loop p l (answers f) es (after s))
unfolding apply_loop post_loop
loops-Agree p l f [] s = keepalive-Agree p l f s
loops-Agree p l f (e ∷ es) s = elim (Bool-cases (is_multicast_entry e.id)) [
  | inl y ↦ rw y (
      multicast_step f (request p l e) s (apply_loop p l (answers f) false es)
        (apply_loop p l (answers f) true es) (post_loop p l (answers f) es)
        (subst (λ b. Kind b (request p l e)) y (request-Kind p l e)) (loops-Agree p l f es))
  | inr n ↦ rw n (
      unicast_step f (request p l e) s (apply_loop p l (answers f) false es)
        (apply_loop p l (answers f) true es) (post_loop p l (answers f) es)
        (subst (λ b. Kind b (request p l e)) n (request-Kind p l e)) (loops-Agree p l f es))
]

-- What `apply_to` does, done in two parts.
pub data Split (whole first : List Setting × Result ApplyResult)
    (second : List Setting × Option ErrorCode) : Type 0 where
  succeeds :
      (r : ApplyResult)
      → whole.1 ≡ ok r
      → first.1 ≡ ok r
      → second.1 ≡ none
      → first.0 ≡ filter unicast whole.0
      → second.0 ≡ filter is_membership whole.0
      → Split whole first second
  fails :
      (e : ErrorCode)
      → whole.1 ≡ err e
      → (first.1 ≡ err e) ⊎ (second.1 ≡ some e)
      → Split whole first second

Agree-Split :
    (p : Platform) (l : Layout) (os : Os) (get : Bool → Option ℕ) (o : SocketOptions) (a b c : Run)
    → Agree a b c
    → Split
        (a.0.calls, result_of p l os get o a.1)
        (b.0.calls, result_of p l os get o b.1)
        (c.0.calls, c.1)
unfolding result_of
Agree-Split p l os get o a b c (together ha hb hc fb fc) =
    rw (ha, hb) (succeeds _ refl refl hc fb fc)
Agree-Split p l os get o a b c (stopped e ha (inl h)) = rw (ha, h) (fails e refl (inl refl))
Agree-Split p l os get o a b c (stopped e ha (inr h)) = rw ha (fails e refl (inr h))

-- With a system whose answer to a call depends on the call alone, applying the options before and after
-- `bind` is applying them at once: either `apply_to`, `apply_pre_bind` and `apply_post_bind` all succeed,
-- the first two with one result, the calls before `bind` are those of `apply_to` that are no multicast
-- membership and the calls after it are the memberships, both in the order of `apply_to`; or `apply_to`
-- fails, and one of the other two fails with the same error.
pub pre_and_post_bind_are_apply_to :
    (p : Platform) (l : Layout) (f : Setting → Option ErrorCode) (get : Bool → Option ℕ)
    (o : SocketOptions)
    → Split
        (apply_to p l (answers f) get o)
        (apply_pre_bind p l (answers f) get o)
        (apply_post_bind p l (answers f) o)
unfolding apply_to apply_pre_bind apply_entries apply_post_bind
pre_and_post_bind_are_apply_to p l f get o =
    Agree-Split p l (answers f) get o _ _ _ (loops-Agree p l f o.entries no_calls)
