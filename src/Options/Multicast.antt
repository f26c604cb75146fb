-- ===== src/Options/Multicast.antt =====
-- Groups joined through multicast_join of include/socketpp/socket/options.hpp, and what
-- src/socket/options.cpp joins after `bind` and leaves at the end.
use socketpp.Options.Blocks.{Fits, padded, block, address_block_lem, apply_multicast_lem}
use socketpp.Base.{
  Bool, true, false, Option, none, some, List, [], ◌∷◌, ◌++◌, ◌≡◌, ◌∙◌, refl, sym, ap, subst,
  append_assoc, append-nil, map, All,
}
use mathlib.Core.Path.{fun_ext}
use socketpp.Errors.{ErrorCode, socketpp_code, invalid_state}
use socketpp.Net.SockAddress.{SockAddress}
use socketpp.Options.{
  Platform, linux, SocketOptionId, OptionEntry, SocketOptions, Layout, Family, inet, inet6,
  other_family, Setting, ip_membership, ipv6_membership,
}
use socketpp.Options.Build.{multicast_join, push, with_blocks}
use socketpp.Options.Requests.{
  Request, is_multicast_entry, apply_multicast, join_request, request, switch,
}
use socketpp.Options.Apply.{
  Os, Progress, no_calls, step, is_join, apply_keepalive, post_loop, apply_post_bind, leave_loop,
  leave_all_multicast,
}
use socketpp.Options.Plan.{Ran, ahead, run, run-Ran, plan_requests, last_call}

abbrev pub Joins : Type 0
Joins = List (SockAddress × SockAddress)

abbrev and_then :
    Option SocketOptions → (SocketOptions → Option SocketOptions) → Option SocketOptions
and_then none k = none
and_then (some o) k = k o

-- `multicast_join` called for a group and an interface after the other.
unfoldable pub join_all : Joins → SocketOptions → Option SocketOptions
join_all [] o = some o
join_all ((g, i) ∷ rest) o = and_then (multicast_join g i o) (λ next. join_all rest next)

in_family :
    Layout
    → Bool
    → Family
    → SockAddress
    → SockAddress
    → List Setting × Option ErrorCode
    → List Setting × Option ErrorCode
in_family l join inet g i rest =
    ahead (ip_membership join (l.sin_addr (padded g)) (l.sin_addr (padded i))) rest
in_family l join inet6 g i rest =
    ahead (ipv6_membership join (l.sin6_addr (padded g)) (l.sin6_scope_id (padded i))) rest
in_family l join other_family g i rest = ([], some (socketpp_code invalid_state))

-- The memberships that the groups stand for, up to the first that is of no family that is known.
unfoldable pub memberships : Layout → Bool → Joins → List Setting × Option ErrorCode
unfolding in_family
memberships l join [] = ([], none)
memberships l join ((g, i) ∷ rest) =
    in_family l join (l.sa_family (padded g)) g i (memberships l join rest)

abbrev entry_of : SockAddress × SockAddress → OptionEntry
entry_of (g, i) = record {
  id = SocketOptionId.multicast_join;
  bytes = block g ++ block i;
  platform_available = true;
}

abbrev pub AllFit : Joins → Type 0
AllFit [] = Unit
AllFit ((g, i) ∷ rest) = Fits g × Fits i × AllFit rest

multicast_join_lem :
    (g i : SockAddress) (o : SocketOptions)
    → Fits g
    → Fits i
    → (t : SocketOptions) × (multicast_join g i o ≡ some t)
      × (t.entries ≡ o.entries ++ entry_of (g, i) ∷ [])
unfolding multicast_join with_blocks push
multicast_join_lem g i o hg hi = (
  record o { entries = o.entries ++ entry_of (g, i) ∷ []; has_multicast_join = true },
  rw (address_block_lem g hg, address_block_lem i hi) refl,
  refl,
)

join_all_lem :
    (js : Joins) (o : SocketOptions)
    → AllFit js
    → (t : SocketOptions) × (join_all js o ≡ some t) × (t.entries ≡ o.entries ++ map entry_of js)
unfolding join_all
join_all_lem [] o h = (o, refl, sym (append-nil o.entries))
join_all_lem ((g, i) ∷ rest) o (hg, hi, h) =
    let (next, made, one) = multicast_join_lem g i o hg hi in
    let (t, all, entries) = join_all_lem rest next h in
    (
      t,
      ap (λ x. and_then x (λ n. join_all rest n)) made ∙ all,
      entries
          ∙ ap (λ l. l ++ map entry_of rest) one
          ∙ append_assoc o.entries (entry_of (g, i) ∷ []) (map entry_of rest),
    )

asked : Layout → Bool → SockAddress × SockAddress → Request
asked l join j = apply_multicast l join (entry_of j).bytes

abbrev pub Plain : List OptionEntry → Type 0
Plain es = All (λ e. is_multicast_entry e.id ≡ false) es

-- The loops skip what is no membership, and make the others' requests.
post_loop-run :
    (p : Platform) (l : Layout) (os : Os) (es : List OptionEntry) (js : Joins) (s : Progress)
    → Plain es
    → post_loop p l os (es ++ map entry_of js) s
      ≡ run os (map (asked l true) js) s (apply_keepalive linux l os linux)
unfolding post_loop run apply_keepalive is_multicast_entry request switch asked
post_loop-run p l os [] [] s h = refl
post_loop-run p l os [] (j ∷ js) s h =
    ap (step os (asked l true j) s) (fun_ext (λ t. post_loop-run p l os [] js t h))
post_loop-run p l os (e ∷ es) js s h = rw h.0 (post_loop-run p l os es js s h.1)

not_join : (id : SocketOptionId) → is_multicast_entry id ≡ false → is_join id ≡ false
unfolding is_multicast_entry
not_join SocketOptionId.multicast_join h = cc
not_join _ h = refl

leave_loop-run :
    (p : Platform) (l : Layout) (os : Os) (es : List OptionEntry) (js : Joins) (s : Progress)
    → Plain es
    → leave_loop p l os (es ++ map entry_of js) s
      ≡ run os (map (asked l false) js) s (apply_keepalive linux l os linux)
unfolding leave_loop run apply_keepalive asked
leave_loop-run p l os [] [] s h = refl
leave_loop-run p l os [] (j ∷ js) s h =
    ap (step os (asked l false j) s) (fun_ext (λ t. leave_loop-run p l os [] js t h))
leave_loop-run p l os (e ∷ es) js s h = rw (not_join e.id h.0) (leave_loop-run p l os es js s h.1)

in_family_lem :
    (l : Layout) (join : Bool) (f : Family) (g i : SockAddress) (rs : List Request)
    → plan_requests linux (join_request l join f (padded g) (padded i) ∷ rs) none none
      ≡ in_family l join f g i (plan_requests linux rs none none)
unfolding plan_requests in_family join_request
in_family_lem l join inet g i rs = refl
in_family_lem l join inet6 g i rs = refl
in_family_lem l join other_family g i rs = refl

memberships_lem :
    (l : Layout) (join : Bool) (js : Joins)
    → AllFit js
    → plan_requests linux (map (asked l join) js) none none ≡ memberships l join js
unfolding plan_requests memberships asked last_call
memberships_lem l join [] h = refl
memberships_lem l join ((g, i) ∷ rest) (hg, hi, h) = rw (apply_multicast_lem l join g i hg hi) (
    in_family_lem l join (l.sa_family (padded g)) g i (map (asked l join) rest)
    ∙ ap (in_family l join (l.sa_family (padded g)) g i) (memberships_lem l join rest h))

asked-Ran :
    (l : Layout) (os : Os) (join : Bool) (js : Joins) (r : Progress × Option ErrorCode)
    → AllFit js
    → r ≡ run os (map (asked l join) js) no_calls (apply_keepalive linux l os linux)
    → Ran os [] (memberships l join js) r.0.calls r.1
asked-Ran l os join js r h e =
    subst (λ want. Ran os [] want r.0.calls r.1) (memberships_lem l join js h)
      (subst (λ x. Ran os [] (plan_requests linux (map (asked l join) js) none none) x.0.calls x.1)
        (sym e) (run-Ran linux l os (map (asked l join) js) no_calls))

-- From options with no membership entry, `multicast_join` with addresses that fit in their storage yields
-- options with which `apply_post_bind` joins those groups on those interfaces, one after the other, and
-- `leave_all_multicast` leaves the same groups in the same order: each stops at the first call that
-- fails, with its error, or at the first group that is neither AF_INET nor AF_INET6, with `invalid_state`.
pub joined_groups_are_left :
    (p : Platform) (l : Layout) (os : Os) (o : SocketOptions) (js : Joins)
    → Plain o.entries
    → AllFit js
    → (t : SocketOptions) × (join_all js o ≡ some t)
      × (let (calls, error) = apply_post_bind p l os t in
          Ran os [] (memberships l true js) calls error)
      × (let (calls, error) = leave_all_multicast p l os t in
          Ran os [] (memberships l false js) calls error)
unfolding apply_post_bind leave_all_multicast
joined_groups_are_left p l os o js h f =
    let (t, made, entries) = join_all_lem js o f in
    (
      t,
      made,
      asked-Ran l os true js (post_loop p l os t.entries no_calls) f (
          ap (λ es. post_loop p l os es no_calls) entries
          ∙ post_loop-run p l os o.entries js no_calls h),
      asked-Ran l os false js (leave_loop p l os t.entries no_calls) f (
          ap (λ es. leave_loop p l os es no_calls) entries
          ∙ leave_loop-run p l os o.entries js no_calls h),
    )
