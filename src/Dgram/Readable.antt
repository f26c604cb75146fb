-- ===== src/Dgram/Readable.antt =====
-- handle_readable of src/high/dgram.cpp: its loop over the batches that the socket has. Race is about a
-- peer that another thread relinquishes meanwhile.
use socketpp.Base.{
  ℕ, zero, suc, ltb, ◌≡◌, ◌∙◌, refl, sym, ap, subst, Bool, true, false, ◌||◌, Option, none, some,
  List, [], ◌∷◌, ◌++◌, append-nil, length, if◌then◌else◌, arith,
}
use socketpp.Errors.{ErrorCode, socketpp_code, would_block}
use socketpp.Dgram.{Dgram, Datagram, Job, on_error, flags, route, batch, claimed_open, gather}
use socketpp.Dgram.Routing.{
  messages, messages-append, gather-append, gather-ext, route-unclaimed, route-state,
}
use socketpp.Base.Map.{Map}
use socketpp.Dgram.Handlers.{only_to, only_to-append, route-only_to, batch-only_to}
use socketpp.Dgram.Batch.{single_and_batch_agree}

-- What `recv_batch` returns; `later`: the flags of the peers as the second loop over this batch reads
-- them.
pub data Recv : Type 0 where
  received : (later : ℕ → Bool) → List Datagram → Recv
  failed : ErrorCode → Recv

-- The path that one batch takes.
unfoldable pub dispatch : Dgram → (ℕ → Bool) → List Datagram → Option (Dgram × List Job)
dispatch s later ds =
    if s.has_on_data_batch
    then batch s later ds
    else if s.has_on_data
    then some (route s ds)
    else some (s, [])

unfoldable pub report : Dgram → ErrorCode → List Job
report s (socketpp_code would_block) = []
report s e = if s.has_on_error then on_error e ∷ [] else []

before : List Job → Option (Dgram × List Job) → Option (Dgram × List Job)
before js none = none
before js (some (t, ks)) = some (t, js ++ ks)

-- After a batch of `n` datagrams: a batch that is not full ends the loop.
continue :
    Dgram
    → ℕ
    → (Dgram → Option (Dgram × List Job))
    → Option (Dgram × List Job)
    → Option (Dgram × List Job)
unfolding before
continue s n next none = none
continue s n next (some (t, js)) = if ltb n s.batch_size then some (t, js) else before js (next t)

-- The first argument: the iterations left. The results of `recv_batch` follow; once there are none
-- left the socket would block.
unfoldable pub recv_loop : ℕ → List Recv → Dgram → Option (Dgram × List Job)
unfolding continue
recv_loop zero rs s = some (s, [])
recv_loop (suc n) [] s = some (s, [])
recv_loop (suc n) (failed e ∷ rs) s = some (s, report s e)
recv_loop (suc n) (received later [] ∷ rs) s = some (s, [])
recv_loop (suc n) (received later (d ∷ ds) ∷ rs) s =
    continue s (length (d ∷ ds)) (λ t. recv_loop n rs t) (dispatch s later (d ∷ ds))

abbrev pub max_iterations : ℕ
max_iterations = 8

unfoldable pub handle_readable : List Recv → Dgram → Option (Dgram × List Job)
handle_readable rs s = recv_loop max_iterations rs s

-- The datagrams of the first `n` batches, up to one that is not full, or an error.
abbrev pub taken : ℕ → ℕ → List Recv → List Datagram
taken zero size rs = []
taken (suc n) size [] = []
taken (suc n) size (failed e ∷ rs) = []
taken (suc n) size (received later [] ∷ rs) = []
taken (suc n) size (received later (d ∷ ds) ∷ rs) =
    let rest = taken n size rs in (d ∷ ds) ++ (if ltb (length (d ∷ ds)) size then [] else rest)

-- The second loops find the flags that the call started with.
abbrev pub Steady : Dgram → List Recv → Type 0
Steady s [] = Unit
Steady s (failed e ∷ rs) = Steady s rs
Steady s (received later ds ∷ rs) = (later ≡ flags s) × Steady s rs

-- What is said of a run from `s` that has a result.
abbrev Delivers : Dgram → List Datagram → Option (Dgram × List Job) → Type 0
Delivers s ds o =
    (t : Dgram) × (js : List Job) × (o ≡ some (t, js))
    × (messages js ≡ gather (flags s) s.claimed_peers ds)
    × (t ≡ record s { claimed_peers = t.claimed_peers })
    × ((a : ℕ)
        → claimed_open (flags s) t.claimed_peers a ≡ claimed_open (flags s) s.claimed_peers a)
    × (only_to s.has_on_data_batch js ≡ true)

route-Delivers :
    (s : Dgram) (ds : List Datagram)
    → s.has_on_data_batch ≡ false
    → Delivers s ds (some (route s ds))
route-Delivers s ds b =
    let (m, p, a) = route-unclaimed s ds in
    (
      (route s ds).0,
      (route s ds).1,
      refl,
      m,
      route-state s ds,
      a,
      ap (λ x. only_to x (route s ds).1) b ∙ route-only_to s ds,
    )

batch-Delivers :
    (s : Dgram) (ds : List Datagram)
    → s.has_on_data_batch ≡ true
    → Delivers s ds (batch s (flags s) ds)
batch-Delivers s ds b =
    let (t, js, e, m, f, c) = single_and_batch_agree s ds in
    let (k, p, a) = route-unclaimed s ds in
    (
      t,
      js,
      e,
      m ∙ k,
      rw c (route-state s ds),
      rw c a,
      ap (λ x. only_to x js) b ∙ batch-only_to s t (flags s) ds js e,
    )

path-Delivers :
    (b c : Bool) (s : Dgram) (ds : List Datagram)
    → s.has_on_data_batch ≡ b
    → (c || b) ≡ true
    → Delivers s ds
        (if b then batch s (flags s) ds else if c then some (route s ds) else some (s, []))
path-Delivers true c s ds e h = batch-Delivers s ds e
path-Delivers false true s ds e h = route-Delivers s ds e
path-Delivers false false s ds e h = cc

dispatch-Delivers :
    (s : Dgram) (later : ℕ → Bool) (ds : List Datagram)
    → later ≡ flags s
    → (s.has_on_data || s.has_on_data_batch) ≡ true
    → Delivers s ds (dispatch s later ds)
unfolding dispatch
dispatch-Delivers s later ds same h =
    subst
      (λ f. Delivers s ds (
        if s.has_on_data_batch
        then batch s f ds
        else if s.has_on_data
        then some (route s ds)
        else some (s, [])))
      (sym same) (path-Delivers s.has_on_data_batch s.has_on_data s ds refl h)

-- One batch, and the rest of the loop unless the batch was not full.
step-Delivers :
    (b : Bool) (s t : Dgram) (ds us : List Datagram) (js : List Job) (o : Option (Dgram × List Job))
    → (messages js ≡ gather (flags s) s.claimed_peers ds)
    → (t ≡ record s { claimed_peers = t.claimed_peers })
    → ((a : ℕ)
        → claimed_open (flags s) t.claimed_peers a ≡ claimed_open (flags s) s.claimed_peers a)
    → only_to s.has_on_data_batch js ≡ true
    → Delivers (record s { claimed_peers = t.claimed_peers }) us o
    → Delivers s (ds ++ (if b then [] else us)) (if b then some (t, js) else before js o)
unfolding before
step-Delivers true s t ds us js o m st a w rest =
    (t, js, refl, m ∙ ap (gather (flags s) s.claimed_peers) (sym (append-nil ds)), st, a, w)
step-Delivers false s t ds us js o m st a w (u, ks, e, k, su, same, x) = (
  u,
  js ++ ks,
  ap (before js) e,
  messages-append js ks
      ∙ ap (λ l. l ++ messages ks) m
      ∙ ap (λ l. gather (flags s) s.claimed_peers ds ++ l)
          (k ∙ gather-ext (flags s) t.claimed_peers s.claimed_peers us a)
      ∙ sym (gather-append (flags s) s.claimed_peers ds us),
  su,
  λ x. same x ∙ a x,
  only_to-append s.has_on_data_batch js ks ∙ ground (arith, w, x),
)

report-messages : (s : Dgram) (e : ErrorCode) → messages (report s e) ≡ []
unfolding report
report-messages s e = ground arith

report-only_to : (b : Bool) (s : Dgram) (e : ErrorCode) → only_to b (report s e) ≡ true
unfolding report
report-only_to b s e = ground arith

recv_loop-cons :
    (n : ℕ) (rs : List Recv) (s : Dgram) (later : ℕ → Bool) (d : Datagram) (ds : List Datagram)
    → recv_loop (suc n) (received later (d ∷ ds) ∷ rs) s
      ≡ continue s (length (d ∷ ds)) (λ t. recv_loop n rs t) (dispatch s later (d ∷ ds))
unfolding recv_loop
recv_loop-cons n rs s later d ds = refl

-- Erasing claims changes no flag.
Steady-moved :
    (s : Dgram) (m : Map ℕ ℕ) (rs : List Recv)
    → Steady s rs
    → Steady (record s { claimed_peers = m }) rs
Steady-moved s m [] q = tt
Steady-moved s m (failed e ∷ rs) q = Steady-moved s m rs q
Steady-moved s m (received later ds ∷ rs) (same, q) = (same, Steady-moved s m rs q)

recv_loop-Delivers :
    (n : ℕ) (rs : List Recv) (s : Dgram)
    → Steady s rs
    → (s.has_on_data || s.has_on_data_batch) ≡ true
    → Delivers s (taken n s.batch_size rs) (recv_loop n rs s)
unfolding recv_loop gather continue
recv_loop-Delivers zero rs s q h = (s, [], refl, refl, refl, λ a. refl, refl)
recv_loop-Delivers (suc n) [] s q h = (s, [], refl, refl, refl, λ a. refl, refl)
recv_loop-Delivers (suc n) (failed e ∷ rs) s q h =
    (s, report s e, refl, report-messages s e, refl, λ a. refl, report-only_to _ s e)
recv_loop-Delivers (suc n) (received later [] ∷ rs) s q h =
    (s, [], refl, refl, refl, λ a. refl, refl)
recv_loop-Delivers (suc n) (received later (d ∷ ds) ∷ rs) s (same, q) h =
    let (t, js, e, m, st, a, w) = dispatch-Delivers s later (d ∷ ds) same h in
    let s' = record s { claimed_peers = t.claimed_peers } in
    let rest = recv_loop-Delivers n rs s' (Steady-moved s t.claimed_peers rs q) h in
    rw e (
      step-Delivers (ltb (length (d ∷ ds)) s.batch_size) s t (d ∷ ds) (taken n s.batch_size rs) js
        (recv_loop n rs t) m st a w (rw st rest))

-- A readable event, while no peer is relinquished - the second loop over each batch reads the flags of
-- the peers that the call started with -, delivers every datagram of up to eight full batches that no
-- open peer has claimed, once and in order, and no other: to `on_data_batch` where that handler is set,
-- and else to `on_data`, and not to both. The call comes to an end inside its buffers, and erases no
-- entry of an open peer.
pub readable_delivers_unclaimed :
    (s : Dgram) (rs : List Recv)
    → (s.has_on_data || s.has_on_data_batch) ≡ true
    → Steady s rs
    → (t : Dgram) × (js : List Job) × (handle_readable rs s ≡ some (t, js))
      × (messages js ≡ gather (flags s) s.claimed_peers (taken max_iterations s.batch_size rs))
      × (only_to s.has_on_data_batch js ≡ true)
      × ((a : ℕ)
          → claimed_open (flags s) t.claimed_peers a ≡ claimed_open (flags s) s.claimed_peers a)
unfolding handle_readable
readable_delivers_unclaimed s rs h q =
    let (t, js, e, m, st, a, w) = recv_loop-Delivers max_iterations rs s q h in (t, js, e, m, w, a)
