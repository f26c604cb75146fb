-- ===== src/Udp/Prefix.antt =====
-- Which datagrams send_batch of src/socket/udp.cpp and do_send_batch of src/high/dgram.cpp send.
use socketpp.Base.{
  ℕ, zero, suc, ◌+◌, ◌≤◌, true, false, some, List, [], ◌∷◌, ◌++◌, ◌≡◌, ◌∙◌, refl, sym, ap, subst,
  map, append-nil, append_assoc, length, get_elem?, take, drop, ◌==◌, Bool-cases, ==_iff, inl, inr,
  ◌⊎◌, arith, if◌then◌else◌,
}
use socketpp.Errors.{ErrorCode, socketpp_code, invalid_state}
use socketpp.Net.Inet4.{Result, ok, err}
use socketpp.Options.{Platform, linux, macos, windows}
use socketpp.Udp.{
  Datagram, MsgBatchEntry, Log, Sendto, Sendmmsg, clamp, datagram, send_to_raw, after_send,
  send_loop, set_transferred, after_mmsg, send_open, send_batch, SendEntry, entry, do_send_batch,
}

-- The datagrams that the system took.
unfoldable pub sent : Log → List Datagram
sent [] = []
sent ((d, ok n) ∷ log) = d ∷ sent log
sent ((d, err e) ∷ log) = sent log

-- The number that a call answers.
abbrev pub count : Result ℕ → ℕ
count (ok n) = n
count (err e) = 0

-- What the manual of `sendmmsg` says: it sends the messages in order and answers how many it sent, with
-- their lengths, or an error if it sent none.
pub data Sends (ds : List Datagram) (log : Log) (r : Log × Result (List ℕ)) : Type 0 where
  some_sent :
      (lens : List ℕ)
      → r.1 ≡ ok lens
      → length lens ≤ length ds
      → sent r.0 ≡ sent log ++ take (length lens) ds
      → Sends ds log r
  none_sent : (e : ErrorCode) → r.1 ≡ err e → sent r.0 ≡ sent log → Sends ds log r

abbrev pub Documented : Sendmmsg → Type 0
Documented sendmmsg = (log : Log) (ds : List Datagram) → Sends ds log (sendmmsg log ds)

-- The first entries are sent, the others are left.
abbrev pub Prefix :
    Platform → ℕ → List MsgBatchEntry → Log → Log × List MsgBatchEntry × Result ℕ → Type 0
Prefix p k ms log (after, left, r) =
    (k ≤ length ms)
    × (sent after ≡ sent log ++ map (datagram p) (take k ms))
    × (drop k left ≡ drop k ms)

-- All are sent, or the next one was refused and nothing was tried after it.
abbrev pub Halted : ℕ → List Datagram → Log → Type 0
Halted k ds after =
    (k ≡ length ds)
    ⊎ ((e : ErrorCode) × (d : Datagram) × (before : Log) × (get_elem? ds k ≡ some d)
        × (after ≡ before ++ (d, err e) ∷ []))

pub sent-append : (log more : Log) → sent (log ++ more) ≡ sent log ++ sent more
unfolding sent
sent-append [] more = refl
sent-append ((d, ok n) ∷ log) more = ap (λ l. d ∷ l) (sent-append log more)
sent-append ((d, err e) ∷ log) more = sent-append log more

stopped_count : (i : ℕ) (e : ErrorCode) → count (if i == 0 then err e else ok i) ≡ i + 0
stopped_count i e = elim (Bool-cases (i == 0)) [
  | inl y ↦ rw y (omega (arith, (==_iff i 0).0 y))
  | inr n ↦ rw n (omega arith)
]

halts :
    (k : ℕ) (ds : List Datagram) (after : Log) (d : Datagram)
    → Halted k ds after
    → Halted (suc k) (d ∷ ds) after
halts k ds after d (inl e) = inl (omega (arith, e))
halts k ds after c (inr (e, d, before, g, q)) = inr (e, d, before, g, q)

after_send_lem :
    (p : Platform) (sendto : Sendto) (i : ℕ) (m : MsgBatchEntry) (ms : List MsgBatchEntry)
    (log : Log) (a : Result ℕ) (rest : Log → Log × List MsgBatchEntry × Result ℕ)
    → ((log : Log)
        → (k : ℕ) × (count (rest log).2 ≡ suc i + k)
          × Prefix p k ms log (rest log)
          × Halted k (map (datagram p) ms) (rest log).0)
    → (let r = after_send p sendto (log ++ (datagram p m, a) ∷ [], a) i m ms rest in
        (k : ℕ) × (count r.2 ≡ i + k)
        × Prefix p k (m ∷ ms) log r
        × Halted k (map (datagram p) (m ∷ ms)) r.0)
unfolding after_send sent
after_send_lem p sendto i m ms log (err e) rest f = (
  0,
  stopped_count i e,
  (omega arith, sent-append log ((datagram p m, err e) ∷ []), refl),
  inr (e, datagram p m, log, refl, refl),
)
after_send_lem p sendto i m ms log (ok n) rest f =
    let (k, c, (l, s, d), h) = f (log ++ (datagram p m, ok n) ∷ []) in
    (
      suc k,
      omega (arith, c),
      (
        omega (arith, l),
        s
            ∙ (ap (λ x. x ++ map (datagram p) (take k ms))
                  (sent-append log ((datagram p m, ok n) ∷ []))
                ∙ append_assoc (sent log) (datagram p m ∷ []) (map (datagram p) (take k ms))),
        d,
      ),
      halts k (map (datagram p) ms) (rest (log ++ (datagram p m, ok n) ∷ [])).0 (datagram p m) h,
    )

send_loop_lem :
    (p : Platform) (sendto : Sendto) (ms : List MsgBatchEntry) (i : ℕ) (log : Log)
    → (k : ℕ) × (count (send_loop p sendto true i ms log).2 ≡ i + k)
      × Prefix p k ms log (send_loop p sendto true i ms log)
      × Halted k (map (datagram p) ms) (send_loop p sendto true i ms log).0
unfolding send_loop send_to_raw
send_loop_lem p sendto [] i log =
    (0, omega arith, (omega arith, sym (append-nil (sent log)), refl), inl refl)
send_loop_lem p sendto (m ∷ ms) i log =
    after_send_lem p sendto i m ms log (sendto log (datagram p m))
      (λ log. send_loop p sendto true (suc i) ms log) (send_loop_lem p sendto ms (suc i))

set_transferred_lem :
    (lens : List ℕ) (ms : List MsgBatchEntry)
    → drop (length lens) (set_transferred lens ms) ≡ drop (length lens) ms
unfolding set_transferred
set_transferred_lem [] ms = refl
set_transferred_lem (n ∷ ns) [] = refl
set_transferred_lem (n ∷ ns) (m ∷ ms) = set_transferred_lem ns ms

length-map {ℓ κ} :
    {A : Type ℓ} {B : Type κ} (f : A → B) (xs : List A) → length (map f xs) ≡ length xs
length-map f [] = refl
length-map f (x ∷ xs) = omega (arith, length-map f xs)

take-map {ℓ κ} :
    {A : Type ℓ} {B : Type κ} (f : A → B) (n : ℕ) (xs : List A)
    → take n (map f xs) ≡ map f (take n xs)
take-map f zero xs = refl
take-map f (suc n) [] = refl
take-map f (suc n) (x ∷ xs) = ap (λ l. f x ∷ l) (take-map f n xs)

abbrev lengths : Result (List ℕ) → List ℕ
lengths (ok ns) = ns
lengths (err e) = []

after_mmsg_lem :
    (ms : List MsgBatchEntry) (log : Log) (r : Log × Result (List ℕ))
    → Sends (map (datagram linux) ms) log r
    → Prefix linux (count (after_mmsg r ms).2) ms log (after_mmsg r ms)
unfolding after_mmsg
after_mmsg_lem ms log (after, ok ns) (some_sent lens e l s) =
    subst (λ xs. Prefix linux (length xs) ms log (after, set_transferred xs ms, ok (length xs)))
      (sym (ap lengths e))
      (
        omega (arith, l, length-map (datagram linux) ms),
        s ∙ ap (λ ds. sent log ++ ds) (take-map (datagram linux) (length lens) ms),
        set_transferred_lem lens ms,
      )
after_mmsg_lem ms log (after, err x) (some_sent lens e l s) = cc
after_mmsg_lem ms log (after, ok ns) (none_sent e q s) = cc
after_mmsg_lem ms log (after, err x) (none_sent e q s) =
    (omega arith, s ∙ sym (append-nil (sent log)), refl)

-- On an open socket: the system takes a first part of the datagrams, as many as are returned, and the
-- rest is left because `sendmmsg` left it, or because the next one was refused.
Sent : Platform → Sendmmsg → List MsgBatchEntry → Log → Log × List MsgBatchEntry × Result ℕ → Type 0
Sent p sendmmsg ms log r =
    Prefix p (count r.2) ms log r
    × ((r.0 ≡ (sendmmsg log (map (datagram p) ms)).0)
        ⊎ Halted (count r.2) (map (datagram p) ms) r.0)

counted :
    (p : Platform) (sendmmsg : Sendmmsg) (ms : List MsgBatchEntry) (log : Log)
    (r : Log × List MsgBatchEntry × Result ℕ)
    → ((k : ℕ) × (count r.2 ≡ 0 + k) × Prefix p k ms log r × Halted k (map (datagram p) ms) r.0)
    → Sent p sendmmsg ms log r
unfolding Sent
counted p sendmmsg ms log r (k, c, x, h) =
    subst
      (λ n.
        Prefix p n ms log r
        × ((r.0 ≡ (sendmmsg log (map (datagram p) ms)).0) ⊎ Halted n (map (datagram p) ms) r.0))
      (sym (c ∙ omega arith)) (x, inr h)

after_mmsg_log : (ms : List MsgBatchEntry) (r : Log × Result (List ℕ)) → (after_mmsg r ms).0 ≡ r.0
unfolding after_mmsg
after_mmsg_log ms (log, ok ns) = refl
after_mmsg_log ms (log, err e) = refl

send_open_lem :
    (p : Platform) (sendto : Sendto) (sendmmsg : Sendmmsg) (ms : List MsgBatchEntry) (log : Log)
    → Documented sendmmsg
    → Sent p sendmmsg ms log (send_open p sendto sendmmsg ms log)
unfolding send_open Sent
send_open_lem linux sendto sendmmsg ms log h = (
  after_mmsg_lem ms log (sendmmsg log (map (datagram linux) ms)) (h log (map (datagram linux) ms)),
  inl (after_mmsg_log ms (sendmmsg log (map (datagram linux) ms))),
)
send_open_lem macos sendto sendmmsg ms log h =
    counted macos sendmmsg ms log (send_loop macos sendto true 0 ms log)
      (send_loop_lem macos sendto ms 0 log)
send_open_lem windows sendto sendmmsg ms log h =
    counted windows sendmmsg ms log (send_loop windows sendto true 0 ms log)
      (send_loop_lem windows sendto ms 0 log)

-- What a user's entry is on the wire.
abbrev pub wire : Platform → SendEntry → Datagram
wire p m = record { bytes = take (clamp p (length m.data_bytes)) m.data_bytes; dest = m.dest }

map-entry :
    (p : Platform) (msgs : List SendEntry) → map (datagram p) (map entry msgs) ≡ map (wire p) msgs
unfolding datagram entry
map-entry p [] = refl
map-entry p (m ∷ msgs) = ap (λ l. wire p m ∷ l) (map-entry p msgs)

-- `do_send_batch` and the batch under it, on each platform. On a closed socket nothing is sent and the
-- result is `invalid_state`. Otherwise the system takes the first of the datagrams, each once, in order and
-- to its address, and no other, and the number that is returned is how many they are, none for an error;
-- what is left was left by `sendmmsg` (Linux), or begins with a datagram that the system refused in the
-- last call. `sendmmsg` does what its manual says.
pub batch_sends_a_prefix :
    (p : Platform) (sendto : Sendto) (sendmmsg : Sendmmsg) (msgs : List SendEntry) (log : Log)
    → Documented sendmmsg
    → (do_send_batch p sendto sendmmsg false msgs log ≡ (log, err (socketpp_code invalid_state)))
      × (let (after, r) = do_send_batch p sendto sendmmsg true msgs log in
          (count r ≤ length msgs)
          × (sent after ≡ sent log ++ map (wire p) (take (count r) msgs))
          × ((after ≡ (sendmmsg log (map (wire p) msgs)).0)
              ⊎ Halted (count r) (map (wire p) msgs) after))
unfolding do_send_batch send_batch Sent
batch_sends_a_prefix p sendto sendmmsg msgs log h =
    let ((l, s, d), stop) = send_open_lem p sendto sendmmsg (map entry msgs) log h in
    let (after, r) = do_send_batch p sendto sendmmsg true msgs log in
    (
      refl,
      (
        omega (arith, l, length-map entry msgs),
        s
            ∙ ap (λ ds. sent log ++ ds)
                (ap (map (datagram p)) (take-map entry (count r) msgs)
                  ∙ map-entry p (take (count r) msgs)),
        subst (λ ds. (after ≡ (sendmmsg log ds).0) ⊎ Halted (count r) ds after) (map-entry p msgs)
            stop,
      ),
    )
