-- ===== src/Stream/Reuse.antt =====
-- The map of src/high/stream.cpp is keyed by descriptor: when that is sound, and when it is not.
use socketpp.Base.{
  ℕ, ◌+◌, ◌<◌, ◌≡◌, ◌⊎◌, inl, inr, refl, true, false, none, some, List, [], ◌∷◌, ◌==◌,
  if◌then◌else◌, is_some, arith, nat_eq,
}
use socketpp.Base.Map.{lookup, insert, lookup-erase, lookup-insert}
use socketpp.Stream.{Accepted, Mode, create, on_accept, erase_connection}
use socketpp.Stream.System.{
  System, mem, remove, start, is_tracked, Step, arms, accepts, accepts_connecting, rejects,
  installs, closes, closes_early, erases, Reach, here, next, Reach-trans,
}
use socketpp.Stream.Tracking.{on_accept-tracked, on_accept-untracked, on_connect-keeps, tracked_of}

abbrev pub count : ℕ → List ℕ → ℕ
count x [] = 0
count x (y ∷ ys) = (if x == y then 1 else 0) + count x ys

count-remove :
    (x y : ℕ) (xs : List ℕ)
    → mem x xs ≡ true
    → count y (remove x xs) + (if y == x then 1 else 0) ≡ count y xs
count-remove x y [] h = cc
count-remove x y (z ∷ xs) h = ground (arith, count-remove x y xs)

mem-count :
    (x : ℕ) (xs : List ℕ)
    → ((mem x xs ≡ false) × (count x xs ≡ 0)) ⊎ ((mem x xs ≡ true) × (0 < count x xs))
mem-count x [] = inl (refl, refl)
mem-count x (y ∷ ys) = ground (arith, mem-count x ys)

abbrev occurrences : System → ℕ → ℕ
occurrences s fd =
    count fd s.installed + count fd s.connecting + count fd s.erasing + count fd s.lost

abbrev entries : System → ℕ → ℕ
entries s fd = if is_some (lookup fd s.server.connections) then 1 else 0

-- The descriptors with an entry are those of the tracked connections, each of one only.
abbrev Inv : System → Type 0
Inv s = (fd : ℕ) → entries s fd ≡ occurrences s fd

accepted-Inv :
    (s t : System) (fd conn : ℕ)
    → Inv s
    → occurrences s fd ≡ 0
    → is_tracked (on_accept s.server (some (fd, conn))).1 ≡ true
    → t.server ≡ (on_accept s.server (some (fd, conn))).0
    → ((g : ℕ) → occurrences t g ≡ (if g == fd then 1 else 0) + occurrences s g)
    → Inv t
accepted-Inv s t fd conn v z h e o g =
    let moved : t.server.connections ≡ insert fd conn s.server.connections =
      ground (arith, on_accept-tracked s.server fd conn h) in
    rw (moved, o g) (ground (arith, lookup-insert fd g conn s.server.connections, v g, v fd, z))

unused :
    (s : System) (fd : ℕ)
    → mem fd s.installed ≡ false
    → mem fd s.connecting ≡ false
    → (mem fd s.erasing ≡ false) × (mem fd s.lost ≡ false)
    → occurrences s fd ≡ 0
unused s fd a b c = ground (
  arith,
  mem-count fd s.installed,
  mem-count fd s.connecting,
  mem-count fd s.erasing,
  mem-count fd s.lost,
)

Step-Inv : {s t : System} → Step true s t → Inv s → Inv t
unfolding erase_connection
Step-Inv {s} arms v = λ g. rw (on_connect-keeps s.server).0 (v g)
Step-Inv {s} (accepts fd conn a b c h) v =
    accepted-Inv s
      (record s { server = (on_accept s.server (some (fd, conn))).0; installed = fd ∷ s.installed })
      fd conn v (unused s fd a b (c refl)) (tracked_of _ (inl h)) refl (λ g. omega arith)
Step-Inv {s} (accepts_connecting fd conn a b c h) v =
    accepted-Inv s
      (record s {
        server = (on_accept s.server (some (fd, conn))).0;
        connecting = fd ∷ s.connecting;
      })
      fd conn v (unused s fd a b (c refl)) (tracked_of _ (inr h)) refl (λ g. omega arith)
Step-Inv {s} (rejects r h) v = rw (on_accept-untracked s.server r h) v
Step-Inv {s} (installs fd h) v = λ g. omega (arith, v g, count-remove fd g s.connecting h)
Step-Inv {s} (closes fd h) v = λ g. omega (arith, v g, count-remove fd g s.installed h)
Step-Inv {s} (closes_early fd h) v = λ g. omega (arith, v g, count-remove fd g s.connecting h)
Step-Inv {s} (erases fd h) v = λ g. ground (
  arith,
  v g,
  v fd,
  count-remove fd g s.erasing h,
  count-remove fd fd s.erasing h,
  lookup-erase fd g s.server.connections,
)

start-Inv : (m : Mode) (max : ℕ) → Inv (start (create m max))
unfolding create lookup
start-Inv m max fd = refl

Reach-Inv : (m : Mode) (max : ℕ) {s : System} → Reach true (start (create m max)) s → Inv s
Reach-Inv m max here = start-Inv m max
Reach-Inv m max (next r st) = Step-Inv st (Reach-Inv m max r)

-- As long as the kernel gives out no descriptor whose entry is still to be erased, the map has an
-- entry for a descriptor exactly if it belongs to one tracked connection, that is open, awaits the
-- erasing callback or closed before `on_close_` was set; no descriptor belongs to two.
pub fresh_descriptors_are_tracked :
    (m : Mode) (max : ℕ) (s : System) (fd : ℕ)
    → Reach true (start (create m max)) s
    → (if is_some (lookup fd s.server.connections) then 1 else 0)
      ≡ count fd s.installed + count fd s.connecting + count fd s.erasing + count fd s.lost
fresh_descriptors_are_tracked m max s fd r = Reach-Inv m max r fd

-- The closing of a connection frees its descriptor before the entry is erased: if the kernel gives
-- it to a new connection first, the callback of the old one erases the entry of the new one, which
-- stays open and is in the map no more.
pub reused_descriptor_loses_entry :
    (s : System) (fd conn : ℕ)
    → mem fd s.erasing ≡ true
    → mem fd s.installed ≡ false
    → mem fd s.connecting ≡ false
    → (on_accept s.server (some (fd, conn))).1 ≡ Accepted.start_reading
    → (t : System) × Reach false s t
      × (mem fd t.installed ≡ true)
      × (lookup fd t.server.connections ≡ none)
unfolding erase_connection
reused_descriptor_loses_entry s fd conn e i c a = (
  _,
  next (next here (accepts fd conn i c (λ h. cc) a)) (erases fd e),
  ground arith,
  ground (arith, lookup-erase fd fd (on_accept s.server (some (fd, conn))).0.connections),
)

lost_stays : {s t : System} (fd : ℕ) → Reach true s t → mem fd s.lost ≡ true → mem fd t.lost ≡ true
lost_stays fd here h = h
lost_stays fd (next r st) h = one st (lost_stays fd r h)
  where
    one : {t u : System} → Step true t u → mem fd t.lost ≡ true → mem fd u.lost ≡ true
    one arms h = h
    one (accepts f conn a b c k) h = h
    one (accepts_connecting f conn a b c k) h = h
    one (rejects r k) h = h
    one (installs f k) h = h
    one (closes f k) h = h
    one (closes_early f k) h = ground arith
    one (erases f k) h = h

-- A connection that closes while `on_connect_cb` runs, before the server has set its `on_close_`,
-- keeps its entry in the map for as long as its descriptor is not used again.
pub early_close_keeps_entry :
    (m : Mode) (max : ℕ) (s t : System) (fd : ℕ)
    → Reach true (start (create m max)) s
    → Step true s t
    → mem fd s.lost ≡ false
    → mem fd t.lost ≡ true
    → (u : System) → Reach true t u
    → is_some (lookup fd u.server.connections) ≡ true
early_close_keeps_entry m max s t fd r st a b u q =
    ground (
      arith,
      Reach-Inv m max (Reach-trans (next r st) q) fd,
      mem-count fd u.lost,
      lost_stays fd q b,
    )
