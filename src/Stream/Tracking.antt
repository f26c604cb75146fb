-- ===== src/Stream/Tracking.antt =====
-- Which connections of src/high/stream.cpp the server tracks, as descriptors are opened, closed and
-- used again by the kernel.
use socketpp.Base.{
  ℕ, suc, ◌+◌, ◌%◌, ◌^◌, ◌≤◌, ◌<◌, ◌≡◌, ◌⊎◌, inl, inr, refl, Bool, true, false, Option, none, some,
  List, [], ◌∷◌, length, arith, nat_eq,
}
use socketpp.Base.Map.{
  Map, insert, erase, Distinct, insert-Distinct, erase-Distinct, length-insert, length-erase,
}
use socketpp.Stream.{Stream, Accepted, Mode, create, on_connect, on_accept, erase_connection, add64}
use socketpp.Stream.System.{
  System, mem, remove, start, is_tracked, Step, Reach, arms, accepts, accepts_connecting, rejects,
  installs, closes, closes_early, erases, here, next,
}

length-remove : (x : ℕ) (xs : List ℕ) → mem x xs ≡ true → suc (length (remove x xs)) ≡ length xs
length-remove x [] h = cc
length-remove x (y ∷ ys) h = ground (arith, length-remove x ys)

abbrev pub total : System → ℕ
total s = length s.installed + length s.connecting + length s.erasing + length s.lost

-- The invariant that needs nothing of the kernel.
pub record Inv (max : ℕ) (s : System) : Type 0 where
  pub counted : s.server.connection_count ≡ total s % 2 ^ 64
  pub distinct : Distinct s.server.connections
  pub limit : s.server.max_conn ≡ max
  pub limited : (max ≡ 0) ⊎ (length s.server.connections ≤ max)

pub on_connect-keeps :
    (s : Stream)
    → ((on_connect s).connections ≡ s.connections)
      × ((on_connect s).connection_count ≡ s.connection_count)
      × ((on_connect s).max_conn ≡ s.max_conn)
unfolding on_connect
on_connect-keeps s = ground arith

pub on_accept-tracked :
    (s : Stream) (fd conn : ℕ)
    → is_tracked (on_accept s (some (fd, conn))).1 ≡ true
    → let t = (on_accept s (some (fd, conn))).0 in
      (t.connections ≡ insert fd conn s.connections)
      × (t.connection_count ≡ add64 s.connection_count 1)
      × (t.max_conn ≡ s.max_conn)
      × ((s.max_conn ≡ 0) ⊎ (length s.connections < s.max_conn))
unfolding on_accept
on_accept-tracked s fd conn h = ground arith

pub on_accept-untracked :
    (s : Stream) (r : Option (ℕ × ℕ)) → is_tracked (on_accept s r).1 ≡ false → (on_accept s r).0 ≡ s
unfolding on_accept
on_accept-untracked s none h = refl
on_accept-untracked s (some (fd, conn)) h = ground arith

length-insert-le :
    (fd conn : ℕ) (m : Map ℕ ℕ) → Distinct m → length (insert fd conn m) ≤ suc (length m)
length-insert-le fd conn m d = omega (arith, length-insert fd conn m d)

accepted-Inv :
    (max : ℕ) (s t : System) (fd conn : ℕ)
    → Inv max s
    → is_tracked (on_accept s.server (some (fd, conn))).1 ≡ true
    → t.server ≡ (on_accept s.server (some (fd, conn))).0
    → total t ≡ suc (total s)
    → Inv max t
accepted-Inv max s t fd conn v h e n = record {
  counted = ground (arith, on_accept-tracked s.server fd conn h, v.counted);
  distinct =
      let moved : t.server.connections ≡ insert fd conn s.server.connections =
        ground (arith, on_accept-tracked s.server fd conn h) in
      rw moved (insert-Distinct fd conn s.server.connections v.distinct);
  limit = ground (arith, on_accept-tracked s.server fd conn h, v.limit);
  limited = ground (
    arith,
    on_accept-tracked s.server fd conn h,
    v.limit,
    length-insert-le fd conn s.server.connections v.distinct,
  );
}

erase-le : (fd : ℕ) (m : Map ℕ ℕ) → Distinct m → length (erase fd m) ≤ length m
erase-le fd m d = omega (arith, length-erase fd m d)

erased-Inv :
    (max : ℕ) (s : System) (fd : ℕ)
    → Inv max s
    → mem fd s.erasing ≡ true
    → Inv max (record s { server = erase_connection s.server fd; erasing = remove fd s.erasing })
unfolding erase_connection
erased-Inv max s fd v h = record {
  counted = ground (arith, length-remove fd s.erasing h, v.counted);
  distinct = erase-Distinct fd s.server.connections v.distinct;
  limit = v.limit;
  limited = ground (arith, v.limited, erase-le fd s.server.connections v.distinct);
}

pub tracked_of :
    (a : Accepted)
    → (a ≡ Accepted.start_reading) ⊎ (a ≡ Accepted.connect_submitted)
    → is_tracked a ≡ true
tracked_of a h = ground arith

Step-Inv : (max : ℕ) {fresh : Bool} {s t : System} → Step fresh s t → Inv max s → Inv max t
Step-Inv max {s = s} arms v = record {
  counted = ground (arith, on_connect-keeps s.server, v.counted);
  distinct = rw (on_connect-keeps s.server).0 v.distinct;
  limit = ground (arith, on_connect-keeps s.server, v.limit);
  limited = rw (on_connect-keeps s.server).0 v.limited;
}
Step-Inv max {s = s} (accepts fd conn a b c h) v =
    accepted-Inv max s _ fd conn v (tracked_of _ (inl h)) refl (omega arith)
Step-Inv max {s = s} (accepts_connecting fd conn a b c h) v =
    accepted-Inv max s _ fd conn v (tracked_of _ (inr h)) refl (omega arith)
Step-Inv max {s = s} (rejects r h) v = rw (on_accept-untracked s.server r h) v
Step-Inv max {s = s} (installs fd h) v = record {
  counted = ground (arith, length-remove fd s.connecting h, v.counted);
  distinct = v.distinct;
  limit = v.limit;
  limited = v.limited;
}
Step-Inv max {s = s} (closes fd h) v = record {
  counted = ground (arith, length-remove fd s.installed h, v.counted);
  distinct = v.distinct;
  limit = v.limit;
  limited = v.limited;
}
Step-Inv max {s = s} (closes_early fd h) v = record {
  counted = ground (arith, length-remove fd s.connecting h, v.counted);
  distinct = v.distinct;
  limit = v.limit;
  limited = v.limited;
}
Step-Inv max {s = s} (erases fd h) v = erased-Inv max s fd v h

start-Inv : (m : Mode) (max : ℕ) → Inv max (start (create m max))
unfolding create
start-Inv m max = record {
  counted = refl;
  distinct = tt;
  limit = refl;
  limited = inr (omega arith);
}

Reach-Inv :
    (m : Mode) (max : ℕ) {fresh : Bool} {s : System}
    → Reach fresh (start (create m max)) s
    → Inv max s
Reach-Inv m max here = start-Inv m max
Reach-Inv m max (next r st) = Step-Inv max st (Reach-Inv m max r)

-- Whatever descriptors the kernel gives out, in every interleaving: `connection_count` is, modulo
-- 2^64, the number of tracked connections that are open, await the callback that erases their entry,
-- or closed before the server's `on_close_` was set; and the map never has more entries than the
-- limit, if one is set.
pub count_and_limit :
    (m : Mode) (max : ℕ) (fresh : Bool) (s : System)
    → Reach fresh (start (create m max)) s
    → (s.server.connection_count ≡ total s % 2 ^ 64)
      × ((max ≡ 0) ⊎ (length s.server.connections ≤ max))
count_and_limit m max fresh s r = let v = Reach-Inv m max r in (v.counted, v.limited)
