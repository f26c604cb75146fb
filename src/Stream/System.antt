-- ===== src/Stream/System.antt =====
-- The server of src/high/stream.cpp among the kernel, which gives out descriptors, and connections, which
-- close.
use socketpp.Base.{
  ℕ, ◌≡◌, Bool, true, false, Option, some, List, [], ◌∷◌, ◌==◌, if◌then◌else◌, nat_eq,
}
use socketpp.Stream.{Stream, Accepted, on_connect, on_accept, erase_connection}

-- `installed`: the open descriptors whose connection has the `on_close_` of the server;
-- `connecting`: those whose `on_connect_cb` has not returned, where it is not yet set; `erasing`: those
-- of closed connections whose callback that erases the entry has not run; `lost`: those of
-- connections that closed without it.
pub record System : Type 0 where
  pub server : Stream
  pub installed : List ℕ
  pub connecting : List ℕ
  pub erasing : List ℕ
  pub lost : List ℕ

abbrev pub mem : ℕ → List ℕ → Bool
mem x [] = false
mem x (y ∷ ys) = if x == y then true else mem x ys

-- The first occurrence.
abbrev pub remove : ℕ → List ℕ → List ℕ
remove x [] = []
remove x (y ∷ ys) = let rest = remove x ys in if x == y then ys else y ∷ rest

abbrev pub start : Stream → System
start s = record { server = s; installed = []; connecting = []; erasing = []; lost = [] }

abbrev pub is_tracked : Accepted → Bool
is_tracked Accepted.start_reading = true
is_tracked Accepted.connect_submitted = true
is_tracked _ = false

-- The kernel gives out a descriptor that is not in use. `fresh` says whether descriptors whose entry
-- is still to be erased are avoided too, which no kernel promises.
pub data Step (fresh : Bool) (s : System) : System → Type 0 where
  arms : Step fresh s (record s { server = on_connect s.server })
  accepts :
      (fd conn : ℕ)
      → mem fd s.installed ≡ false
      → mem fd s.connecting ≡ false
      → (fresh ≡ true → (mem fd s.erasing ≡ false) × (mem fd s.lost ≡ false))
      → (on_accept s.server (some (fd, conn))).1 ≡ Accepted.start_reading
      → Step fresh s (record s {
        server = (on_accept s.server (some (fd, conn))).0;
        installed = fd ∷ s.installed;
      })
  accepts_connecting :
      (fd conn : ℕ)
      → mem fd s.installed ≡ false
      → mem fd s.connecting ≡ false
      → (fresh ≡ true → (mem fd s.erasing ≡ false) × (mem fd s.lost ≡ false))
      → (on_accept s.server (some (fd, conn))).1 ≡ Accepted.connect_submitted
      → Step fresh s (record s {
        server = (on_accept s.server (some (fd, conn))).0;
        connecting = fd ∷ s.connecting;
      })
  rejects :
      (r : Option (ℕ × ℕ))
      → is_tracked (on_accept s.server r).1 ≡ false
      → Step fresh s (record s { server = (on_accept s.server r).0 })
  installs :
      (fd : ℕ)
      → mem fd s.connecting ≡ true
      → Step fresh s
          (record s { connecting = remove fd s.connecting; installed = fd ∷ s.installed })
  closes :
      (fd : ℕ)
      → mem fd s.installed ≡ true
      → Step fresh s (record s { installed = remove fd s.installed; erasing = fd ∷ s.erasing })
  closes_early :
      (fd : ℕ)
      → mem fd s.connecting ≡ true
      → Step fresh s (record s { connecting = remove fd s.connecting; lost = fd ∷ s.lost })
  erases :
      (fd : ℕ)
      → mem fd s.erasing ≡ true
      → Step fresh s
          (record s { server = erase_connection s.server fd; erasing = remove fd s.erasing })

pub data Reach (fresh : Bool) (s : System) : System → Type 0 where
  here : Reach fresh s s
  next : {t u : System} → Reach fresh s t → Step fresh t u → Reach fresh s u

pub Reach-trans :
    {fresh : Bool} {s t u : System} → Reach fresh s t → Reach fresh t u → Reach fresh s u
Reach-trans r here = r
Reach-trans r (next q st) = next (Reach-trans r q) st
