-- ===== src/Options/Blocks.antt =====
-- The bytes of two addresses, as include/socketpp/socket/options.hpp writes them and
-- src/socket/options.cpp reads them.
use socketpp.Base.{
  ℕ, zero, suc, ◌-◌, ◌≤◌, Bool, false, some, List, [], ◌∷◌, ◌++◌, ◌≡◌, ◌∙◌, refl, ap, append_assoc,
  length, length-append, length-take, take, drop, replicate, ltb, arith,
}
use socketpp.Net.SockAddress.{SockAddress, zero_filled}
use socketpp.Options.{Layout, int_bytes}
use socketpp.Options.Build.{address_block}
use socketpp.Options.Requests.{apply_multicast, join_request}

length-replicate {ℓ} : {A : Type ℓ} (n : ℕ) (a : A) → length (replicate n a) ≡ n
length-replicate zero a = refl
length-replicate (suc n) a = omega (arith, length-replicate n a)

take-exact {ℓ} : {A : Type ℓ} (n : ℕ) (xs ys : List A) → length xs ≡ n → take n (xs ++ ys) ≡ xs
take-exact zero [] ys h = refl
take-exact zero (x ∷ xs) ys h = absurd (omega (arith, h))
take-exact (suc n) [] ys h = absurd (omega (arith, h))
take-exact (suc n) (x ∷ xs) ys h = ap (λ l. x ∷ l) (take-exact n xs ys (omega (arith, h)))

drop-exact {ℓ} : {A : Type ℓ} (n : ℕ) (xs ys : List A) → length xs ≡ n → drop n (xs ++ ys) ≡ ys
drop-exact zero [] ys h = refl
drop-exact zero (x ∷ xs) ys h = absurd (omega (arith, h))
drop-exact (suc n) [] ys h = absurd (omega (arith, h))
drop-exact (suc n) (x ∷ xs) ys h = drop-exact n xs ys (omega (arith, h))

-- An address of the program's own: no longer than the storage.
abbrev pub Fits : SockAddress → Type 0
Fits a = (a.len ≤ 128) × (length a.storage ≡ 128)

-- The bytes of an address, and zeros.
abbrev pub padded : SockAddress → List ℕ
padded a = zero_filled (take a.len a.storage)

length-padded : (a : SockAddress) → Fits a → length (padded a) ≡ 128
length-padded a h = omega (
  arith,
  h.0,
  h.1,
  length-append (take a.len a.storage) (replicate (128 - length (take a.len a.storage)) 0),
  length-replicate {A = ℕ} (128 - length (take a.len a.storage)) 0,
  length-take a.len a.storage,
)

abbrev pub block : SockAddress → List ℕ
block a = padded a ++ int_bytes a.len

length-block : (a : SockAddress) → Fits a → length (block a) ≡ 132
length-block a h = omega (arith, length-padded a h, length-append (padded a) (int_bytes a.len))

pub address_block_lem : (a : SockAddress) → Fits a → address_block a ≡ some (block a)
unfolding address_block
address_block_lem a h = ground (arith, h.0)

apply_multicast-blocks :
    (l : Layout) (join : Bool) (a x b y : List ℕ)
    → length a ≡ 128
    → length x ≡ 4
    → length b ≡ 128
    → length y ≡ 4
    → apply_multicast l join ((a ++ x) ++ (b ++ y)) ≡ join_request l join (l.sa_family a) a b
unfolding apply_multicast
apply_multicast-blocks l join a x b y ha hx hb hy =
    let whole = (a ++ x) ++ (b ++ y) in
    let short : ltb (length whole) 264 ≡ false = ground (
      arith,
      ha,
      hx,
      hb,
      hy,
      length-append (a ++ x) (b ++ y),
      length-append a x,
      length-append b y,
    ) in
    let group : take 128 whole ≡ a =
      ap (take 128) (append_assoc a x (b ++ y)) ∙ take-exact 128 a (x ++ (b ++ y)) ha in
    let iface : take 128 (drop 132 whole) ≡ b =
      ap (take 128) (drop-exact 132 (a ++ x) (b ++ y) (omega (arith, length-append a x, ha, hx)))
      ∙ take-exact 128 b y hb in
    rw (short, group, iface) refl

pub apply_multicast_lem :
    (l : Layout) (join : Bool) (g i : SockAddress)
    → Fits g
    → Fits i
    → apply_multicast l join (block g ++ block i)
      ≡ join_request l join (l.sa_family (padded g)) (padded g) (padded i)
unfolding apply_multicast
apply_multicast_lem l join g i hg hi =
    apply_multicast-blocks l join (padded g) (int_bytes g.len) (padded i) (int_bytes i.len)
      (length-padded g hg) refl (length-padded i hi) refl
