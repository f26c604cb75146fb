-- ===== src/Net/RoundTrip.antt =====
-- Accessors and conversions of the addresses (src/net/inet4.cpp, src/net/inet6.cpp).
use socketpp.Base.{
  ℕ, zero, suc, ◌^◌, ◌≤◌, ◌<◌, ◌≡◌, ◌≢◌, ◌↔◌, ◌∙◌, refl, sym, ap, inl, inr, true, false, ◌&&◌, List,
  [], ◌∷◌, ◌++◌, length, length-drop, replicate, drop, ◌==◌, ==_iff, if◌then◌else◌, arith,
  Bool-cases, All,
}
use socketpp.Net.{Word16, Word32, IsByte, htons, ntohs, htonl, ntohl}
use socketpp.Net.Inet4
use socketpp.Net.Inet4.{Inet4Address, Result, ok, err}
use socketpp.Net.Inet6
use socketpp.Net.Inet6.{Inet6Address, leading_zeros, is_v4_mapped, to_v4, last_word, byte}

abbrev pub IsWord16 : Word16 → Type 0
IsWord16 w = IsByte w.hi × IsByte w.lo

abbrev pub IsWord32 : Word32 → Type 0
IsWord32 w = IsByte w.b0 × IsByte w.b1 × IsByte w.b2 × IsByte w.b3

pub htonl-ntohl : (w : Word32) → IsWord32 w → htonl (ntohl w) ≡ w
htonl-ntohl w h = λ i. record {
  b0 = (let e : (htonl (ntohl w)).b0 ≡ w.b0 = omega arith in e) i;
  b1 = (let e : (htonl (ntohl w)).b1 ≡ w.b1 = omega arith in e) i;
  b2 = (let e : (htonl (ntohl w)).b2 ≡ w.b2 = omega arith in e) i;
  b3 = (let e : (htonl (ntohl w)).b3 ≡ w.b3 = omega arith in e) i;
}

pub htons-ntohs : (w : Word16) → IsWord16 w → htons (ntohs w) ≡ w
htons-ntohs w h = ground arith

-- An IPv4 address gives back what it was made of, for every 32-bit address and 16-bit port, and is
-- made of what it gives; the bytes that it holds are bytes.
pub inet4_round_trip :
    (n p : ℕ) (a : Inet4Address)
    → n < 2 ^ 32
    → p < 2 ^ 16
    → IsWord32 a.addr
    → IsWord16 a.port_net
    → (Inet4.ip (Inet4.create n p) ≡ n)
      × (Inet4.port (Inet4.create n p) ≡ p)
      × (Inet4.create (Inet4.ip a) (Inet4.port a) ≡ a)
      × IsWord32 (Inet4.create n p).addr
      × IsWord16 (Inet4.create n p).port_net
unfolding Inet4.create Inet4.ip Inet4.port
inet4_round_trip n p a hn hp ha hq = (
  omega arith,
  omega arith,
  λ i. record { addr = htonl-ntohl a.addr ha i; port_net = htons-ntohs a.port_net hq i },
  omega arith,
  omega arith,
)

leading_zeros-eq :
    (n : ℕ) (bs : List ℕ)
    → n ≤ length bs
    → leading_zeros n bs ≡ true
    → bs ≡ replicate n 0 ++ drop n bs
unfolding leading_zeros
leading_zeros-eq zero bs l h = refl
leading_zeros-eq (suc n) [] l h = absurd (omega arith)
leading_zeros-eq (suc n) (b ∷ bs) l h = elim (Bool-cases (b == 0)) [
  | inl z ↦
      let e : b ≡ 0 = (==_iff b 0).0 z in
      let ih = leading_zeros-eq n bs (omega arith) (rw z at h) in λ i. e i ∷ ih i
  | inr n' ↦ let h' : false ≡ true = rw n' at h in cc
]

-- A list of six.
six : (bs : List ℕ) → length bs ≡ 6 → (a b c d e f : ℕ) × (bs ≡ a ∷ b ∷ c ∷ d ∷ e ∷ f ∷ [])
six (a ∷ b ∷ c ∷ d ∷ e ∷ f ∷ []) h = (a, b, c, d, e, f, refl)
six (a ∷ b ∷ c ∷ d ∷ e ∷ f ∷ g ∷ r) h = absurd (omega arith)
six _ h = absurd (omega arith)

-- `::ffff:` and the four bytes of an IPv4 address.
abbrev pub mapped : Word32 → List ℕ
mapped w = replicate 10 0 ++ 0xff ∷ 0xff ∷ w.b0 ∷ w.b1 ∷ w.b2 ∷ w.b3 ∷ []

mapped-bytes :
    (p q : ℕ) (w : Word32)
    → p ≡ 0xff
    → q ≡ 0xff
    → replicate 10 0 ++ p ∷ q ∷ w.b0 ∷ w.b1 ∷ w.b2 ∷ w.b3 ∷ [] ≡ mapped w
mapped-bytes p q w e k = λ i. replicate 10 0 ++ e i ∷ k i ∷ w.b0 ∷ w.b1 ∷ w.b2 ∷ w.b3 ∷ []

mapped-list :
    (bs : List ℕ)
    → length bs ≡ 16
    → leading_zeros 10 bs ≡ true
    → byte bs 10 ≡ 0xff
    → byte bs 11 ≡ 0xff
    → bs ≡ mapped (last_word bs)
mapped-list bs l z x y =
    let (p, q, b, c, d, f, k) = six (drop 10 bs) (omega (arith, l, length-drop 10 bs)) in
    let whole : bs ≡ replicate 10 0 ++ p ∷ q ∷ b ∷ c ∷ d ∷ f ∷ [] =
      leading_zeros-eq 10 bs (omega (arith, l)) z ∙ ap (λ r. replicate 10 0 ++ r) k in
    whole
    ∙ mapped-bytes p q (record { b0 = b; b1 = c; b2 = d; b3 = f })
        (sym (ap (λ r. byte r 10) whole) ∙ x) (sym (ap (λ r. byte r 11) whole) ∙ y)
    ∙ sym (ap (λ r. mapped (last_word r)) whole)

is_v4_mapped-mapped :
    (a : Inet6Address)
    → length a.addr ≡ 16
    → is_v4_mapped a ≡ true
    → a.addr ≡ mapped (last_word a.addr)
unfolding is_v4_mapped
is_v4_mapped-mapped a l h = elim (Bool-cases (leading_zeros 10 a.addr)) [
  | inr n ↦ let h' : false ≡ true = rw n at h in cc
  | inl z ↦
      mapped-list a.addr l z (ground (arith, h, z, ==_iff (byte a.addr 10) 0xff))
        (ground (arith, h, z, ==_iff (byte a.addr 11) 0xff))
]

mapped-is_v4_mapped : (a : Inet6Address) (w : Word32) → a.addr ≡ mapped w → is_v4_mapped a ≡ true
unfolding is_v4_mapped leading_zeros
mapped-is_v4_mapped a w e =
    ap
      (λ (l : List ℕ). if leading_zeros 10 l then byte l 10 == 0xff && byte l 11 == 0xff else false)
      e

byte-IsByte : (bs : List ℕ) (i : ℕ) → All IsByte bs → IsByte (byte bs i)
byte-IsByte [] i h = omega arith
byte-IsByte (b ∷ bs) zero h = h.0
byte-IsByte (b ∷ bs) (suc i) h = byte-IsByte bs i h.1

last_word-IsWord32 : (bs : List ℕ) → All IsByte bs → IsWord32 (last_word bs)
last_word-IsWord32 bs h =
    (byte-IsByte bs 12 h, byte-IsByte bs 13 h, byte-IsByte bs 14 h, byte-IsByte bs 15 h)

to_v4-mapped :
    (a : Inet6Address)
    → is_v4_mapped a ≡ true
    → All IsByte a.addr
    → IsWord16 a.port_net
    → to_v4 a ≡ ok (record { addr = last_word a.addr; port_net = a.port_net })
unfolding to_v4 Inet4.create Inet6.port
to_v4-mapped a m bytes hp = rw m (λ i. ok (record {
  addr = htonl-ntohl (last_word a.addr) (last_word-IsWord32 a.addr bytes) i;
  port_net = htons-ntohs a.port_net hp i;
}))

to_v4-unmapped : (a : Inet6Address) (b : Inet4Address) → is_v4_mapped a ≡ false → to_v4 a ≢ ok b
unfolding to_v4
to_v4-unmapped a b m h = ground (arith, m, h)

-- The conversion to IPv4 succeeds for the addresses `::ffff:w` and no others, and gives the four
-- bytes `w` and the port.
pub to_v4_exact :
    (a : Inet6Address) (b : Inet4Address)
    → length a.addr ≡ 16
    → All IsByte a.addr
    → IsWord16 a.port_net
    → (to_v4 a ≡ ok b) ↔ ((a.addr ≡ mapped b.addr) × (a.port_net ≡ b.port_net))
to_v4_exact a b l bytes hp = (
  λ h. elim (Bool-cases (is_v4_mapped a)) [
    | inr n ↦ absurd (to_v4-unmapped a b n h)
    | inl m ↦
        let made = sym (to_v4-mapped a m bytes hp) ∙ h in
        let same : record { addr = last_word a.addr; port_net = a.port_net } ≡ b = cc made in
        (
          is_v4_mapped-mapped a l m ∙ ap (λ (x : Inet4Address). mapped x.addr) same,
          ap (λ (x : Inet4Address). x.port_net) same,
        )
  ],
  λ (e, k).
      to_v4-mapped a (mapped-is_v4_mapped a b.addr e) bytes hp
      ∙ (λ i. ok (record { addr = last_word (e i); port_net = k i })),
)
