-- ===== src/Net/Order.antt =====
-- The order and the equality of the addresses (src/net/inet6.cpp, include/socketpp/net/inet4.hpp):
-- both compare a key, which is a list of numbers.
use Prim.Native.Nat.{Ordering}
use Prim.Native.Nat.{bit_xor}
use socketpp.Base.{
  ℕ, ◌*◌, ◌%◌, ◌^◌, ◌≡◌, ◌↔◌, ◌∙◌, refl, sym, ap, true, List, [], ◌∷◌, ◌++◌, length, length-append,
  ◌==◌, ==_iff, arith,
}
use socketpp.Net.{Word16, ntohs, word16_eq, memcmp, is_lt, is_eq}
use socketpp.Net.Memcmp.{memcmp_self, memcmp-eq, memcmp-append, memcmp-OrderLaws, OrderLaws}
use socketpp.Net.RoundTrip.{IsWord16}
use socketpp.Net.Inet4
use socketpp.Net.Inet4.{Inet4Address}
use socketpp.Net.Inet6
use socketpp.Net.Inet6.{Inet6Address}

-- What is compared.
abbrev key4 : Inet4Address → List ℕ
key4 a = Inet4.ip a ∷ Inet4.port a ∷ []

abbrev key6 : Inet6Address → List ℕ
key6 a = a.addr ++ ntohs a.port_net ∷ a.scope ∷ []

key4-order :
    (a b : Inet4Address)
    → (Inet4.less a b ≡ is_lt (memcmp (key4 a) (key4 b)))
      × (Inet4.equal a b ≡ is_eq (memcmp (key4 a) (key4 b)))
unfolding Inet4.less Inet4.equal memcmp
key4-order a b = (ground arith, ground arith)

word16_eq-ntohs : (v w : Word16) → IsWord16 v → IsWord16 w → word16_eq v w ≡ (ntohs v == ntohs w)
word16_eq-ntohs v w h k = ground arith

key6-order :
    (a b : Inet6Address)
    → length a.addr ≡ length b.addr
    → IsWord16 a.port_net
    → IsWord16 b.port_net
    → (Inet6.less a b ≡ is_lt (memcmp (key6 a) (key6 b)))
      × (Inet6.equal a b ≡ is_eq (memcmp (key6 a) (key6 b)))
unfolding Inet6.less Inet6.equal memcmp
key6-order a b l p q =
    let port = word16_eq-ntohs a.port_net b.port_net p q in
    let split =
      memcmp-append a.addr b.addr (ntohs a.port_net ∷ a.scope ∷ [])
        (ntohs b.port_net ∷ b.scope ∷ []) l in
    (ground (arith, port, split), ground (arith, port, split))

-- IPv4 addresses are in a strict total order, which agrees with their equality.
pub inet4_is_ordered : (a b c : Inet4Address) → OrderLaws Inet4.less Inet4.equal a b c
inet4_is_ordered a b c =
    rw
      (
        (key4-order a a).0,
        (key4-order a a).1,
        (key4-order a b).0,
        (key4-order b c).0,
        (key4-order a c).0,
        (key4-order a b).1,
        (key4-order b a).0,
      )
      (memcmp-OrderLaws (key4 a) (key4 b) (key4 c) refl)

abbrev pub IsInet6 : Inet6Address → Type 0
IsInet6 a = (length a.addr ≡ 16) × IsWord16 a.port_net

inet6-OrderLaws :
    (a b c : Inet6Address)
    → IsInet6 a
    → IsInet6 b
    → IsInet6 c
    → OrderLaws Inet6.less Inet6.equal a b c
inet6-OrderLaws a b c p q r =
    let len = λ (x y : Inet6Address) (u : IsInet6 x) (v : IsInet6 y). u.0 ∙ sym v.0 in
    rw
      (
        (key6-order a a refl p.1 p.1).0,
        (key6-order a a refl p.1 p.1).1,
        (key6-order a b (len a b p q) p.1 q.1).0,
        (key6-order b c (len b c q r) q.1 r.1).0,
        (key6-order a c (len a c p r) p.1 r.1).0,
        (key6-order a b (len a b p q) p.1 q.1).1,
        (key6-order b a (len b a q p) q.1 p.1).0,
      )
      (memcmp-OrderLaws (key6 a) (key6 b) (key6 c) (
        omega (
          arith,
          p.0,
          q.0,
          length-append a.addr (ntohs a.port_net ∷ a.scope ∷ []),
          length-append b.addr (ntohs b.port_net ∷ b.scope ∷ []),
        )))

is_eq-eq : (o : Ordering) → is_eq o ≡ true → o ≡ Ordering.eq
is_eq-eq o h = ground arith

inet6-equal :
    (a b : Inet6Address)
    → IsInet6 a
    → IsInet6 b
    → (Inet6.equal a b ≡ true)
      ↔ ((a.addr ≡ b.addr) × (ntohs a.port_net ≡ ntohs b.port_net) × (a.scope ≡ b.scope))
unfolding Inet6.equal
inet6-equal a b p q =
    let port = word16_eq-ntohs a.port_net b.port_net p.1 q.1 in
    (
      λ h. (
        memcmp-eq a.addr b.addr (p.0 ∙ sym q.0)
            (is_eq-eq (memcmp a.addr b.addr) (ground (arith, h))),
        ground (arith, h, port, ==_iff (ntohs a.port_net) (ntohs b.port_net)),
        ground (arith, h, port, ==_iff a.scope b.scope),
      ),
      λ (e, k, s).
          let same : memcmp a.addr b.addr ≡ Ordering.eq =
            ap (memcmp a.addr) (sym e) ∙ memcmp_self a.addr in
          ground (
            arith,
            same,
            port,
            k,
            s,
            ==_iff (ntohs a.port_net) (ntohs b.port_net),
            ==_iff a.scope b.scope,
          ),
    )

-- IPv6 addresses of 16 bytes are in a strict total order, which agrees with their equality, and
-- equality is that of address, port and scope.
pub inet6_is_ordered :
    (a b c : Inet6Address)
    → IsInet6 a
    → IsInet6 b
    → IsInet6 c
    → OrderLaws Inet6.less Inet6.equal a b c
      × ((Inet6.equal a b ≡ true)
          ↔ ((a.addr ≡ b.addr) × (Inet6.port a ≡ Inet6.port b) × (a.scope ≡ b.scope)))
unfolding Inet6.port
inet6_is_ordered a b c p q r = (inet6-OrderLaws a b c p q r, inet6-equal a b p q)

-- Addresses that are equal have one hash, whatever the hash functions of the standard library.
pub equal_addresses_hash_alike :
    (hash16 hash32 : ℕ → ℕ) (u v : Inet4Address) (a b : Inet6Address)
    → IsInet6 a
    → IsInet6 b
    → (Inet4.equal u v ≡ true → Inet4.hash_value hash32 hash16 u ≡ Inet4.hash_value hash32 hash16 v)
      × (Inet6.equal a b ≡ true
          → Inet6.hash_value hash16 hash32 a ≡ Inet6.hash_value hash16 hash32 b)
unfolding Inet4.equal Inet4.hash_value Inet6.hash_value
equal_addresses_hash_alike f g u v a b p q = (
  λ h.
      let same : Inet4.ip u ≡ Inet4.ip v = ground (arith, h, ==_iff (Inet4.ip u) (Inet4.ip v)) in
      let port : Inet4.port u ≡ Inet4.port v =
        ground (arith, h, ==_iff (Inet4.ip u) (Inet4.ip v), ==_iff (Inet4.port u) (Inet4.port v)) in
      λ i. bit_xor (g (same i)) (f (port i) * 2 % 2 ^ 64),
  λ h.
      let (e, k, s) = (inet6-equal a b p q).0 h in
      λ i.
        bit_xor (bit_xor (Inet6.hash_bytes 0 (e i)) (f (k i) * 2 % 2 ^ 64))
          (g (s i) * 2 ^ 2 % 2 ^ 64),
)
