-- ===== src/Net.antt =====
-- src/net/inet4.cpp, src/net/inet6.cpp and their headers under include/socketpp/net: addresses as the
-- fields of `sockaddr_in` and `sockaddr_in6`. A field in network order is its bytes as they lie in
-- memory, so that nothing depends on the host's byte order.
pub mod Inet4
pub mod Inet6
pub mod SockAddress
pub mod RoundTrip
pub mod Memcmp
pub mod Order
pub mod Parsing
mod Examples
use Prim.Native.Nat.{compare, Ordering}
use socketpp.Base.{
  ℕ, zero, suc, ◌+◌, ◌-◌, ◌*◌, ◌/◌, ◌%◌, ◌^◌, ◌<◌, Bool, true, false, ◌&&◌, List, [], ◌∷◌, ◌++◌,
  length, take, ltb, ◌==◌, if◌then◌else◌,
}

-- Two and four bytes, the most significant first.
pub record Word16 : Type 0 where
  pub hi : ℕ
  pub lo : ℕ

pub record Word32 : Type 0 where
  pub b0 : ℕ
  pub b1 : ℕ
  pub b2 : ℕ
  pub b3 : ℕ

abbrev pub htons : ℕ → Word16
htons n = record { hi = n / 2 ^ 8; lo = n % 2 ^ 8 }

abbrev pub ntohs : Word16 → ℕ
ntohs w = w.hi * 2 ^ 8 + w.lo

abbrev pub htonl : ℕ → Word32
htonl n = record {
  b0 = n / 2 ^ 24;
  b1 = n / 2 ^ 16 % 2 ^ 8;
  b2 = n / 2 ^ 8 % 2 ^ 8;
  b3 = n % 2 ^ 8;
}

abbrev pub ntohl : Word32 → ℕ
ntohl w = w.b0 * 2 ^ 24 + w.b1 * 2 ^ 16 + w.b2 * 2 ^ 8 + w.b3

abbrev pub IsByte : ℕ → Type 0
IsByte n = n < 256

abbrev pub word16_eq : Word16 → Word16 → Bool
word16_eq v w = v.hi == w.hi && v.lo == w.lo

-- `memcmp` of two buffers of one length.
unfoldable pub memcmp : List ℕ → List ℕ → Ordering
memcmp [] ys = Ordering.eq
memcmp (x ∷ xs) [] = Ordering.eq
memcmp (x ∷ xs) (y ∷ ys) = elim (compare x y) [
  | Ordering.lt ↦ Ordering.lt
  | Ordering.gt ↦ Ordering.gt
  | Ordering.eq ↦ memcmp xs ys
]

abbrev pub is_lt : Ordering → Bool
is_lt Ordering.lt = true
is_lt _ = false

abbrev pub is_eq : Ordering → Bool
is_eq Ordering.eq = true
is_eq _ = false

-- The text up to its first NUL, as C reads it.
unfoldable pub c_string : List ℕ → List ℕ
c_string [] = []
c_string (c ∷ cs) = let rest = c_string cs in if c == 0 then [] else c ∷ rest

-- `char buf[n] = {}` with at most `n - 1` characters of the text copied into it.
unfoldable pub buffer : ℕ → List ℕ → List ℕ
unfolding c_string
buffer n ip = c_string (take (if ltb (length ip) (n - 1) then length ip else n - 1) ip)
