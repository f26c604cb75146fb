-- ===== src/Net/Inet6.antt =====
-- inet6_address: include/socketpp/net/inet6.hpp and src/net/inet6.cpp. The family is AF_INET6 in every
-- value, and is left out. `inet_pton`, `inet_ntop` and the hash functions of the standard library
-- are parameters.
use Prim.Native.Nat.{bit_and, bit_xor}
use socketpp.Base.{
  ℕ, zero, suc, ◌+◌, ◌*◌, ◌%◌, ◌^◌, Bool, true, false, ◌&&◌, not, Option, none, some, List, [], ◌∷◌,
  ◌++◌, replicate, ltb, ◌==◌, if◌then◌else◌,
}
use socketpp.Errors.{generic_code, socketpp_code, missing_scope_id, invalid_state}
use socketpp.Net.{Word16, Word32, htons, ntohs, ntohl, word16_eq, memcmp, is_lt, is_eq, buffer}
use socketpp.Net.Inet4
use socketpp.Net.Inet4.{Inet4Address, Result, ok, err}

-- `addr` has 16 bytes.
pub record Inet6Address : Type 0 where
  pub port_net : Word16
  pub flow : ℕ
  pub addr : List ℕ
  pub scope : ℕ

unfoldable pub create : List ℕ → ℕ → ℕ → ℕ → Inet6Address
create addr port scope_id flowinfo = record {
  port_net = htons port;
  flow = flowinfo;
  addr = addr;
  scope = scope_id;
}

unfoldable pub any : ℕ → Inet6Address
unfolding create
any port = create (replicate 16 0) port 0 0

unfoldable pub loopback : ℕ → Inet6Address
unfolding create
loopback port = create (replicate 15 0 ++ 1 ∷ []) port 0 0

unfoldable pub port : Inet6Address → ℕ
port a = ntohs a.port_net

-- `b[i]`.
abbrev pub byte : List ℕ → ℕ → ℕ
byte [] i = 0
byte (b ∷ bs) zero = b
byte (b ∷ bs) (suc i) = byte bs i

-- The loop over the first `n` bytes.
unfoldable pub leading_zeros : ℕ → List ℕ → Bool
leading_zeros zero bs = true
leading_zeros (suc n) [] = true
leading_zeros (suc n) (b ∷ bs) =
    let rest = leading_zeros n bs in if not (b == 0) then false else rest

unfoldable pub is_v4_mapped : Inet6Address → Bool
unfolding leading_zeros
is_v4_mapped a =
    if leading_zeros 10 a.addr then byte a.addr 10 == 0xff && byte a.addr 11 == 0xff else false

-- The four bytes at `b + 12`, in memory order.
abbrev pub last_word : List ℕ → Word32
last_word bs = record { b0 = byte bs 12; b1 = byte bs 13; b2 = byte bs 14; b3 = byte bs 15 }

unfoldable pub to_v4 : Inet6Address → Result Inet4Address
unfolding is_v4_mapped port Inet4.create
to_v4 a =
    if not (is_v4_mapped a)
    then err (socketpp_code invalid_state)
    else ok (Inet4.create (ntohl (last_word a.addr)) (port a))

unfoldable pub is_link_local : Inet6Address → Bool
is_link_local a = byte a.addr 0 == 0xfe && bit_and (byte a.addr 1) 0xc0 == 0x80

parsed : ℕ → ℕ → ℕ → Option (List ℕ) → Result Inet6Address
unfolding is_link_local create
parsed einval p scope_id none = err (generic_code einval)
parsed einval p scope_id (some bs) =
    let a = create bs p scope_id 0 in
    if is_link_local a && scope_id == 0 then err (socketpp_code missing_scope_id) else ok a

-- INET6_ADDRSTRLEN is 46.
unfoldable pub parse : (List ℕ → Option (List ℕ)) → ℕ → List ℕ → ℕ → ℕ → Result Inet6Address
unfolding parsed buffer
parse inet_pton einval ip p scope_id = parsed einval p scope_id (inet_pton (buffer 46 ip))

unfoldable pub to_string : (List ℕ → List ℕ) → (ℕ → List ℕ) → Inet6Address → List ℕ
to_string inet_ntop print a =
    b'[' ∷ inet_ntop a.addr
    ++ (if not (a.scope == 0) then b'%' ∷ print a.scope else [])
    ++ b']' ∷ b':' ∷ print (ntohs a.port_net)

-- Flow information is not compared.
unfoldable pub equal : Inet6Address → Inet6Address → Bool
unfolding memcmp
equal l r = is_eq (memcmp l.addr r.addr) && word16_eq l.port_net r.port_net && l.scope == r.scope

unfoldable pub less : Inet6Address → Inet6Address → Bool
unfolding memcmp
less l r =
    if not (is_eq (memcmp l.addr r.addr))
    then is_lt (memcmp l.addr r.addr)
    else if not (word16_eq l.port_net r.port_net)
    then ltb (ntohs l.port_net) (ntohs r.port_net)
    else ltb l.scope r.scope

unfoldable pub hash_bytes : ℕ → List ℕ → ℕ
hash_bytes h [] = h
hash_bytes h (b ∷ bs) = hash_bytes ((h * 131 + b) % 2 ^ 64) bs

unfoldable pub hash_value : (ℕ → ℕ) → (ℕ → ℕ) → Inet6Address → ℕ
unfolding hash_bytes port
hash_value hash16 hash32 a =
    bit_xor (bit_xor (hash_bytes 0 a.addr) (hash16 (port a) * 2 % 2 ^ 64))
      (hash32 a.scope * 2 ^ 2 % 2 ^ 64)
