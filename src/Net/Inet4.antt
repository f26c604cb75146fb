-- ===== src/Net/Inet4.antt =====
-- inet4_address: include/socketpp/net/inet4.hpp and src/net/inet4.cpp. The family is AF_INET in every
-- value, and is left out. `inet_pton`, `inet_ntop` and the hash functions of the standard library
-- are parameters.
use Prim.Native.Nat.{bit_xor}
use socketpp.Base.{
  ℕ, ◌*◌, ◌%◌, ◌^◌, Bool, ◌&&◌, not, Option, none, some, List, ◌∷◌, ◌++◌, ltb, ◌==◌, if◌then◌else◌,
}
use socketpp.Errors.{ErrorCode, generic_code}
use socketpp.Net.{Word16, Word32, htons, ntohs, htonl, ntohl, buffer}

pub record Inet4Address : Type 0 where
  pub addr : Word32
  pub port_net : Word16

-- `result<inet4_address>`.
pub data Result {ℓ} (A : Type ℓ) : Type ℓ where
  ok : A → Result A
  err : ErrorCode → Result A

unfoldable pub create : ℕ → ℕ → Inet4Address
create address port = record { addr = htonl address; port_net = htons port }

unfoldable pub any : ℕ → Inet4Address
unfolding create
any port = create 0 port

-- INADDR_LOOPBACK is 127.0.0.1.
unfoldable pub loopback : ℕ → Inet4Address
unfolding create
loopback port = create 0x7f00_0001 port

unfoldable pub ip : Inet4Address → ℕ
ip a = ntohl a.addr

unfoldable pub port : Inet4Address → ℕ
port a = ntohs a.port_net

unfoldable pub equal : Inet4Address → Inet4Address → Bool
unfolding ip port
equal l r = ip l == ip r && port l == port r

unfoldable pub less : Inet4Address → Inet4Address → Bool
unfolding ip port
less l r = if not (ip l == ip r) then ltb (ip l) (ip r) else ltb (port l) (port r)

parsed : ℕ → ℕ → Option Word32 → Result Inet4Address
parsed einval p none = err (generic_code einval)
parsed einval p (some w) = ok (record { addr = w; port_net = htons p })

-- `einval` is the number of `std::errc::invalid_argument`; INET_ADDRSTRLEN is 16.
unfoldable pub parse : (List ℕ → Option Word32) → ℕ → List ℕ → ℕ → Result Inet4Address
unfolding parsed buffer
parse inet_pton einval ip p = parsed einval p (inet_pton (buffer 16 ip))

-- `print` is `std::to_string`.
unfoldable pub to_string : (Word32 → List ℕ) → (ℕ → List ℕ) → Inet4Address → List ℕ
to_string inet_ntop print a = inet_ntop a.addr ++ b':' ∷ print (ntohs a.port_net)

unfoldable pub hash_value : (ℕ → ℕ) → (ℕ → ℕ) → Inet4Address → ℕ
unfolding ip port
hash_value hash32 hash16 a = bit_xor (hash32 (ip a)) (hash16 (port a) * 2 % 2 ^ 64)
