-- ===== src/Net/SockAddress.antt =====
-- sock_address: include/socketpp/net/address.hpp and src/net/address.cpp. The layout of the platform's
-- `sockaddr` is a parameter where it is read.
use socketpp.Base.{
  ℕ, ◌-◌, Bool, false, not, Option, none, some, List, [], ◌++◌, length, take, replicate, ltb, ◌==◌,
  if◌then◌else◌,
}
use socketpp.Net.{memcmp, is_lt, is_eq}

-- The size of the storage.
abbrev pub capacity : ℕ
capacity = 128

pub record SockAddress : Type 0 where
  pub storage : List ℕ
  pub len : ℕ

-- The first bytes, and zeros up to the capacity.
abbrev pub zero_filled : List ℕ → List ℕ
zero_filled bytes = bytes ++ replicate (capacity - length bytes) 0

unfoldable pub any : SockAddress
any = record { storage = zero_filled []; len = capacity }

-- `addr` may be null, and points at `len` bytes at least otherwise.
unfoldable pub create : Option (List ℕ) → ℕ → SockAddress
create none len = record { storage = zero_filled []; len = len }
create (some addr) len = record {
  storage = zero_filled (take (if ltb len capacity then len else capacity) addr);
  len = len;
}

unfoldable pub set_size : SockAddress → ℕ → SockAddress
set_size a len = record a { len = len }

-- `none`: bytes outside of the storage are read.
unfoldable pub equal : SockAddress → SockAddress → Option Bool
unfolding memcmp
equal l r =
    if not (l.len == r.len)
    then some false
    else if ltb capacity l.len
    then none
    else some (is_eq (memcmp (take l.len l.storage) (take l.len r.storage)))

unfoldable pub less : SockAddress → SockAddress → Option Bool
unfolding memcmp
less l r =
    if not (l.len == r.len)
    then some (ltb l.len r.len)
    else if ltb capacity l.len
    then none
    else some (is_lt (memcmp (take l.len l.storage) (take l.len r.storage)))
