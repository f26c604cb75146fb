-- ===== src/Net/Examples.antt =====
-- The theorems on addresses (src/net/inet4.cpp, src/net/inet6.cpp) at concrete addresses.
use socketpp.Base.{
  ℕ, ◌+◌, ◌-◌, ◌*◌, ◌/◌, ◌%◌, ◌≡◌, ◌≢◌, ◌↔◌, refl, ap, Option, none, some, List, [], ◌∷◌, ◌++◌,
  length, replicate, All, arith,
}
use socketpp.Net.{Word32}
use socketpp.Net.RoundTrip.{mapped, to_v4_exact}
use socketpp.Net.Parsing.{Presentation}
use socketpp.Net.Inet4
use socketpp.Net.Inet4.{Inet4Address, ok}
use socketpp.Net.Inet6.{Inet6Address, to_v4}

-- 192.0.2.1:8080.
abbrev documentation : Inet4Address
documentation = record {
  addr = record { b0 = 192; b1 = 0; b2 = 2; b3 = 1 };
  port_net = record { hi = 31; lo = 144 };
}

-- [::ffff:192.0.2.1]:8080.
abbrev mapped_documentation : Inet6Address
mapped_documentation = record {
  port_net = record { hi = 31; lo = 144 };
  flow = 0;
  addr = mapped documentation.addr;
  scope = 0;
}

to_v4_exact_example : (to_v4 mapped_documentation ≡ ok documentation) ↔ (
    (mapped_documentation.addr ≡ mapped documentation.addr)
    × (mapped_documentation.port_net ≡ documentation.port_net))
to_v4_exact_example =
    to_v4_exact mapped_documentation documentation refl (omega arith) (omega arith)

-- 198.51.100.7:53.
abbrev first : Inet4Address
first = Inet4.create 0xc633_6407 53

-- [fe80::1%2]:80 and the same with another flow label.
abbrev scoped : ℕ → Inet6Address
scoped flow = record {
  port_net = record { hi = 0; lo = 80 };
  flow = flow;
  addr = 0xfe ∷ 0x80 ∷ replicate 13 0 ++ 1 ∷ [];
  scope = 2;
}

-- A presentation of bytes: two characters for each, from `0` up to `?`.
abbrev print_bytes : List ℕ → List ℕ
print_bytes [] = []
print_bytes (b ∷ bs) = (b'0' + b / 16) ∷ (b'0' + b % 16) ∷ print_bytes bs

abbrev read_bytes : List ℕ → List ℕ
read_bytes (c ∷ d ∷ s) = ((c - b'0') * 16 + (d - b'0')) ∷ read_bytes s
read_bytes _ = []

read-print : (bs : List ℕ) → read_bytes (print_bytes bs) ≡ bs
read-print [] = refl
read-print (b ∷ bs) =
    let e : (b'0' + b / 16 - b'0') * 16 + (b'0' + b % 16 - b'0') ≡ b = omega arith in
    λ i. e i ∷ read-print bs i

print_bytes-length : (bs : List ℕ) → length (print_bytes bs) ≡ length bs * 2
print_bytes-length [] = refl
print_bytes-length (b ∷ bs) = omega (arith, print_bytes-length bs)

print_bytes-no_nul : (bs : List ℕ) → All (λ c. c ≢ 0) (print_bytes bs)
print_bytes-no_nul [] = tt
print_bytes-no_nul (b ∷ bs) = (omega arith, (omega arith, print_bytes-no_nul bs))

abbrev word_bytes : Word32 → List ℕ
word_bytes w = w.b0 ∷ w.b1 ∷ w.b2 ∷ w.b3 ∷ []

abbrev read_word : List ℕ → Option Word32
read_word (b0 ∷ b1 ∷ b2 ∷ b3 ∷ []) = some (record { b0 = b0; b1 = b1; b2 = b2; b3 = b3 })
read_word _ = none

abbrev bytewise : Presentation
bytewise = record {
  ntop4 = λ w. print_bytes (word_bytes w);
  pton4 = λ s. read_word (read_bytes s);
  ntop6 = print_bytes;
  pton6 = λ s. some (read_bytes s);
  reads4 = λ w _. ap read_word (read-print (word_bytes w));
  short4 = λ w _. (omega arith, print_bytes-no_nul (word_bytes w));
  reads6 = λ bs _ _. ap some (read-print bs);
  short6 = λ bs l _. (omega (arith, l, print_bytes-length bs), print_bytes-no_nul bs);
}
