-- ===== src/Net/Parsing.antt =====
-- Parsing and printing of addresses (src/net/inet4.cpp, src/net/inet6.cpp), with `inet_pton` and
-- `inet_ntop` as they are documented.
use socketpp.Base.{
  ℕ, zero, suc, ◌-◌, ◌≤◌, ◌≡◌, ◌≢◌, ◌∙◌, refl, sym, ap, inl, inr, Option, some, List, [], ◌∷◌, ◌++◌,
  length, length-append, append-nil, take, take-all, All, ltb, arith, Bool-cases,
}
use socketpp.Net.{Word32, IsByte, c_string, buffer}
use socketpp.Net.RoundTrip.{IsWord16, IsWord32, htons-ntohs}
use socketpp.Net.Inet4
use socketpp.Net.Inet4.{Inet4Address, ok, err}
use socketpp.Net.Inet6
use socketpp.Net.Inet6.{Inet6Address, byte}

take_short : (n : ℕ) (xs : List ℕ) → length xs ≤ n → take n xs ≡ xs
take_short zero [] h = refl
take_short zero (x ∷ xs) h = absurd (omega arith)
take_short (suc n) [] h = refl
take_short (suc n) (x ∷ xs) h = ap (λ ys. x ∷ ys) (take_short n xs (omega arith))

take-append : (xs ys : List ℕ) → take (length xs) (xs ++ ys) ≡ xs
take-append [] ys = refl
take-append (x ∷ xs) ys = ap (λ zs. x ∷ zs) (take-append xs ys)

c_string_whole : (xs : List ℕ) → All (λ c. c ≢ 0) xs → c_string xs ≡ xs
unfolding c_string
c_string_whole [] h = refl
c_string_whole (x ∷ xs) h = ground (arith, h.0, c_string_whole xs h.1)

-- A text that is as long as the buffer allows hides what follows it.
buffer_long : (n : ℕ) (s t : List ℕ) → n - 1 ≡ length s → buffer n (s ++ t) ≡ c_string s
unfolding buffer
buffer_long n s t h = elim (Bool-cases (ltb (length (s ++ t)) (n - 1))) [
  | inl short ↦ absurd (ground (arith, h, short, length-append s t))
  | inr long ↦ rw long (rw h (ap c_string (take-append s t)))
]

buffer-cut : (n : ℕ) (s t : List ℕ) → n - 1 ≡ length s → buffer n (s ++ t) ≡ buffer n s
buffer-cut n s t h = buffer_long n s t h ∙ sym (buffer_long n s [] h) ∙ ap (buffer n) (append-nil s)

buffer_short : (n : ℕ) (s : List ℕ) → length s ≤ n - 1 → All (λ c. c ≢ 0) s → buffer n s ≡ s
unfolding buffer
buffer_short n s h z = elim (Bool-cases (ltb (length s) (n - 1))) [
  | inl short ↦ rw short (ap c_string (take-all s) ∙ c_string_whole s z)
  | inr long ↦ rw long (ap c_string (take_short (n - 1) s h) ∙ c_string_whole s z)
]

-- What the code relies on of `inet_pton` and `inet_ntop`: what is printed is read back, is not longer
-- than INET_ADDRSTRLEN and INET6_ADDRSTRLEN allow, and has no NUL.
pub record Presentation : Type 0 where
  pub ntop4 : Word32 → List ℕ
  pub pton4 : List ℕ → Option Word32
  pub ntop6 : List ℕ → List ℕ
  pub pton6 : List ℕ → Option (List ℕ)
  pub reads4 : (w : Word32) → IsWord32 w → pton4 (ntop4 w) ≡ some w
  pub short4 : (w : Word32) → IsWord32 w → (length (ntop4 w) ≤ 15) × All (λ c. c ≢ 0) (ntop4 w)
  pub reads6 : (bs : List ℕ) → length bs ≡ 16 → All IsByte bs → pton6 (ntop6 bs) ≡ some bs
  pub short6 :
      (bs : List ℕ)
      → length bs ≡ 16
      → All IsByte bs
      → (length (ntop6 bs) ≤ 45) × All (λ c. c ≢ 0) (ntop6 bs)

-- The part of a printed IPv4 address before its `:` parses, with the port, to the address.
pub inet4_parses_back :
    (o : Presentation) (einval : ℕ) (print : ℕ → List ℕ) (a : Inet4Address)
    → IsWord32 a.addr
    → IsWord16 a.port_net
    → (t : List ℕ) × (Inet4.to_string o.ntop4 print a ≡ t ++ b':' ∷ print (Inet4.port a))
      × (Inet4.parse o.pton4 einval t (Inet4.port a) ≡ ok a)
unfolding Inet4.to_string Inet4.parse Inet4.port
inet4_parses_back o einval print a h k =
    let (s, z) = o.short4 a.addr h in
    (
      o.ntop4 a.addr,
      refl,
      rw (buffer_short 16 (o.ntop4 a.addr) s z, o.reads4 a.addr h)
          (λ i. ok (record { addr = a.addr; port_net = htons-ntohs a.port_net k i })),
    )

-- A text that is too long for the buffer is cut, and not refused: what follows the first 15
-- characters of an IPv4 address, or the first 45 of an IPv6 address, is not looked at.
pub overlong_text_is_cut :
    (pton4 : List ℕ → Option Word32) (pton6 : List ℕ → Option (List ℕ)) (einval p scope : ℕ)
    (s4 s6 t : List ℕ)
    → length s4 ≡ 15
    → length s6 ≡ 45
    → (Inet4.parse pton4 einval (s4 ++ t) p ≡ Inet4.parse pton4 einval s4 p)
      × (Inet6.parse pton6 einval (s6 ++ t) p scope ≡ Inet6.parse pton6 einval s6 p scope)
unfolding Inet4.parse Inet6.parse
overlong_text_is_cut pton4 pton6 einval p scope s4 s6 t h k = (
  rw (buffer-cut 16 s4 t (omega (arith, h))) refl,
  rw (buffer-cut 46 s6 t (omega (arith, k))) refl,
)
