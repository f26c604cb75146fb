-- ===== src/Options/Kinds.antt =====
-- Which requests of src/socket/options.cpp are multicast memberships.
use socketpp.Base.{
  ℕ, Bool, true, false, List, [], ◌∷◌, ◌≡◌, refl, Bool-cases, inl, inr, ltb, length, take, drop,
  if◌then◌else◌,
}
use socketpp.Options.{
  Platform, linux, macos, windows, SocketOptionId, OptionEntry, Layout, Family, inet, inet6,
  other_family, Setting, ip_membership, ipv6_membership, read_int,
}
use socketpp.Options.Requests.{
  Request, call, remember_idle, remember_interval, refuse, is_multicast_entry, join_request,
  apply_multicast, apply_linger, apply_multicast_if, apply_multicast_if_v6, addr_block, switch,
  request,
}

abbrev pub is_membership : Setting → Bool
is_membership (ip_membership join group iface) = true
is_membership (ipv6_membership join group iface) = true
is_membership _ = false

abbrev pub filter {ℓ} : {A : Type ℓ} → (A → Bool) → List A → List A
filter f [] = []
filter f (x ∷ xs) = if f x then x ∷ filter f xs else filter f xs

-- What an entry of the kind asks for.
abbrev pub Kind : Bool → Request → Type 0
Kind b (call c) = is_membership c ≡ b
Kind b (remember_idle v) = b ≡ false
Kind b (remember_interval v) = b ≡ false
Kind b (refuse e) = b ≡ b

join_request-Kind :
    (l : Layout) (join : Bool) (f : Family) (g i : List ℕ) → Kind true (join_request l join f g i)
unfolding join_request
join_request-Kind l join inet g i = refl
join_request-Kind l join inet6 g i = refl
join_request-Kind l join other_family g i = refl

pub apply_multicast-Kind :
    (l : Layout) (join : Bool) (d : List ℕ) → Kind true (apply_multicast l join d)
unfolding apply_multicast
apply_multicast-Kind l join d = elim (Bool-cases (ltb (length d) 264)) [
  | inl y ↦ rw y refl
  | inr n ↦
      rw n
        (join_request-Kind l join (l.sa_family (take 128 d)) (take 128 d) (take 128 (drop 132 d)))
]

if-Kind : (b : Bool) (r s : Request) → Kind false r → Kind false s → Kind false (if b then r else s)
if-Kind true r s h k = h
if-Kind false r s h k = k

apply_linger-Kind : (p : Platform) (d : List ℕ) → Kind false (apply_linger p d)
unfolding apply_linger
apply_linger-Kind p d = if-Kind (ltb (length d) 8) _ _ refl refl

apply_multicast_if-Kind : (l : Layout) (d : List ℕ) → Kind false (apply_multicast_if l d)
unfolding apply_multicast_if
apply_multicast_if-Kind l d = if-Kind (ltb (length d) addr_block) _ _ refl refl

apply_multicast_if_v6-Kind : (d : List ℕ) → Kind false (apply_multicast_if_v6 d)
unfolding apply_multicast_if_v6
apply_multicast_if_v6-Kind d = if-Kind (ltb (length d) 4) _ _ refl refl

switch-Kind :
    (p : Platform) (l : Layout) (id : SocketOptionId) (d : List ℕ) (v : ℕ)
    → Kind (is_multicast_entry id) (switch p l id d v)
unfolding switch is_multicast_entry
switch-Kind p l SocketOptionId.multicast_join d v = apply_multicast-Kind l true d
switch-Kind p l SocketOptionId.multicast_leave d v = apply_multicast-Kind l false d
switch-Kind p l SocketOptionId.linger_opt d v = apply_linger-Kind p d
switch-Kind p l SocketOptionId.multicast_if d v = apply_multicast_if-Kind l d
switch-Kind p l SocketOptionId.multicast_if_v6 d v = apply_multicast_if_v6-Kind d
switch-Kind linux l _ d v = refl
switch-Kind macos l _ d v = refl
switch-Kind windows l _ d v = refl

pub request-Kind :
    (p : Platform) (l : Layout) (e : OptionEntry) → Kind (is_multicast_entry e.id) (request p l e)
unfolding request
request-Kind p l e = elim (Bool-cases e.platform_available) [
  | inl y ↦ rw y (switch-Kind p l e.id e.bytes (read_int e.bytes))
  | inr n ↦ rw n refl
]
