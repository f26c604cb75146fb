-- ===== src/Net/Memcmp.antt =====
-- `memcmp` orders buffers of one length as numbers are ordered.
use Prim.Native.Nat.{Ordering}
use socketpp.Base.{
  ℕ, ◌≡◌, ◌∙◌, refl, sym, ap, ◌⊎◌, inl, inr, Bool, true, false, List, [], ◌∷◌, ◌++◌, length,
  if◌then◌else◌, arith,
}
use socketpp.Net.{memcmp, is_lt, is_eq}

pub memcmp_self : (xs : List ℕ) → memcmp xs xs ≡ Ordering.eq
unfolding memcmp
memcmp_self [] = refl
memcmp_self (x ∷ xs) = ground (arith, memcmp_self xs)

pub memcmp-eq : (xs ys : List ℕ) → length xs ≡ length ys → memcmp xs ys ≡ Ordering.eq → xs ≡ ys
unfolding memcmp
memcmp-eq [] [] l h = refl
memcmp-eq [] (y ∷ ys) l h = absurd (omega arith)
memcmp-eq (x ∷ xs) [] l h = absurd (omega arith)
memcmp-eq (x ∷ xs) (y ∷ ys) l h = ground (arith, memcmp-eq xs ys)

memcmp-lt : (xs ys : List ℕ) → memcmp xs ys ≡ Ordering.lt → memcmp ys xs ≡ Ordering.gt
unfolding memcmp
memcmp-lt [] ys h = cc
memcmp-lt (x ∷ xs) [] h = cc
memcmp-lt (x ∷ xs) (y ∷ ys) h = ground (arith, memcmp-lt xs ys)

memcmp-gt : (xs ys : List ℕ) → memcmp xs ys ≡ Ordering.gt → memcmp ys xs ≡ Ordering.lt
unfolding memcmp
memcmp-gt [] ys h = cc
memcmp-gt (x ∷ xs) [] h = cc
memcmp-gt (x ∷ xs) (y ∷ ys) h = ground (arith, memcmp-gt xs ys)

memcmp_trans :
    (xs ys zs : List ℕ)
    → length xs ≡ length ys
    → memcmp xs ys ≡ Ordering.lt
    → memcmp ys zs ≡ Ordering.lt
    → memcmp xs zs ≡ Ordering.lt
unfolding memcmp
memcmp_trans [] ys zs l h k = cc
memcmp_trans (x ∷ xs) [] zs l h k = cc
memcmp_trans (x ∷ xs) (y ∷ ys) [] l h k = cc
memcmp_trans (x ∷ xs) (y ∷ ys) (z ∷ zs) l h k = ground (arith, memcmp_trans xs ys zs)

pub memcmp-append :
    (xs ys us vs : List ℕ)
    → length xs ≡ length ys
    → memcmp (xs ++ us) (ys ++ vs) ≡ (if is_eq (memcmp xs ys) then memcmp us vs else memcmp xs ys)
unfolding memcmp
memcmp-append [] [] us vs l = refl
memcmp-append [] (y ∷ ys) us vs l = absurd (omega arith)
memcmp-append (x ∷ xs) [] us vs l = absurd (omega arith)
memcmp-append (x ∷ xs) (y ∷ ys) us vs l = ground (arith, memcmp-append xs ys us vs)

-- A strict order, and an equality that says when neither of two values comes first: at `a`, `b`, `c`.
abbrev pub OrderLaws {ℓ} : {A : Type ℓ} (less equal : A → A → Bool) (a b c : A) → Type 0
OrderLaws less equal a b c =
    (less a a ≡ false)
    × (equal a a ≡ true)
    × (less a b ≡ true → less b c ≡ true → less a c ≡ true)
    × (((less a b ≡ true) × (equal a b ≡ false) × (less b a ≡ false))
        ⊎ ((less a b ≡ false) × (equal a b ≡ true) × (less b a ≡ false))
        ⊎ ((less a b ≡ false) × (equal a b ≡ false) × (less b a ≡ true)))

pub Ordering-cases : (o : Ordering) → (o ≡ Ordering.lt) ⊎ (o ≡ Ordering.eq) ⊎ (o ≡ Ordering.gt)
Ordering-cases Ordering.lt = inl refl
Ordering-cases Ordering.eq = inr (inl refl)
Ordering-cases Ordering.gt = inr (inr refl)

pub is_lt-lt : (o : Ordering) → is_lt o ≡ true → o ≡ Ordering.lt
is_lt-lt o h = ground arith

pub memcmp-OrderLaws :
    (xs ys zs : List ℕ)
    → length xs ≡ length ys
    → OrderLaws (λ u v. is_lt (memcmp u v)) (λ u v. is_eq (memcmp u v)) xs ys zs
memcmp-OrderLaws xs ys zs l = (
  ground (arith, memcmp_self xs),
  ground (arith, memcmp_self xs),
  λ h k. ap is_lt (memcmp_trans xs ys zs l (is_lt-lt (memcmp xs ys) h) (is_lt-lt (memcmp ys zs) k)),
  elim (Ordering-cases (memcmp xs ys)) [
    | inl a ↦ ground (arith, a, memcmp-lt xs ys a)
    | inr (inl e) ↦
        let back : memcmp ys xs ≡ Ordering.eq =
          ap (λ u. memcmp u xs) (sym (memcmp-eq xs ys l e)) ∙ memcmp_self xs in
        ground (arith, e, back)
    | inr (inr g) ↦ ground (arith, g, memcmp-gt xs ys g)
  ],
)
