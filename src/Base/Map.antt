-- ===== src/Base/Map.antt =====
-- `std::unordered_map`: an association list in no particular order, one entry for a key.
use Prim.Native.Nat.{suc, ◌+◌}
use mathlib.Core.Path.{◌≡◌, refl}
use mathlib.Core.Logic.{inl, inr}
use mathlib.Core.Option.{Option, none, some}
use mathlib.Core.List.{List, [], ◌∷◌}
use native.Mathlib.Omega.{arith}
use socketpp.Base.Tests.{Eq, if◌then◌else◌, is_some, Bool-cases}
use socketpp.Base.Lists.{length}

abbrev pub Map {ℓ κ} : Type ℓ → Type κ → Type (ℓ ⊔ κ)
Map K V = List (K × V)

module _ {ℓ κ} {K : Type ℓ} {V : Type κ} ⦃e : Eq K⦄ where
  unfoldable pub lookup : K → Map K V → Option V
  lookup k [] = none
  lookup k ((j, v) ∷ m) = if e.beq j k then some v else lookup k m

  unfoldable pub erase : K → Map K V → Map K V
  erase k [] = []
  erase k ((j, v) ∷ m) = let rest = erase k m in if e.beq j k then rest else (j, v) ∷ rest

  -- `m[k] = v` of the source.
  unfoldable pub insert : K → V → Map K V → Map K V
  unfolding erase
  insert k v m = (k, v) ∷ erase k m

  -- No key has two entries.
  abbrev pub Distinct : Map K V → Type κ
  Distinct [] = Unit
  Distinct ((k, v) ∷ m) = (lookup k m ≡ none) × Distinct m

  pub lookup-erase :
      (k j : K) (m : Map K V) → lookup j (erase k m) ≡ (if e.beq k j then none else lookup j m)
  unfolding lookup erase
  lookup-erase k j [] = ground arith
  lookup-erase k j ((i, v) ∷ m) =
      ground (arith, lookup-erase k j m, e.beq_iff i k, e.beq_iff i j, e.beq_iff k j)

  pub lookup-insert :
      (k j : K) (v : V) (m : Map K V)
      → lookup j (insert k v m) ≡ (if e.beq k j then some v else lookup j m)
  unfolding lookup insert
  lookup-insert k j v m = ground (arith, lookup-erase k j m)

  pub erase-Distinct : (k : K) (m : Map K V) → Distinct m → Distinct (erase k m)
  unfolding erase
  erase-Distinct k [] d = tt
  erase-Distinct k ((j, v) ∷ m) d = ground (arith, erase-Distinct k m d.1, lookup-erase k j m)

  pub insert-Distinct : (k : K) (v : V) (m : Map K V) → Distinct m → Distinct (insert k v m)
  unfolding insert
  insert-Distinct k v m d = ground (arith, erase-Distinct k m d, lookup-erase k k m, e.beq_iff k k)

  pub erase_missing : (k : K) (m : Map K V) → lookup k m ≡ none → erase k m ≡ m
  unfolding lookup erase
  erase_missing k [] h = refl
  erase_missing k ((j, v) ∷ m) h = ground (arith, erase_missing k m)

  pub length-erase :
      (k : K) (m : Map K V)
      → Distinct m
      → length (erase k m) + (if is_some (lookup k m) then 1 else 0) ≡ length m
  unfolding lookup erase
  length-erase k [] d = refl
  length-erase k ((j, v) ∷ m) d = elim (Bool-cases (e.beq j k)) [
    | inl hit ↦ ground (arith, e.beq_iff j k, erase_missing k m)
    | inr miss ↦ ground (arith, length-erase k m d.1)
  ]

  pub length-insert :
      (k : K) (v : V) (m : Map K V)
      → Distinct m
      → length (insert k v m) + (if is_some (lookup k m) then 1 else 0) ≡ suc (length m)
  unfolding insert
  length-insert k v m d = ground (arith, length-erase k m d)
