-- ===== src/SmallVector/Slots.antt =====
-- The loops over the slots of include/socketpp/socket/options.hpp, on a buffer that holds a list.
use socketpp.Base.{
  ℕ, zero, suc, ◌+◌, ◌≤◌, ◌<◌, ◌≡◌, ◌∙◌, refl, sym, ap, none, some, List, [], ◌∷◌, ◌++◌, length,
  take, drop, get_elem?, get_elem?-none, get_elem?-some, ltb, ==_iff, if◌then◌else◌, arith,
}
use socketpp.SmallVector.{
  Buffer, construct, destroy, copy_slots, move_slots, destroy_slots, spill_slots, read_slots,
  put_slot,
}

module _ {ℓ} {A : Type ℓ} where
  -- The slots hold the first `i` elements; all elements but these.
  abbrev pub upto : ℕ → List A → Buffer A
  upto i xs = λ j. if ltb j i then get_elem? xs j else none

  abbrev pub beyond : ℕ → List A → Buffer A
  beyond i xs = λ j. if ltb j i then none else get_elem? xs j

  abbrev pub Same : Buffer A → Buffer A → Type ℓ
  Same b c = (j : ℕ) → b j ≡ c j

  upto-all : (xs : List A) (j : ℕ) → upto (length xs) xs j ≡ get_elem? xs j
  upto-all xs j = ground (arith, get_elem?-none xs j)

  beyond-all : (xs : List A) (j : ℕ) → beyond (length xs) xs j ≡ none
  beyond-all xs j = ground (arith, get_elem?-none xs j)

  construct-lem :
      (n i : ℕ) (v : A) (xs : List A) (b : Buffer A)
      → i < n
      → get_elem? xs i ≡ some v
      → Same b (upto i xs)
      → (construct n i v b ≡ some (put_slot n i (some v) b))
        × Same (put_slot n i (some v) b) (upto (suc i) xs)
  unfolding construct
  construct-lem n i v xs b h e s = (ground (arith, s i), λ j. ground (arith, s j, e, ==_iff j i))

  destroy-lem :
      (n i : ℕ) (v : A) (xs : List A) (b : Buffer A)
      → get_elem? xs i ≡ some v
      → Same b (beyond i xs)
      → (b i ≡ some v)
        × (destroy n i b ≡ some (put_slot n i none b))
        × Same (put_slot n i none b) (beyond (suc i) xs)
  unfolding destroy
  destroy-lem n i v xs b e s =
      (ground (arith, s i, e), ground (arith, s i, e), λ j. ground (arith, s j, e, ==_iff j i))

  pub copy_slots_lem :
      (n k i : ℕ) (xs : List A) (from to : Buffer A)
      → i + k ≡ length xs
      → length xs ≤ n
      → Same from (get_elem? xs)
      → Same to (upto i xs)
      → (b : Buffer A) × (copy_slots n k i from to ≡ some b) × Same b (get_elem? xs)
  unfolding copy_slots
  copy_slots_lem n zero i xs from to e l f t = (to, refl, λ j. ground (arith, t j, upto-all xs j))
  copy_slots_lem n (suc k) i xs from to e l f t =
      let (v, at) = get_elem?-some xs i (omega (arith, e)) in
      let (made, t') = construct-lem n i v xs to (omega (arith, e, l)) at t in
      let (b, done, s) = copy_slots_lem n k (suc i) xs from _ (omega (arith, e)) l f t' in
      let here : from i ≡ some v = f i ∙ at in (b, rw here (rw made done), s)

  pub destroy_slots_lem :
      (n k i : ℕ) (xs : List A) (b : Buffer A)
      → i + k ≡ length xs
      → Same b (beyond i xs)
      → (c : Buffer A) × (destroy_slots n k i b ≡ some c) × Same c (λ j. none)
  unfolding destroy_slots
  destroy_slots_lem n zero i xs b e s = (b, refl, λ j. ground (arith, s j, beyond-all xs j))
  destroy_slots_lem n (suc k) i xs b e s =
      let (v, at) = get_elem?-some xs i (omega (arith, e)) in
      let (here, gone, s') = destroy-lem n i v xs b at s in
      let (c, done, all) = destroy_slots_lem n k (suc i) xs _ (omega (arith, e)) s' in
      (c, rw gone done, all)

  pub move_slots_lem :
      (n k i : ℕ) (xs : List A) (from to : Buffer A)
      → i + k ≡ length xs
      → length xs ≤ n
      → Same from (beyond i xs)
      → Same to (upto i xs)
      → (b c : Buffer A) × (move_slots n k i from to ≡ some (b, c))
        × Same b (λ j. none)
        × Same c (get_elem? xs)
  unfolding move_slots
  move_slots_lem n zero i xs from to e l f t = (
    from,
    to,
    refl,
    λ j. ground (arith, f j, beyond-all xs j),
    λ j. ground (arith, t j, upto-all xs j),
  )
  move_slots_lem n (suc k) i xs from to e l f t =
      let (v, at) = get_elem?-some xs i (omega (arith, e)) in
      let (made, t') = construct-lem n i v xs to (omega (arith, e, l)) at t in
      let (here, gone, f') = destroy-lem n i v xs from at f in
      let (b, c, done, p, q) = move_slots_lem n k (suc i) xs _ _ (omega (arith, e)) l f' t' in
      (b, c, rw here (rw made (rw gone done)), p, q)

  take-suc :
      (i : ℕ) (xs : List A) (v : A)
      → get_elem? xs i ≡ some v
      → take i xs ++ v ∷ [] ≡ take (suc i) xs
  take-suc zero [] v e = cc
  take-suc zero (x ∷ xs) v e = cc
  take-suc (suc i) [] v e = cc
  take-suc (suc i) (x ∷ xs) v e = ap (λ ys. x ∷ ys) (take-suc i xs v e)

  take-le : (i : ℕ) (xs : List A) → length xs ≤ i → take i xs ≡ xs
  take-le zero [] h = refl
  take-le zero (x ∷ xs) h = absurd (omega arith)
  take-le (suc i) [] h = refl
  take-le (suc i) (x ∷ xs) h = ap (λ ys. x ∷ ys) (take-le i xs (omega arith))

  pub spill_slots_lem :
      (n k i : ℕ) (xs : List A) (b : Buffer A)
      → i + k ≡ length xs
      → Same b (beyond i xs)
      → (c : Buffer A) × (spill_slots n k i b (take i xs) ≡ some (c, xs)) × Same c (λ j. none)
  unfolding spill_slots
  spill_slots_lem n zero i xs b e s = (
    b,
    ap (λ ys. some (b, ys)) (take-le i xs (omega (arith, e))),
    λ j. ground (arith, s j, beyond-all xs j),
  )
  spill_slots_lem n (suc k) i xs b e s =
      let (v, at) = get_elem?-some xs i (omega (arith, e)) in
      let (here, gone, s') = destroy-lem n i v xs b at s in
      let (c, done, all) = spill_slots_lem n k (suc i) xs _ (omega (arith, e)) s' in
      (c, rw here (rw gone (rw (take-suc i xs v at) done)), all)

  get_elem?-drop :
      (i : ℕ) (xs : List A) (v : A) → get_elem? xs i ≡ some v → drop i xs ≡ v ∷ drop (suc i) xs
  get_elem?-drop zero [] v e = cc
  get_elem?-drop zero (x ∷ xs) v e = cc
  get_elem?-drop (suc i) [] v e = cc
  get_elem?-drop (suc i) (x ∷ xs) v e = get_elem?-drop i xs v e

  drop-le : (i : ℕ) (xs : List A) → length xs ≤ i → drop i xs ≡ []
  drop-le zero [] h = refl
  drop-le zero (x ∷ xs) h = absurd (omega arith)
  drop-le (suc i) [] h = refl
  drop-le (suc i) (x ∷ xs) h = drop-le i xs (omega arith)

  pub read_slots_lem :
      (n k i : ℕ) (xs : List A) (b : Buffer A)
      → i + k ≡ length xs
      → Same b (get_elem? xs)
      → read_slots n k i b ≡ some (drop i xs)
  unfolding read_slots
  read_slots_lem n zero i xs b e s = ap some (sym (drop-le i xs (omega (arith, e))))
  read_slots_lem n (suc k) i xs b e s =
      let (v, at) = get_elem?-some xs i (omega (arith, e)) in
      let here : b i ≡ some v = s i ∙ at in
      rw here (
        rw (read_slots_lem n k (suc i) xs b (omega (arith, e)) s)
          (ap some (sym (get_elem?-drop i xs v at))))

  pub beyond_zero : (xs : List A) (b : Buffer A) → Same b (get_elem? xs) → Same b (beyond 0 xs)
  beyond_zero xs b s = λ j. ground (arith, s j)

  pub upto_zero : (xs : List A) (b : Buffer A) → Same b (λ j. none) → Same b (upto 0 xs)
  upto_zero xs b s = λ j. ground (arith, s j)
