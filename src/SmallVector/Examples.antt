-- ===== src/SmallVector/Examples.antt =====
-- The theorem on the small vector of include/socketpp/socket/options.hpp at concrete vectors.
use socketpp.Base.{ℕ, ◌≡◌, refl, true, false, none, some, [], ◌∷◌, ◌++◌, get_elem?, arith}
use socketpp.SmallVector.{
  SmallVector, Buffer, empty, destructor, copy_construct, copy_assign, move_construct, move_assign,
  push_back, elements,
}
use socketpp.SmallVector.Slots.{Same}
use socketpp.SmallVector.Refine.{Holds, within, spilled, small_vector_is_a_list}

-- A buffer of two slots: one vector of two elements, which is full, and one of three.
abbrev full : SmallVector ℕ
full = record { storage = get_elem? (1 ∷ 2 ∷ []); heap = []; size = 2; on_heap = false }

abbrev large : SmallVector ℕ
large = record { storage = λ i. none; heap = 3 ∷ 4 ∷ 5 ∷ []; size = 3; on_heap = true }

full-Holds : Holds 2 full (1 ∷ 2 ∷ [])
full-Holds = within refl refl refl (omega arith) (λ j. refl)

large-Holds : Holds 2 large (3 ∷ 4 ∷ 5 ∷ [])
large-Holds = spilled refl refl refl (λ j. refl)

small_vector_is_a_list_example :
    (elements 2 full ≡ some (1 ∷ 2 ∷ []))
    × ((t : SmallVector ℕ) × (push_back 2 full 9 ≡ some t) × Holds 2 t ((1 ∷ 2 ∷ []) ++ 9 ∷ []))
    × ((t : SmallVector ℕ) × (copy_construct 2 full ≡ some t) × Holds 2 t (1 ∷ 2 ∷ []))
    × ((t : SmallVector ℕ) × (copy_assign 2 full large ≡ some t) × Holds 2 t (3 ∷ 4 ∷ 5 ∷ []))
    × ((t left : SmallVector ℕ) × (move_construct 2 full ≡ some (t, left))
        × Holds 2 t (1 ∷ 2 ∷ [])
        × Holds 2 left [])
    × ((t left : SmallVector ℕ) × (move_assign 2 full large ≡ some (t, left))
        × Holds 2 t (3 ∷ 4 ∷ 5 ∷ [])
        × Holds 2 left [])
    × ((b : Buffer ℕ) × (destructor 2 full ≡ some b) × Same b (λ j. none))
    × Holds {A = ℕ} 2 (empty 2) []
small_vector_is_a_list_example =
    small_vector_is_a_list 2 full large (1 ∷ 2 ∷ []) (3 ∷ 4 ∷ 5 ∷ []) 9 full-Holds large-Holds
