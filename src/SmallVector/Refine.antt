-- ===== src/SmallVector/Refine.antt =====
-- The vector of include/socketpp/socket/options.hpp behaves as the list of its elements.
use socketpp.Base.{
  ℕ, suc, ◌≤◌, ◌≡◌, ◌∙◌, refl, sym, ap, inl, inr, true, false, none, some, List, [], ◌∷◌, ◌++◌,
  length, length-append, take-all, get_elem?, get_elem?-none, get_elem?-snoc, ltb, Bool-cases,
  ltb→lt, arith,
}
use socketpp.SmallVector.{
  SmallVector, Buffer, bind, spill_slots, empty, put_slot, clear, destructor, copy_into, move_into,
  copy_construct, copy_assign, move_construct, move_assign, spill, push_heap, push_back, elements,
}
use socketpp.SmallVector.Slots.{
  Same, copy_slots_lem, destroy_slots_lem, move_slots_lem, spill_slots_lem, read_slots_lem,
  beyond_zero, upto_zero,
}

module _ {ℓ} {A : Type ℓ} where
  -- The vector holds a list in its buffer, or on the heap, with no live object in the buffer.
  pub data Holds (n : ℕ) (s : SmallVector A) (xs : List A) : Type ℓ where
    within :
        s.on_heap ≡ false
        → s.heap ≡ []
        → s.size ≡ length xs
        → length xs ≤ n
        → Same s.storage (get_elem? xs)
        → Holds n s xs
    spilled :
        s.on_heap ≡ true
        → s.heap ≡ xs
        → s.size ≡ length xs
        → Same s.storage (λ j. none)
        → Holds n s xs

  empty-Holds : (n : ℕ) → Holds n (empty n) []
  unfolding empty
  empty-Holds n = within refl refl refl (omega arith) (λ j. refl)

  elements_lem : (n : ℕ) (s : SmallVector A) (xs : List A) → Holds n s xs → elements n s ≡ some xs
  unfolding elements
  elements_lem n s xs (within p h z l b) =
      rw p (read_slots_lem n s.size 0 xs s.storage (omega (arith, z)) b)
  elements_lem n s xs (spilled p h z b) = rw p (ground (arith, h, z, take-all xs))

  clear-Holds :
      (n : ℕ) (s : SmallVector A) (xs : List A)
      → Holds n s xs
      → (t : SmallVector A) × (clear n s ≡ some t) × Holds n t [] × (t.on_heap ≡ false)
  unfolding clear
  clear-Holds n s xs (within p h z l b) =
      let (c, done, all) =
        destroy_slots_lem n s.size 0 xs s.storage (omega (arith, z)) (beyond_zero xs s.storage b) in
      (
        record s { storage = c; size = 0; on_heap = false },
        rw p (rw done refl),
        within refl h refl (omega arith) all,
        refl,
      )
  clear-Holds n s xs (spilled p h z b) = (
    record s { heap = []; size = 0; on_heap = false },
    rw p refl,
    within refl refl refl (omega arith) b,
    refl,
  )

  -- The destructor leaves no live object in the buffer.
  destructor_lem :
      (n : ℕ) (s : SmallVector A) (xs : List A)
      → Holds n s xs
      → (b : Buffer A) × (destructor n s ≡ some b) × Same b (λ j. none)
  unfolding destructor
  destructor_lem n s xs (within p h z l b) =
      let (c, done, all) =
        destroy_slots_lem n s.size 0 xs s.storage (omega (arith, z)) (beyond_zero xs s.storage b) in
      (c, rw p done, all)
  destructor_lem n s xs (spilled p h z b) = (s.storage, rw p refl, b)

  -- What copying and moving do on an empty vector.
  copy_into-Holds :
      (n : ℕ) (s o : SmallVector A) (ys : List A)
      → Holds n s []
      → s.on_heap ≡ false
      → Holds n o ys
      → (t : SmallVector A) × (copy_into n s o ≡ some t) × Holds n t ys
  unfolding copy_into
  copy_into-Holds n s o ys (spilled q _ _ _) e _ = let no : true ≡ false = sym q ∙ e in cc
  copy_into-Holds n s o ys (within q g y m c) e (within p h z l b) =
      let (d, done, all) =
        copy_slots_lem n o.size 0 ys o.storage s.storage (omega (arith, z)) l b
          (upto_zero ys s.storage c) in
      (
        record s { storage = d; size = o.size; on_heap = o.on_heap },
        rw p (rw done refl),
        within p g z l all,
      )
  copy_into-Holds n s o ys (within q g y m c) e (spilled p h z b) =
      (record s { heap = o.heap; size = o.size; on_heap = o.on_heap }, rw p refl, spilled p h z c)

  move_into-Holds :
      (n : ℕ) (s o : SmallVector A) (ys : List A)
      → Holds n s []
      → s.on_heap ≡ false
      → Holds n o ys
      → (t left : SmallVector A) × (move_into n s o ≡ some (t, left))
        × Holds n t ys
        × Holds n left []
  unfolding move_into
  move_into-Holds n s o ys (spilled q _ _ _) e _ = let no : true ≡ false = sym q ∙ e in cc
  move_into-Holds n s o ys (within q g y m c) e (within p h z l b) =
      let (f, d, done, gone, all) =
        move_slots_lem n o.size 0 ys o.storage s.storage (omega (arith, z)) l
          (beyond_zero ys o.storage b) (upto_zero ys s.storage c) in
      (
        record s { storage = d; size = o.size; on_heap = o.on_heap },
        record o { storage = f; size = 0; on_heap = false },
        rw p (rw done refl),
        within p g z l all,
        within refl h refl (omega arith) gone,
      )
  move_into-Holds n s o ys (within q g y m c) e (spilled p h z b) = (
    record s { heap = o.heap; size = o.size; on_heap = o.on_heap },
    record o { heap = []; size = 0; on_heap = false },
    rw p refl,
    spilled p h z c,
    within refl refl refl (omega arith) b,
  )

  push_heap-Holds :
      (n : ℕ) (s : SmallVector A) (xs : List A) (v : A)
      → s.on_heap ≡ true
      → s.heap ≡ xs
      → s.size ≡ length xs
      → Same s.storage (λ j. none)
      → (t : SmallVector A) × (push_heap n v s ≡ some t) × Holds n t (xs ++ v ∷ [])
  unfolding push_heap
  push_heap-Holds n s xs v p h z b = (
    _,
    refl,
    spilled p (ap (λ ys. ys ++ v ∷ []) h) (omega (arith, z, length-append xs (v ∷ []))) b,
  )

  spill_lem :
      (n : ℕ) (s : SmallVector A) (xs : List A) (c : Buffer A)
      → spill_slots n s.size 0 s.storage [] ≡ some (c, xs)
      → s.heap ≡ []
      → spill n s ≡ some (record s { storage = c; heap = xs; on_heap = true })
  unfolding spill
  spill_lem n s xs c done h =
      let same : spill_slots n s.size 0 s.storage s.heap ≡ some (c, xs) =
        ap (spill_slots n s.size 0 s.storage) h ∙ done in
      rw same refl

  push_back_spilled :
      (n : ℕ) (s : SmallVector A) (v : A) → s.on_heap ≡ true → push_back n s v ≡ push_heap n v s
  unfolding push_back
  push_back_spilled n s v p = simp p

  push_back_full :
      (n : ℕ) (s : SmallVector A) (v : A)
      → s.on_heap ≡ false
      → ltb s.size n ≡ false
      → push_back n s v ≡ bind (spill n s) (push_heap n v)
  unfolding push_back
  push_back_full n s v p full = simp (p, full)

  push_back-Holds :
      (n : ℕ) (s : SmallVector A) (xs : List A) (v : A)
      → Holds n s xs
      → (t : SmallVector A) × (push_back n s v ≡ some t) × Holds n t (xs ++ v ∷ [])
  unfolding push_back
  push_back-Holds n s xs v (spilled p h z b) =
      let (t, done, holds) = push_heap-Holds n s xs v p h z b in
      (t, push_back_spilled n s v p ∙ done, holds)
  push_back-Holds n s xs v (within p h z l b) = elim (Bool-cases (ltb s.size n)) [
    | inl room ↦
        let free : s.storage s.size ≡ none =
          b s.size ∙ get_elem?-none xs s.size (omega (arith, z)) in
        (
          record s { storage = put_slot n s.size (some v) s.storage; size = suc s.size },
          rw p (rw room (rw free refl)),
          within p h (omega (arith, z, length-append xs (v ∷ [])))
              (omega (arith, z, ltb→lt s.size n room, length-append xs (v ∷ [])))
              (λ j. rw z (rw (b j) (sym (get_elem?-snoc xs v j)))),
        )
    | inr full ↦
        let (c, done, all) =
          spill_slots_lem n s.size 0 xs s.storage (omega (arith, z)) (beyond_zero xs s.storage b) in
        let spill_done : spill n s ≡ some (record s { storage = c; heap = xs; on_heap = true }) =
          spill_lem n s xs c done h in
        let (t, pushed, holds) =
          push_heap-Holds n (record s { storage = c; heap = xs; on_heap = true }) xs v refl refl z
            all in
        (
          t,
          push_back_full n s v p full ∙ ap (λ o. bind o (push_heap n v)) spill_done ∙ pushed,
          holds,
        )
  ]

  -- The vector is the list of its elements, for any capacity of the buffer: no operation reads or
  -- destroys a slot that is empty, or constructs in one that is live or outside of the buffer; each
  -- gives the vector that holds the list, copies hold the list of their source, moves leave it empty,
  -- and the destructor leaves no live object.
  pub small_vector_is_a_list :
      (n : ℕ) (s o : SmallVector A) (xs ys : List A) (v : A)
      → Holds n s xs
      → Holds n o ys
      → (elements n s ≡ some xs)
        × ((t : SmallVector A) × (push_back n s v ≡ some t) × Holds n t (xs ++ v ∷ []))
        × ((t : SmallVector A) × (copy_construct n s ≡ some t) × Holds n t xs)
        × ((t : SmallVector A) × (copy_assign n s o ≡ some t) × Holds n t ys)
        × ((t left : SmallVector A) × (move_construct n s ≡ some (t, left))
            × Holds n t xs
            × Holds n left [])
        × ((t left : SmallVector A) × (move_assign n s o ≡ some (t, left))
            × Holds n t ys
            × Holds n left [])
        × ((b : Buffer A) × (destructor n s ≡ some b) × Same b (λ j. none))
        × Holds n (empty n) []
  unfolding copy_construct copy_assign move_construct move_assign empty
  small_vector_is_a_list n s o xs ys v h k =
      let (c, cleared, free, inline) = clear-Holds n s xs h in
      let (t, copied, ht) = copy_into-Holds n c o ys free inline k in
      let (u, left, moved, hu, hl) = move_into-Holds n c o ys free inline k in
      (
        elements_lem n s xs h,
        push_back-Holds n s xs v h,
        copy_into-Holds n (empty n) s xs (empty-Holds n) refl h,
        (t, ap (λ o'. bind o' (λ t'. copy_into n t' o)) cleared ∙ copied, ht),
        move_into-Holds n (empty n) s xs (empty-Holds n) refl h,
        (u, left, ap (λ o'. bind o' (λ t'. move_into n t' o)) cleared ∙ moved, hu, hl),
        destructor_lem n s xs h,
        empty-Holds n,
      )
