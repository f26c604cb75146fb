-- ===== src/SmallVector.antt =====
-- detail::small_vector of include/socketpp/socket/options.hpp: a vector whose first elements stand in a
-- buffer of its own. `capacity` is the parameter `N`; a slot of the buffer is empty, or holds a live
-- object. `none` is what the language forbids, or what leaks: a read or the destruction of an empty
-- slot, a construction in a slot that is live or outside of the buffer.
pub mod Slots
pub mod Refine
mod Examples
use socketpp.Base.{
  ℕ, zero, suc, Bool, true, false, ◌&&◌, not, Option, none, some, List, [], ◌∷◌, ◌++◌, length, take,
  ltb, ◌==◌, if◌then◌else◌,
}

abbrev pub bind {ℓ κ} : {A : Type ℓ} {B : Type κ} → Option A → (A → Option B) → Option B
bind none f = none
bind (some a) f = f a

abbrev pub Buffer {ℓ} : Type ℓ → Type ℓ
Buffer A = ℕ → Option A

-- A moved-from `std::vector` is empty, as that of a move assignment is with the standard allocator.
pub record SmallVector {ℓ} (A : Type ℓ) : Type ℓ where
  pub storage : Buffer A
  pub heap : List A
  pub size : ℕ
  pub on_heap : Bool

module _ {ℓ} {A : Type ℓ} (capacity : ℕ) where
  abbrev pub put_slot : ℕ → Option A → Buffer A → Buffer A
  put_slot i o b = λ j. if j == i then o else b j

  -- `new (slot(i)) T(v)`.
  unfoldable pub construct : ℕ → A → Buffer A → Option (Buffer A)
  construct i v b =
      if ltb i capacity
      then elim (b i) [ none ↦ some (put_slot i (some v) b) | some old ↦ none ]
      else none

  -- `ref(i).~T()`.
  unfoldable pub destroy : ℕ → Buffer A → Option (Buffer A)
  destroy i b = elim (b i) [ none ↦ none | some old ↦ some (put_slot i none b) ]

  -- The loops over the slots: the argument is the number of rounds left, then the index.
  unfoldable pub copy_slots : ℕ → ℕ → Buffer A → Buffer A → Option (Buffer A)
  unfolding construct
  copy_slots zero i from to = some to
  copy_slots (suc k) i from to =
      bind (from i) (λ v. bind (construct i v to) (λ to'. copy_slots k (suc i) from to'))

  unfoldable pub move_slots : ℕ → ℕ → Buffer A → Buffer A → Option (Buffer A × Buffer A)
  unfolding construct destroy
  move_slots zero i from to = some (from, to)
  move_slots (suc k) i from to = bind (from i) (λ v.
      bind (construct i v to)
        (λ to'. bind (destroy i from) (λ from'. move_slots k (suc i) from' to')))

  unfoldable pub destroy_slots : ℕ → ℕ → Buffer A → Option (Buffer A)
  unfolding destroy
  destroy_slots zero i b = some b
  destroy_slots (suc k) i b = bind (destroy i b) (λ b'. destroy_slots k (suc i) b')

  unfoldable pub spill_slots : ℕ → ℕ → Buffer A → List A → Option (Buffer A × List A)
  unfolding destroy
  spill_slots zero i b heap = some (b, heap)
  spill_slots (suc k) i b heap =
      bind (b i) (λ v. bind (destroy i b) (λ b'. spill_slots k (suc i) b' (heap ++ v ∷ [])))

  unfoldable pub empty : SmallVector A
  empty = record { storage = λ i. none; heap = []; size = 0; on_heap = false }

  unfoldable pub destroy_inline : SmallVector A → Option (Buffer A)
  unfolding destroy_slots
  destroy_inline s = if s.on_heap then some s.storage else destroy_slots s.size 0 s.storage

  -- The destructor leaves the buffer; the heap is the vector's.
  unfoldable pub destructor : SmallVector A → Option (Buffer A)
  unfolding destroy_inline
  destructor s = destroy_inline s

  unfoldable pub clear : SmallVector A → Option (SmallVector A)
  unfolding destroy_inline
  clear s =
      if s.on_heap
      then some (record s { heap = []; size = 0; on_heap = false })
      else bind (destroy_inline s) (λ b. some (record s { storage = b; size = 0; on_heap = false }))

  -- What the copy constructor and the copy assignment do with a vector that is empty.
  unfoldable pub copy_into : SmallVector A → SmallVector A → Option (SmallVector A)
  unfolding copy_slots
  copy_into s o =
      let t = record s { size = o.size; on_heap = o.on_heap } in
      if o.on_heap
      then some (record t { heap = o.heap })
      else bind (copy_slots o.size 0 o.storage t.storage) (λ b. some (record t { storage = b }))

  unfoldable pub copy_construct : SmallVector A → Option (SmallVector A)
  unfolding copy_into empty
  copy_construct o = copy_into empty o

  -- From another vector; to itself nothing is done.
  unfoldable pub copy_assign : SmallVector A → SmallVector A → Option (SmallVector A)
  unfolding copy_into clear
  copy_assign s o = bind (clear s) (λ t. copy_into t o)

  -- The new vector, and what is left of the other.
  unfoldable pub move_into : SmallVector A → SmallVector A → Option (SmallVector A × SmallVector A)
  unfolding move_slots
  move_into s o =
      let t = record s { size = o.size; on_heap = o.on_heap } in
      let left = record o { size = 0; on_heap = false } in
      if o.on_heap
      then some (record t { heap = o.heap }, record left { heap = [] })
      else bind (move_slots o.size 0 o.storage t.storage)
          (λ (from, to). some (record t { storage = to }, record left { storage = from }))

  unfoldable pub move_construct : SmallVector A → Option (SmallVector A × SmallVector A)
  unfolding move_into empty
  move_construct o = move_into empty o

  unfoldable pub move_assign :
      SmallVector A → SmallVector A → Option (SmallVector A × SmallVector A)
  unfolding move_into clear
  move_assign s o = bind (clear s) (λ t. move_into t o)

  unfoldable pub spill : SmallVector A → Option (SmallVector A)
  unfolding spill_slots
  spill s =
      bind (spill_slots s.size 0 s.storage s.heap)
        (λ (b, heap). some (record s { storage = b; heap = heap; on_heap = true }))

  unfoldable pub push_heap : A → SmallVector A → Option (SmallVector A)
  push_heap v s = some (record s { heap = s.heap ++ v ∷ []; size = suc s.size })

  unfoldable pub push_back : SmallVector A → A → Option (SmallVector A)
  unfolding construct spill push_heap
  push_back s v =
      if not s.on_heap && ltb s.size capacity
      then bind (construct s.size v s.storage)
          (λ b. some (record s { storage = b; size = suc s.size }))
      else if s.on_heap
      then push_heap v s
      else bind (spill s) (push_heap v)

  -- The elements from `begin()` up to `end()`, of which every one must be live.
  unfoldable pub read_slots : ℕ → ℕ → Buffer A → Option (List A)
  read_slots zero i b = some []
  read_slots (suc k) i b = bind (b i) (λ v. bind (read_slots k (suc i) b) (λ vs. some (v ∷ vs)))

  unfoldable pub elements : SmallVector A → Option (List A)
  unfolding read_slots
  elements s =
      if s.on_heap
      then (if ltb (length s.heap) s.size then none else some (take s.size s.heap))
      else read_slots s.size 0 s.storage
