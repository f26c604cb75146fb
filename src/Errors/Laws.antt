-- ===== src/Errors/Laws.antt =====
-- What `normalize_error` of src/platform/error.cpp does to codes.
use socketpp.Base.{ℕ, ◌≡◌, ◌⊎◌, inl, inr, refl, arith, List, [], ◌∷◌, ◌==◌, Bool-cases}
use socketpp.Errors.{
  Errc, ErrorCode, socketpp_code, system_code, generic_code, Errno, labels, switch, normalize_error,
}

-- A `switch` gives a socketpp code, or leaves the code as it is, where no label fits.
switch-cases :
    (n : ℕ) (ls : List (ℕ × Errc))
    → ((k : Errc) × (switch n ls ≡ socketpp_code k)) ⊎ (switch n ls ≡ system_code n)
unfolding switch
switch-cases n [] = inr refl
switch-cases n ((l, c) ∷ ls) = elim (Bool-cases (n == l)) [
  | inl h ↦ inl (c, rw h)
  | inr h ↦ rw h (switch-cases n ls)
]

-- Normalising a code twice is normalising it once, and what comes out is a socketpp code or the code
-- that went in.
pub normalize_error_idempotent :
    (e : Errno) (c : ErrorCode)
    → (normalize_error e (normalize_error e c) ≡ normalize_error e c)
      × (((k : Errc) × (normalize_error e c ≡ socketpp_code k)) ⊎ (normalize_error e c ≡ c))
unfolding normalize_error
normalize_error_idempotent e (socketpp_code c) = (refl, inr refl)
normalize_error_idempotent e (generic_code n) = (refl, inr refl)
normalize_error_idempotent e (system_code n) = elim (Bool-cases (n == 0)) [
  | inl z ↦ rw z (refl, inr (ground arith))
  | inr p ↦ elim (switch-cases n (labels e)) [
    | inl (k, h) ↦ rw (p, h) (refl, inl (k, refl))
    | inr h ↦ rw (p, h) (rw (p, h) refl, inr refl)
  ]
]
