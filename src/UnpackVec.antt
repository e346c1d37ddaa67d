-- ===== src/UnpackVec.antt =====
-- src/unpack_vec.rs: put each value of a vector at the index that a function gives it.
pub mod Laws
pub mod InRange
use geocode_csv.Base.{
  ℕ, zero, suc, ◌≡◌, Bool, true, false, Option, none, some, List, [], ◌∷◌, length, get_elem?, set,
  replicate, leb, if◌then◌else◌,
}
use geocode_csv.Base.Outcome.{Outcome, ok, err, index_too_large, index_appears_twice}

-- `output[idx].is_some()`
abbrev pub is_filled {ℓ} : {A : Type ℓ} → List (Option A) → ℕ → Bool
is_filled [] i = false
is_filled (none ∷ out) zero = false
is_filled (some v ∷ out) zero = true
is_filled (o ∷ out) (suc i) = is_filled out i

module _ {ℓ} {A : Type ℓ} (output_len : ℕ) (idx_fn : A → ℕ) where
  -- The loop over the input, from the output so far.
  unpack_loop : List A → List (Option A) → Outcome (List (Option A))
  unpack_loop [] output = ok output
  unpack_loop (value ∷ input) output =
      let rest = unpack_loop input (set output (idx_fn value) (some value)) in
      if leb output_len (idx_fn value)
      then err (index_too_large output_len (idx_fn value))
      else if is_filled output (idx_fn value)
      then err (index_appears_twice (idx_fn value))
      else rest

unfoldable pub unpack_vec {ℓ} : {A : Type ℓ} → List A → ℕ → (A → ℕ) → Outcome (List (Option A))
unfolding unpack_loop
unpack_vec input output_len idx_fn = unpack_loop output_len idx_fn input (replicate output_len none)
