-- ===== src/UnpackVec/InRange.antt =====
-- src/unpack_vec.rs: the values of a vector that `unpack_vec` returns have indices within it.
use geocode_csv.Base.{
  ℕ, ◌≡◌, ◌∙◌, ◌<◌, Option, none, some, List, [], ◌∷◌, length, set, replicate, leb, arith, All,
  All-set, All-replicate, length-set, length-replicate, Bool-cases, inl, inr,
}
use geocode_csv.Base.Outcome.{Ensures}
use geocode_csv.UnpackVec.{is_filled, unpack_loop, unpack_vec}

module _ {A : Type 0} (output_len : ℕ) (idx_fn : A → ℕ) where
  abbrev pub InRange : Option A → Type 0
  InRange none = Unit
  InRange (some v) = idx_fn v < output_len

  loop-InRange :
      (input : List A) (output : List (Option A))
      → length output ≡ output_len
      → All InRange output
      → Ensures
          (λ (out : List (Option A)). (length out ≡ output_len) × All InRange out)
          (unpack_loop output_len idx_fn input output)
  unfolding unpack_loop
  loop-InRange [] output l h = (l, h)
  loop-InRange (value ∷ input) output l h = elim (Bool-cases (leb output_len (idx_fn value))) [
    | inl large ↦ rw large tt
    | inr small ↦ elim (Bool-cases (is_filled output (idx_fn value))) [
      | inl filled ↦ rw (small, filled) tt
      | inr free ↦
          rw (small, free)
            (loop-InRange input (set output (idx_fn value) (some value))
              (length-set output (idx_fn value) (some value) ∙ l)
              (All-set InRange output (idx_fn value) (some value) h (ground (arith, small))))
    ]
  ]

  pub unpack_vec-InRange :
      (input : List A)
      → Ensures
          (λ (out : List (Option A)). (length out ≡ output_len) × All InRange out)
          (unpack_vec input output_len idx_fn)
  unfolding unpack_vec
  unpack_vec-InRange input =
      loop-InRange input (replicate output_len none) (length-replicate output_len none)
        (All-replicate InRange output_len none tt)
