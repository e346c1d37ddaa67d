-- ===== src/UnpackVec/Laws.antt =====
-- src/unpack_vec.rs: what `unpack_vec` returns, and exactly when it succeeds.
use geocode_csv.Base.{
  ℕ, zero, suc, ◌≡◌, refl, ◌≢◌, ◌<◌, true, false, Option, none, some, List, [], ◌∷◌, length,
  get_elem?, set, replicate, leb, if◌then◌else◌, arith, All, length-set, length-replicate,
  get_elem?-set_self, get_elem?-set_ne, ==_iff, ◌==◌, ap, Bool-cases, inl, inr, ◌↔◌, ◌∙◌,
}
use geocode_csv.Base.Outcome.{ok}
use geocode_csv.UnpackVec.{is_filled, unpack_loop, unpack_vec}

module _ {ℓ} {A : Type ℓ} where
  is_filled-set :
      (out : List (Option A)) (i j : ℕ) (v : A)
      → is_filled out i ≡ true
      → is_filled (set out j (some v)) i ≡ true
  is_filled-set [] i j v h = h
  is_filled-set (o ∷ out) zero zero v h = refl
  is_filled-set (none ∷ out) zero (suc j) v h = h
  is_filled-set (some u ∷ out) zero (suc j) v h = h
  is_filled-set (none ∷ out) (suc i) zero v h = h
  is_filled-set (some u ∷ out) (suc i) zero v h = h
  is_filled-set (none ∷ out) (suc i) (suc j) v h = is_filled-set out i j v h
  is_filled-set (some u ∷ out) (suc i) (suc j) v h = is_filled-set out i j v h

  is_filled-set_self :
      (out : List (Option A)) (j : ℕ) (v : A)
      → j < length out
      → is_filled (set out j (some v)) j ≡ true
  is_filled-set_self [] j v h = elim h [ ]
  is_filled-set_self (o ∷ out) zero v h = refl
  is_filled-set_self (none ∷ out) (suc j) v h = is_filled-set_self out j v (omega arith)
  is_filled-set_self (some u ∷ out) (suc j) v h = is_filled-set_self out j v (omega arith)

  is_filled-set_ne :
      (out : List (Option A)) (i j : ℕ) (v : A)
      → i ≢ j
      → is_filled (set out j (some v)) i ≡ is_filled out i
  is_filled-set_ne [] i j v h = refl
  is_filled-set_ne (o ∷ out) zero zero v h = absurd (h refl)
  is_filled-set_ne (none ∷ out) zero (suc j) v h = refl
  is_filled-set_ne (some u ∷ out) zero (suc j) v h = refl
  is_filled-set_ne (none ∷ out) (suc i) zero v h = refl
  is_filled-set_ne (some u ∷ out) (suc i) zero v h = refl
  is_filled-set_ne (none ∷ out) (suc i) (suc j) v h = is_filled-set_ne out i j v (λ e. h (ap suc e))
  is_filled-set_ne (some u ∷ out) (suc i) (suc j) v h =
      is_filled-set_ne out i j v (λ e. h (ap suc e))

  is_filled-replicate : (n i : ℕ) (o : Option A) → o ≡ none → is_filled (replicate n o) i ≡ false
  is_filled-replicate zero i o h = refl
  is_filled-replicate (suc n) i (some v) h = cc
  is_filled-replicate (suc n) zero none h = refl
  is_filled-replicate (suc n) (suc i) none h = is_filled-replicate n i none h

  -- A slot after a value is written over it, if there is one.
  over : Option A → Option (Option A) → Option (Option A)
  over none slot = slot
  over (some v) slot = some (some v)

  over-none : (found : Option A) → over found (some none) ≡ some found
  unfolding over
  over-none none = refl
  over-none (some v) = refl

  get_elem?-replicate : (n i : ℕ) (a : A) → i < n → get_elem? (replicate n a) i ≡ some a
  get_elem?-replicate zero i a h = elim h [ ]
  get_elem?-replicate (suc n) zero a h = refl
  get_elem?-replicate (suc n) (suc i) a h = get_elem?-replicate n i a (omega arith)

module _ {ℓ} {A : Type ℓ} (n : ℕ) (idx_fn : A → ℕ) where
  -- The first value with an index.
  abbrev pub find_index : List A → ℕ → Option A
  find_index [] i = none
  find_index (v ∷ vs) i = if idx_fn v == i then some v else find_index vs i

  -- The indices are below `n`, and no index is used twice.
  abbrev pub IsUnpackable : List A → Type 0
  IsUnpackable [] = Unit
  IsUnpackable (v ∷ vs) = (idx_fn v < n) × All (λ u. idx_fn u ≢ idx_fn v) vs × IsUnpackable vs

  -- A slot that is filled is not an index of the values that are left.
  loop-filled :
      (vs : List A) (out : List (Option A)) (i : ℕ) {out' : List (Option A)}
      → length out ≡ n
      → unpack_loop n idx_fn vs out ≡ ok out'
      → is_filled out i ≡ true
      → All (λ u. idx_fn u ≢ i) vs
  unfolding unpack_loop
  loop-filled [] out i l h f = tt
  loop-filled (v ∷ vs) out i l h f = elim (Bool-cases (leb n (idx_fn v))) [
    | inl large ↦ absurd (cc (rw large at h))
    | inr small ↦ elim (Bool-cases (is_filled out (idx_fn v))) [
      | inl twice ↦ absurd (cc (rw (small, twice) at h))
      | inr fresh ↦ (
        λ e. ground (arith, ap (is_filled out) e),
        loop-filled vs (set out (idx_fn v) (some v)) i (rw length-set l) (rw (small, fresh) at h)
            (is_filled-set out i (idx_fn v) v f),
      )
    ]
  ]

  find_index-fresh : (vs : List A) (i : ℕ) → All (λ u. idx_fn u ≢ i) vs → find_index vs i ≡ none
  find_index-fresh [] i h = refl
  find_index-fresh (v ∷ vs) i (h, hs) = ground (arith, find_index-fresh vs i hs)

  -- What the loop leaves at an index: a value that was left to unpack, or what was there.
  loop-get_elem? :
      (vs : List A) (out : List (Option A)) (i : ℕ) {out' : List (Option A)}
      → length out ≡ n
      → unpack_loop n idx_fn vs out ≡ ok out'
      → i < n
      → (length out' ≡ n) × (get_elem? out' i ≡ over (find_index vs i) (get_elem? out i))
  unfolding unpack_loop over
  loop-get_elem? [] out i l h b = ground arith
  loop-get_elem? (v ∷ vs) out i l h b = elim (Bool-cases (leb n (idx_fn v))) [
    | inl large ↦ absurd (cc (rw large at h))
    | inr small ↦ elim (Bool-cases (is_filled out (idx_fn v))) [
      | inl twice ↦ absurd (cc (rw (small, twice) at h))
      | inr fresh ↦
          let l' : length (set out (idx_fn v) (some v)) ≡ n = rw length-set l in
          let h' : unpack_loop n idx_fn vs (set out (idx_fn v) (some v)) ≡ ok _ =
            rw (small, fresh) at h in
          let ih = loop-get_elem? vs (set out (idx_fn v) (some v)) i l' h' b in
          let filled = is_filled-set_self out (idx_fn v) v (ground arith) in
          let gone =
            find_index-fresh vs (idx_fn v)
              (loop-filled vs (set out (idx_fn v) (some v)) (idx_fn v) l' h' filled) in
          elim (Bool-cases (idx_fn v == i)) [
            | inl same ↦ (
              ih.0,
              ground (
                arith,
                gone,
                get_elem?-set_self out (idx_fn v) (some v),
                ap (get_elem? (set out (idx_fn v) (some v))) ((==_iff (idx_fn v) i).0 same),
                ap (find_index vs) ((==_iff (idx_fn v) i).0 same),
              ),
            )
            | inr other ↦ (
              ih.0,
              rw other (
                  rw (get_elem?-set_ne out (idx_fn v) i (some v) (λ e. ground (arith, e))) at
                    (ih.1)),
            )
          ]
    ]
  ]

  loop_total :
      (vs : List A) (out : List (Option A))
      → length out ≡ n
      → IsUnpackable vs
      → All (λ u. is_filled out (idx_fn u) ≡ false) vs
      → (out' : List (Option A)) × (unpack_loop n idx_fn vs out ≡ ok out')
  unfolding unpack_loop
  loop_total [] out l u f = (out, refl)
  loop_total (v ∷ vs) out l (b, others, u) (f, fs) =
      let small : leb n (idx_fn v) ≡ false = ground arith in
      rw (small, f)
        (loop_total vs (set out (idx_fn v) (some v)) (rw length-set l) u (still_free vs others fs))
    where
      still_free :
          (us : List A)
          → All (λ u. idx_fn u ≢ idx_fn v) us
          → All (λ u. is_filled out (idx_fn u) ≡ false) us
          → All (λ u. is_filled (set out (idx_fn v) (some v)) (idx_fn u) ≡ false) us
      still_free [] o g = tt
      still_free (u ∷ us) (o, os) (g, gs) =
          (is_filled-set_ne out (idx_fn u) (idx_fn v) v o ∙ g, still_free us os gs)

  loop-IsUnpackable :
      (vs : List A) (out : List (Option A)) {out' : List (Option A)}
      → length out ≡ n
      → unpack_loop n idx_fn vs out ≡ ok out'
      → IsUnpackable vs
  unfolding unpack_loop
  loop-IsUnpackable [] out l h = tt
  loop-IsUnpackable (v ∷ vs) out l h = elim (Bool-cases (leb n (idx_fn v))) [
    | inl large ↦ absurd (cc (rw large at h))
    | inr small ↦ elim (Bool-cases (is_filled out (idx_fn v))) [
      | inl twice ↦ absurd (cc (rw (small, twice) at h))
      | inr fresh ↦
          let l' : length (set out (idx_fn v) (some v)) ≡ n = rw length-set l in
          let h' : unpack_loop n idx_fn vs (set out (idx_fn v) (some v)) ≡ ok _ =
            rw (small, fresh) at h in
          (
            ground arith,
            loop-filled vs (set out (idx_fn v) (some v)) (idx_fn v) l' h'
                (is_filled-set_self out (idx_fn v) v (ground arith)),
            loop-IsUnpackable vs (set out (idx_fn v) (some v)) l' h',
          )
    ]
  ]

  loop-length :
      (vs : List A) (out : List (Option A)) {out' : List (Option A)}
      → length out ≡ n
      → unpack_loop n idx_fn vs out ≡ ok out'
      → length out' ≡ n
  unfolding unpack_loop
  loop-length [] out l h = ground arith
  loop-length (v ∷ vs) out l h =
      loop-length vs (set out (idx_fn v) (some v)) (rw length-set l) (ground arith)

module _ {ℓ} {A : Type ℓ} where
  free_slots :
      (n : ℕ) (idx_fn : A → ℕ) (vs : List A)
      → All (λ u. is_filled (replicate {A = Option A} n none) (idx_fn u) ≡ false) vs
  free_slots n idx_fn [] = tt
  free_slots n idx_fn (v ∷ vs) =
      (is_filled-replicate n (idx_fn v) none refl, free_slots n idx_fn vs)

  -- `unpack_vec` returns a vector exactly when the index of each value is below `output_len` and no
  -- two values have the same index.
  pub unpack_vec-ok_iff :
      (input : List A) (n : ℕ) (idx_fn : A → ℕ)
      → IsUnpackable n idx_fn input
        ↔ ((out : List (Option A)) × (unpack_vec input n idx_fn ≡ ok out))
  unfolding unpack_vec
  unpack_vec-ok_iff input n idx_fn = (
    λ u. loop_total n idx_fn input _ (length-replicate n none) u (free_slots n idx_fn input),
    λ p. loop-IsUnpackable n idx_fn input _ (length-replicate n none) p.1,
  )

  -- A vector that `unpack_vec` returns has `output_len` slots, and each slot holds the first input
  -- value whose index it is, or `None` if there is no such value.
  pub unpack_vec-get_elem? :
      (input : List A) (n : ℕ) (idx_fn : A → ℕ) {out : List (Option A)}
      → unpack_vec input n idx_fn ≡ ok out
      → (length out ≡ n) × ((i : ℕ) → i < n → get_elem? out i ≡ some (find_index n idx_fn input i))
  unfolding unpack_vec
  unpack_vec-get_elem? input n idx_fn h = (
    loop-length n idx_fn input _ (length-replicate n none) h,
    λ i b.
        (loop-get_elem? n idx_fn input _ i (length-replicate n none) h b).1
        ∙ (rw (get_elem?-replicate {A = Option A} n i none b)
            (over-none (find_index n idx_fn input i))),
  )
