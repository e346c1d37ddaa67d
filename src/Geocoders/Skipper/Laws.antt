-- ===== src/Geocoders/Skipper/Laws.antt =====
-- src/geocoders/invalid_record_skipper.rs: every result stands at the address that it belongs to.
use geocode_csv.Base.{
  ◌≢◌, ℕ, suc, ◌≡◌, refl, Bool, true, false, Option, none, List, [], ◌∷◌, ◌++◌, length, replicate,
  set-append_length, ltb, lt→ltb, if◌then◌else◌, arith, All, append_assoc, length-append,
  length-replicate, Bool-cases, inl, inr, All-replicate, ap,
}
use geocode_csv.Base.Text.{is_empty}
use geocode_csv.Base.Outcome.{ok}
use geocode_csv.Base.Effect.Safe.{Safe-if, Safe-pure, Safe-bind, Safe-lift}
use geocode_csv.Addresses.Address.{Address, is_valid}
use geocode_csv.Geocoders.{Geocoder, Geocoded, Implements, Fits}
use geocode_csv.Geocoders.Skipper.{
  collect_valid, place_results, skip_invalid, invalid_record_skipper,
}

-- The valid addresses, in order.
abbrev pub valid_of : List Address → List Address
valid_of [] = []
valid_of (a ∷ xs) = if is_valid a then a ∷ valid_of xs else valid_of xs

-- One result for each address: the next one for a valid address, `None` for an invalid one.
abbrev pub next_for : {A : Type 0} → Bool → A → List A → A
next_for true d [] = d
next_for true d (r ∷ rs) = r
next_for false d rs = d

abbrev pub rest_for : {A : Type 0} → Bool → List A → List A
rest_for true [] = []
rest_for true (r ∷ rs) = rs
rest_for false rs = rs

abbrev pub spread : {A : Type 0} → A → List Address → List A → List A
spread d [] rs = []
spread d (a ∷ xs) rs = next_for (is_valid a) d rs ∷ spread d xs (rest_for (is_valid a) rs)

valid_of-collect_valid : (i : ℕ) (xs : List Address) → (collect_valid i xs).0 ≡ valid_of xs
unfolding collect_valid
valid_of-collect_valid i [] = refl
valid_of-collect_valid i (a ∷ xs) = ground (arith, valid_of-collect_valid (suc i) xs)

place_next :
    {A : Type 0} (r d : A) (rs : List A) (is : List ℕ) (done rest : List A) {i : ℕ}
    → length done ≡ i
    → place_results (r ∷ rs) (i ∷ is) (done ++ (d ∷ rest))
      ≡ place_results rs is ((done ++ (r ∷ [])) ++ rest)
unfolding place_results
place_next r d rs is done rest {i} l =
    let small : ltb i (length (done ++ (d ∷ rest))) ≡ true =
      lt→ltb i (length (done ++ (d ∷ rest))) (omega (arith, length-append done (d ∷ rest))) in
    rw (small, append_assoc, ← l, set-append_length) refl

-- One address, from what holds of the addresses after it.
module _ {A : Type 0} (d : A) (a : Address) (xs : List Address) (done : List A) (i : ℕ)
    (l : length done ≡ i) where
  abbrev Places : List A → List A → ℕ → Type 0
  Places rs front j =
      place_results rs (collect_valid j xs).1 (front ++ replicate (length xs) d)
      ≡ ok (front ++ spread d xs rs)

  place_invalid :
      (rs : List A)
      → is_valid a ≡ false
      → Places rs (done ++ (d ∷ [])) (suc i)
      → place_results rs (collect_valid i (a ∷ xs)).1 (done ++ (d ∷ replicate (length xs) d))
        ≡ ok (done ++ spread d (a ∷ xs) rs)
  unfolding collect_valid
  place_invalid rs invalid ih = rw invalid (
      cc (
        ih,
        append_assoc done (d ∷ []) (replicate (length xs) d),
        append_assoc done (d ∷ []) (spread d xs rs),
      ))

  place_valid :
      (r : A) (rs : List A)
      → is_valid a ≡ true
      → Places rs (done ++ (r ∷ [])) (suc i)
      → place_results (r ∷ rs) (collect_valid i (a ∷ xs)).1 (done ++ (d ∷ replicate (length xs) d))
        ≡ ok (done ++ spread d (a ∷ xs) (r ∷ rs))
  unfolding collect_valid
  place_valid r rs valid ih = rw valid (
      cc (
        ih,
        place_next r d rs (collect_valid (suc i) xs).1 done (replicate (length xs) d) l,
        append_assoc done (r ∷ []) (spread d xs rs),
      ))

place-spread :
    {A : Type 0} (d : A) (xs : List Address) (rs done : List A) (i : ℕ)
    → length done ≡ i
    → length rs ≡ length (valid_of xs)
    → place_results rs (collect_valid i xs).1 (done ++ replicate (length xs) d)
      ≡ ok (done ++ spread d xs rs)
place-spread d [] [] done i l h = unfold place_results in refl
place-spread d [] (r ∷ rs) done i l h = absurd (omega arith)
place-spread d (a ∷ xs) [] done i l h = elim (Bool-cases (is_valid a)) [
  | inl valid ↦ absurd (omega (arith, rw valid at h))
  | inr invalid ↦ place_invalid d a xs done i l [] invalid (
      place-spread d xs [] (done ++ (d ∷ [])) (suc i) (omega (arith, length-append done (d ∷ [])))
        (rw invalid at h))
]
place-spread d (a ∷ xs) (r ∷ rs) done i l h = elim (Bool-cases (is_valid a)) [
  | inl valid ↦
      let h' : suc (length rs) ≡ suc (length (valid_of xs)) = rw valid at h in
      place_valid d a xs done i l r rs valid (
        place-spread d xs rs (done ++ (r ∷ [])) (suc i) (omega (arith, length-append done (r ∷ [])))
          (omega arith))
  | inr invalid ↦ place_invalid d a xs done i l (r ∷ rs) invalid (
      place-spread d xs (r ∷ rs) (done ++ (d ∷ [])) (suc i)
        (omega (arith, length-append done (d ∷ []))) (rw invalid at h))
]

length-spread :
    {A : Type 0} (d : A) (xs : List Address) (rs : List A) → length (spread d xs rs) ≡ length xs
length-spread d [] rs = refl
length-spread d (a ∷ xs) rs = ap suc (length-spread d xs (rest_for (is_valid a) rs))

next_for-Fits :
    (n : ℕ) (b : Bool) (rs : List (Option Geocoded))
    → All (Fits n) rs
    → Fits n (next_for b none rs) × All (Fits n) (rest_for b rs)
next_for-Fits n true [] h = (tt, tt)
next_for-Fits n true (r ∷ rs) h = h
next_for-Fits n false rs h = (tt, h)

spread-Fits :
    (n : ℕ) (xs : List Address) (rs : List (Option Geocoded))
    → All (Fits n) rs
    → All (Fits n) (spread none xs rs)
spread-Fits n [] rs h = tt
spread-Fits n (a ∷ xs) rs h =
    let p = next_for-Fits n (is_valid a) rs h in
    (p.0, spread-Fits n xs (rest_for (is_valid a) rs) p.1)

is_empty-of_ne : (xs : List Address) → xs ≢ [] → is_empty xs ≡ false
is_empty-of_ne [] h = absurd (h refl)
is_empty-of_ne (x ∷ xs) h = refl

module _ {W : Type 0} (inner : Geocoder W) where
  -- Without a valid address the inner geocoder is not called, and each result is `None`.
  skip_invalid-none :
      (xs : List Address) (w : W)
      → valid_of xs ≡ []
      → skip_invalid inner xs w ≡ (ok (replicate (length xs) none), w)
  unfolding skip_invalid
  skip_invalid-none xs w h = rw (valid_of-collect_valid 0 xs, h) refl

  -- The inner geocoder is called once, with the valid addresses in order. If it returns one result
  -- for each of them, each address gets its own result, and an invalid one gets `None`.
  pub skip_invalid-spread :
      (xs : List Address) (w : W) {rs : List (Option Geocoded)}
      → valid_of xs ≢ []
      → (inner.geocode_addresses (valid_of xs) w).0 ≡ ok rs
      → length rs ≡ length (valid_of xs)
      → skip_invalid inner xs w
        ≡ (ok (spread none xs rs), (inner.geocode_addresses (valid_of xs) w).1)
  unfolding skip_invalid
  skip_invalid-spread xs w ne h l =
      rw
        (
          valid_of-collect_valid 0 xs,
          is_empty-of_ne (valid_of xs) ne,
          h,
          place-spread none xs _ [] 0 refl l,
        )
        refl

  -- A skipper over a geocoder that implements the trait implements it too: no call panics, and
  -- there is one result for each address.
  pub skipper-Implements :
      {Inv : W → Type 0} → Implements Inv inner → Implements Inv (invalid_record_skipper inner)
  unfolding skip_invalid
  skipper-Implements imp = record {
    calls = λ xs. rw (valid_of-collect_valid 0 xs) (
        Safe-if (is_empty (valid_of xs)) _ _
          (λ none'.
            Safe-pure _
              (length-replicate (length xs) none, All-replicate (Fits _) (length xs) none tt))
          (λ some'.
            Safe-bind (inner.geocode_addresses (valid_of xs)) _ (imp.calls (valid_of xs)) λ rs p.
              Safe-lift _ (
                rw (place-spread none xs rs [] 0 refl p.0)
                  (length-spread none xs rs, spread-Fits _ xs rs p.1))));
  }
