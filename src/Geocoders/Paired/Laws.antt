-- ===== src/Geocoders/Paired/Laws.antt =====
-- src/geocoders/paired.rs: both results stand in one row, each in its own columns.
use geocode_csv.Base.{
  ℕ, zero, suc, ◌+◌, ◌≡◌, refl, Option, none, some, List, [], ◌∷◌, ◌++◌, length, replicate, arith,
  All, length-append, length-replicate, length-map, get_elem?, ◌∙◌, ◌==◌, ==_iff,
}
use geocode_csv.Base.Text.{Text}
use geocode_csv.Base.Outcome.{ok}
use geocode_csv.Base.Effect.Safe.{Safe-bind, Safe-if, Safe-pure, Safe-raise}
use geocode_csv.Addresses.Address.{Address}
use geocode_csv.Geocoders.{Geocoder, Geocoded, Implements, Fits}
use geocode_csv.Geocoders.Paired.{
  empty_output, combine_geocoder_results, zip_combine, geocode_both, paired,
}

abbrev pub Combine : Type 0
Combine = Option Geocoded → Option Geocoded → Option Geocoded

length-zip_combine :
    (f : Combine) (xs ys : List (Option Geocoded))
    → length xs ≡ length ys
    → length (zip_combine f xs ys) ≡ length xs
unfolding zip_combine
length-zip_combine f [] ys h = refl
length-zip_combine f (x ∷ xs) [] h = absurd (omega arith)
length-zip_combine f (x ∷ xs) (y ∷ ys) h = omega (arith, length-zip_combine f xs ys (omega arith))

combine-Fits :
    (n m : ℕ) (x y : Option Geocoded)
    → Fits n x
    → Fits m y
    → Fits (n + m) (combine_geocoder_results (empty_output n) (empty_output m) x y)
unfolding combine_geocoder_results
combine-Fits n m none none h k = tt
combine-Fits n m (some f) none h k =
    omega (arith, length-append f.column_values (replicate m []), length-replicate {A = Text} m [])
combine-Fits n m none (some g) h k =
    omega (arith, length-append (replicate n []) g.column_values, length-replicate {A = Text} n [])
combine-Fits n m (some f) (some g) h k =
    omega (arith, length-append f.column_values g.column_values)

zip_combine-Fits :
    (n m : ℕ) (xs ys : List (Option Geocoded))
    → All (Fits n) xs
    → All (Fits m) ys
    → All
        (Fits (n + m))
        (zip_combine (combine_geocoder_results (empty_output n) (empty_output m)) xs ys)
unfolding zip_combine
zip_combine-Fits n m [] ys h k = tt
zip_combine-Fits n m (x ∷ xs) [] h k = tt
zip_combine-Fits n m (x ∷ xs) (y ∷ ys) (h, hs) (k, ks) =
    (combine-Fits n m x y h k, zip_combine-Fits n m xs ys hs ks)

-- The columns of a pair: those of the first geocoder's result, then those of the second's, where
-- a result that is missing beside another counts as empty columns.
abbrev columns_or_empty : ℕ → Option Geocoded → List Text
columns_or_empty n none = replicate n []
columns_or_empty n (some g) = g.column_values

abbrev pub both_columns : ℕ → ℕ → Option Geocoded → Option Geocoded → Option (List Text)
both_columns n m none none = none
both_columns n m x y = some (columns_or_empty n x ++ columns_or_empty m y)

abbrev pub columns_of : Option Geocoded → Option (List Text)
columns_of none = none
columns_of (some g) = some g.column_values

combine-columns :
    (n m : ℕ) (x y : Option Geocoded)
    → columns_of (combine_geocoder_results (empty_output n) (empty_output m) x y)
      ≡ both_columns n m x y
unfolding combine_geocoder_results
combine-columns n m none none = refl
combine-columns n m none (some g) = refl
combine-columns n m (some f) none = refl
combine-columns n m (some f) (some g) = refl

zip_combine-get_elem? :
    (f : Combine) (xs ys : List (Option Geocoded)) (i : ℕ) (x y : Option Geocoded)
    → get_elem? xs i ≡ some x
    → get_elem? ys i ≡ some y
    → get_elem? (zip_combine f xs ys) i ≡ some (f x y)
unfolding zip_combine
zip_combine-get_elem? f [] ys i x y h k = cc
zip_combine-get_elem? f (a ∷ xs) [] i x y h k = cc
zip_combine-get_elem? f (a ∷ xs) (b ∷ ys) zero x y h k = cc
zip_combine-get_elem? f (a ∷ xs) (b ∷ ys) (suc i) x y h k = zip_combine-get_elem? f xs ys i x y h k

module _ {W : Type 0} (fst : Geocoder W) (snd_label : Text) (snd : Geocoder W) where
  -- Where both geocoders return results, as many as each other, the pair returns for each address
  -- the first one's columns followed by the second's. A match that only one of them has is filled up
  -- with empty columns, and an address that neither matches has no match.
  pub paired-columns :
      (xs : List Address) (w : W) {fs ss : List (Option Geocoded)}
      → (fst.geocode_addresses xs w).0 ≡ ok fs
      → (snd.geocode_addresses xs (fst.geocode_addresses xs w).1).0 ≡ ok ss
      → length fs ≡ length ss
      → (rs : List (Option Geocoded)) × (((paired fst snd_label snd).geocode_addresses xs w).0
          ≡ ok rs)
        × ((i : ℕ) (x y : Option Geocoded)
            → get_elem? fs i ≡ some x
            → get_elem? ss i ≡ some y
            → (r : Option Geocoded) × (get_elem? rs i ≡ some r)
              × (columns_of r
                  ≡ both_columns (length fst.column_names) (length snd.column_names) x y))
  unfolding geocode_both
  paired-columns xs w {fs} {ss} h k l = (
    zip_combine
        (combine_geocoder_results (empty_output (length fst.column_names))
          (empty_output (length snd.column_names)))
        fs ss,
    rw (h, k, (==_iff (length fs) (length ss)).1 l) refl,
    λ i x y p q. (_, zip_combine-get_elem? _ fs ss i x y p q, combine-columns _ _ x y),
  )

module _ {W : Type 0} {Inv : W → Type 0} (fst : Geocoder W) (snd_label : Text)
    (snd : Geocoder W) where
  -- A pair of geocoders that implement the trait implements it too: no call panics, there is one
  -- result for each address, and each match has a value for each column of both geocoders.
  pub paired-Implements :
      Implements Inv fst → Implements Inv snd → Implements Inv (paired fst snd_label snd)
  unfolding geocode_both
  paired-Implements f s = record {
    calls = λ xs. Safe-bind (fst.geocode_addresses xs) _ (f.calls xs) λ fs p.
        Safe-bind (snd.geocode_addresses xs) _ (s.calls xs) λ ss q.
          Safe-if (length fs == length ss) _ _
            (λ e. Safe-pure _ (
              length-zip_combine _ fs ss ((==_iff (length fs) (length ss)).0 e) ∙ p.0,
              rw (length-append, length-map) (zip_combine-Fits _ _ fs ss p.1 q.1),
            ))
            (λ e. Safe-raise _);
  }
