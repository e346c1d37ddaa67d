-- ===== src/Geocoders/Normalizer/Laws.antt =====
-- src/geocoders/normalizer.rs: normalization does not panic, and keeps one result for each address.
use geocode_csv.Base.{
  ℕ, suc, ◌+◌, ◌≡◌, refl, Option, none, some, List, [], ◌∷◌, length, get_elem?-lt, arith, ap, ◌∙◌,
}
use geocode_csv.Base.Text.{Text}
use geocode_csv.Base.Dict.{Dict}
use geocode_csv.Base.Outcome.{ok, Ensures, Ensures-bind}
use geocode_csv.Base.Effect.{M, lift}
use geocode_csv.Base.Effect.Safe.{Safe, Safe-bind, Safe-lift, Safe-weaken}
use geocode_csv.Addresses.Address.{Address}
use geocode_csv.Geocoders.{Geocoder, Geocoded, Implements}
use geocode_csv.Geocoders.LibPostal.{parse_addresses}
use geocode_csv.Geocoders.LibPostal.Laws.{parse_addresses-Answers}
use geocode_csv.Geocoders.Normalizer.{normalized_addresses, geocode_normalized, normalizer}
use geocode_csv.Geocoders.Normalizer.Words.{indices, address_of, normalized_to_address-words}

length-normalized_addresses :
    (xs : List Address) (i : ℕ) (rs : List (Option Geocoded))
    → i + length rs ≡ length xs
    → Ensures (λ ys. length ys ≡ length rs) (normalized_addresses indices xs i rs)
unfolding normalized_addresses
length-normalized_addresses xs i [] h = refl
length-normalized_addresses xs i (none ∷ rs) h =
    let p = get_elem?-lt xs i (omega (arith, h)) in
    rw p.1 (
      Ensures-bind (λ ys. length ys ≡ length rs) (λ ys. length ys ≡ suc (length rs))
        (normalized_addresses indices xs (suc i) rs) (λ rest. ok (p.0 ∷ rest))
        (length-normalized_addresses xs (suc i) rs (omega (arith, h))) (λ ys e. ap suc e))
length-normalized_addresses xs i (some r ∷ rs) h =
    let p = get_elem?-lt xs i (omega (arith, h)) in
    rw (normalized_to_address-words r, p.1)
      (Ensures-bind (λ ys. length ys ≡ length rs) (λ ys. length ys ≡ suc (length rs))
        (normalized_addresses indices xs (suc i) rs) (λ rest. ok (address_of r ∷ rest))
        (length-normalized_addresses xs (suc i) rs (omega (arith, h))) (λ ys e. ap suc e))

module _ {W : Type 0} {Inv : W → Type 0} (parse_address : Text → M W (Dict Text))
    (inner : Geocoder W) where
  -- A normalizer over a geocoder that implements the trait implements it too, if libpostal's parser
  -- is safe: no indexing panics, and there is one result for each address.
  pub normalizer-Implements :
      ((s : Text) → Safe Inv (λ parsed. Unit) (parse_address s))
      → Implements Inv inner
      → Implements Inv (normalizer parse_address inner)
  unfolding geocode_normalized
  normalizer-Implements safe imp = record {
    calls = λ xs.
        Safe-bind (parse_addresses parse_address xs) _
          (parse_addresses-Answers parse_address safe xs)
          λ rs p.
            Safe-bind (lift _) _
              (Safe-lift _ (length-normalized_addresses xs 0 rs (omega (arith, p.0.0))))
              λ ys q. Safe-weaken _ (λ zs a. (a.0 ∙ q ∙ p.0.0, a.1)) (imp.calls ys);
  }
