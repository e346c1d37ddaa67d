-- ===== src/Geocoders/Skipper.antt =====
-- src/geocoders/invalid_record_skipper.rs: pass only valid addresses to the inner geocoder.
pub mod Laws
use geocode_csv.Base.{
  ℕ, suc, Option, none, List, [], ◌∷◌, length, replicate, set, ltb, if◌then◌else◌,
}
use geocode_csv.Base.Text.{is_empty}
use geocode_csv.Base.Outcome.{Outcome, ok, panicked}
use geocode_csv.Base.Effect.{M, pure, lift, ◌>>=◌}
use geocode_csv.Addresses.Address.{Address, is_valid}
use geocode_csv.Geocoders.{Geocoder, Geocoded}

-- The loop over `addresses.iter().enumerate()`, from index `i`: `valid_addresses`, and
-- `original_indices`.
unfoldable pub collect_valid : ℕ → List Address → List Address × List ℕ
collect_valid i [] = ([], [])
collect_valid i (address ∷ addresses) =
    let rest = collect_valid (suc i) addresses in
    if is_valid address then (address ∷ rest.0, i ∷ rest.1) else rest

-- The loop over `geocodeded.into_iter().enumerate()`; the two indexings may panic.
unfoldable pub place_results : {A : Type 0} → List A → List ℕ → List A → Outcome (List A)
place_results [] indices result = ok result
place_results (geocoded ∷ rest) [] result = panicked
place_results (geocoded ∷ rest) (original_index ∷ indices) result =
    let next = place_results rest indices (set result original_index geocoded) in
    if ltb original_index (length result) then next else panicked

module _ {W : Type 0} (inner : Geocoder W) where
  unfoldable pub skip_invalid : List Address → M W (List (Option Geocoded))
  unfolding collect_valid place_results
  skip_invalid addresses =
      let (valid_addresses, original_indices) = collect_valid 0 addresses in
      let result = replicate (length addresses) none in
      if is_empty valid_addresses then pure result else (do
        geocoded ← inner.geocode_addresses valid_addresses
        lift (place_results geocoded original_indices result))

  -- `InvalidRecordSkipper`
  abbrev pub invalid_record_skipper : Geocoder W
  invalid_record_skipper = record {
    tag = inner.tag;
    configuration_key = inner.configuration_key;
    column_names = inner.column_names;
    geocode_addresses = skip_invalid;
  }
