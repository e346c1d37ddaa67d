-- ===== src/Geocoders/Normalizer.antt =====
-- src/geocoders/normalizer.rs: normalize addresses by libpostal before another geocoder sees them.
pub mod Words
pub mod Laws
use geocode_csv.Base.{
  ℕ, suc, Option, none, some, List, [], ◌∷◌, ◌++◌, get_elem?, not, ◌&&◌, if◌then◌else◌,
}
use geocode_csv.Base.Text.{Text, codes, is_empty, ends_with, trim}
use geocode_csv.Base.Dict.{Dict, lookup, insert}
use geocode_csv.Base.Outcome
use geocode_csv.Base.Outcome.{Outcome, ok, expect}
use geocode_csv.Base.Effect.{M, lift, ◌>>=◌}
use geocode_csv.Addresses.Address.{Address}
use geocode_csv.Geocoders.{Geocoder, Geocoded}
use geocode_csv.Geocoders.LibPostal.{libpostal, column_names}

-- The loop of `Normalizer::new` over `column_names().iter().enumerate()`, from index `i`.
unfoldable pub component_indices : ℕ → List Text → Dict ℕ → Dict ℕ
component_indices i [] indices = indices
component_indices i (name ∷ names) indices = component_indices (suc i) names (insert name i indices)

unfoldable pub append_space_separated : Text → Text → Text
append_space_separated base to_append =
    (if not (is_empty base) && not (ends_with base (b' ' ∷ [])) then base ++ (b' ' ∷ []) else base)
    ++ trim to_append

-- `column_values.get(*idx)`, appended if it is there and not empty.
unfoldable pub append_value : Text → Option Text → Text
unfolding append_space_separated
append_value base none = base
append_value base (some value) = if is_empty value then base else append_space_separated base value

unfoldable pub append_component : Dict ℕ → Text → Geocoded → Text → Outcome Text
unfolding append_value
append_component indices base normalized component =
    Outcome.◌>>=◌ (expect (lookup component indices))
      (λ idx. ok (append_value base (get_elem? normalized.column_values idx)))

-- A row of calls of `append_component`.
unfoldable pub append_components : Dict ℕ → Text → Geocoded → List Text → Outcome Text
unfolding append_component
append_components indices base normalized [] = ok base
append_components indices base normalized (component ∷ components) =
    Outcome.◌>>=◌ (append_component indices base normalized component)
      (λ base'. append_components indices base' normalized components)

abbrev pub street_components : List Text
street_components =
    codes "po_box" ∷ codes "house_number" ∷ codes "house" ∷ codes "road" ∷ codes "unit" ∷ []

abbrev pub city_components : List Text
city_components = codes "suburb" ∷ codes "city_district" ∷ codes "city" ∷ []

abbrev pub non_empty : Text → Option Text
non_empty s = if is_empty s then none else some s

unfoldable pub normalized_to_address : Dict ℕ → Geocoded → Outcome Address
unfolding append_components
normalized_to_address indices normalized =
    Outcome.◌>>=◌ (append_components indices [] normalized street_components) λ street.
      Outcome.◌>>=◌ (append_components indices [] normalized city_components) λ city.
        Outcome.◌>>=◌ (append_components indices [] normalized (codes "state" ∷ [])) λ state.
          Outcome.◌>>=◌ (append_components indices [] normalized (codes "postcode" ∷ [])) λ zipcode.
            ok (record {
              street = street;
              city = non_empty city;
              state = non_empty state;
              zipcode = non_empty zipcode;
            })

-- The loop over `normalized.iter().enumerate()`, from index `i`; `addresses[i]` may panic.
unfoldable pub normalized_addresses :
    Dict ℕ → List Address → ℕ → List (Option Geocoded) → Outcome (List Address)
unfolding normalized_to_address
normalized_addresses indices addresses i [] = ok []
normalized_addresses indices addresses i (none ∷ normalized) =
    Outcome.◌>>=◌ (expect (get_elem? addresses i)) λ address.
      Outcome.◌>>=◌ (normalized_addresses indices addresses (suc i) normalized)
        λ rest. ok (address ∷ rest)
normalized_addresses indices addresses i (some raw ∷ normalized) =
    Outcome.◌>>=◌ (normalized_to_address indices raw) λ address.
      Outcome.◌>>=◌ (expect (get_elem? addresses i)) λ original.
        Outcome.◌>>=◌ (normalized_addresses indices addresses (suc i) normalized)
          λ rest. ok (address ∷ rest)

module _ {W : Type 0} (parse_address : Text → M W (Dict Text)) (inner : Geocoder W) where
  unfoldable pub geocode_normalized : List Address → M W (List (Option Geocoded))
  unfolding component_indices normalized_addresses
  geocode_normalized addresses = do
    normalized ← (libpostal parse_address).geocode_addresses addresses
    addresses' ←
        lift (normalized_addresses (component_indices 0 column_names []) addresses 0 normalized)
    inner.geocode_addresses addresses'

  -- `Normalizer::new`
  abbrev pub normalizer : Geocoder W
  normalizer = record {
    tag = codes "norm";
    configuration_key = inner.configuration_key;
    column_names = inner.column_names;
    geocode_addresses = geocode_normalized;
  }
