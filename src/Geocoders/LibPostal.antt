-- ===== src/Geocoders/LibPostal.antt =====
-- src/geocoders/libpostal.rs: libpostal's parser as a geocoder.
pub mod Laws
use geocode_csv.Base.{Option, none, some, List, [], ◌∷◌, ◌++◌, map}
use geocode_csv.Base.Text.{Text, codes}
use geocode_csv.Base.Dict.{Dict, lookup}
use geocode_csv.Base.Effect.{M, pure, ◌>>=◌}
use geocode_csv.Addresses.Address.{Address, city_str, state_str, zipcode_str}
use geocode_csv.Geocoders.{Geocoder, Geocoded}

abbrev pub column_names : List Text
column_names =
    codes "archipelago"
    ∷ codes "city"
    ∷ codes "continent"
    ∷ codes "country_code"
    ∷ codes "country"
    ∷ codes "county"
    ∷ codes "hamlet"
    ∷ codes "house_number"
    ∷ codes "house"
    ∷ codes "island"
    ∷ codes "municipality"
    ∷ codes "neighbourhood"
    ∷ codes "postal_city"
    ∷ codes "postcode"
    ∷ codes "region"
    ∷ codes "road"
    ∷ codes "state_district"
    ∷ codes "state"
    ∷ codes "village"
    ∷ codes "category"
    ∷ codes "city_district"
    ∷ codes "country_region"
    ∷ codes "entrance"
    ∷ codes "level"
    ∷ codes "near"
    ∷ codes "po_box"
    ∷ codes "staircase"
    ∷ codes "suburb"
    ∷ codes "unit"
    ∷ codes "world_region"
    ∷ []

-- The format `"{} {} {} {}"`.
unfoldable pub address_text : Address → Text
address_text addr =
    addr.street
    ++ (b' ' ∷ (city_str addr ++ (b' ' ∷ (state_str addr ++ (b' ' ∷ zipcode_str addr)))))

abbrev value_or_empty : Option Text → Text
value_or_empty none = []
value_or_empty (some value) = value

-- The loop over `COLUMN_NAMES`.
unfoldable pub component_values : List Text → Dict Text → Geocoded
component_values names parsed = record {
  column_values = map (λ name. value_or_empty (lookup name parsed)) names;
}

-- `parse_address` of the crate libpostal-rust, which keeps its state in the world.
module _ {W : Type 0} (parse_address : Text → M W (Dict Text)) where
  unfoldable pub parse_addresses : List Address → M W (List (Option Geocoded))
  unfolding address_text component_values
  parse_addresses [] = pure []
  parse_addresses (addr ∷ addresses) = do
    parsed ← parse_address (address_text addr)
    result ← parse_addresses addresses
    pure (some (component_values column_names parsed) ∷ result)

  -- `LibPostal::new`
  abbrev pub libpostal : Geocoder W
  libpostal = record {
    tag = codes "lp";
    configuration_key = codes "default";
    column_names = column_names;
    geocode_addresses = parse_addresses;
  }
