-- ===== src/Tests/Geocoders.antt =====
-- Witnesses and runs for src/geocoders and src/unpack_vec.rs.
use geocode_csv.Base.{
  ℕ, ◌≡◌, refl, ◌<◌, ◌↔◌, Option, none, some, List, [], ◌∷◌, ◌++◌, length, get_elem?, replicate,
}
use geocode_csv.Base.Text.{codes, trim}
use geocode_csv.Base.Outcome.{ok}
use geocode_csv.Addresses.Address.{Address, is_valid}
use geocode_csv.Geocoders.{Geocoded, Implements}
use geocode_csv.Geocoders.MatchStrategy.{range, parse_strategy, print_strategy, parse-print_iff}
use geocode_csv.Geocoders.Skipper.{skip_invalid, invalid_record_skipper}
use geocode_csv.Geocoders.Skipper.Laws.{spread, skip_invalid-spread, skipper-Implements, valid_of}
use geocode_csv.Geocoders.Paired.{paired}
use geocode_csv.Geocoders.Paired.Laws.{paired-Implements, paired-columns, columns_of, both_columns}
use geocode_csv.Geocoders.LibPostal.{libpostal, column_names}
use geocode_csv.Geocoders.LibPostal.Laws.{libpostal-Implements}
use geocode_csv.Geocoders.Normalizer.{normalizer, normalized_to_address, component_indices}
use geocode_csv.Geocoders.Normalizer.Words.{normalized_to_address-words, address_of}
use geocode_csv.Geocoders.Normalizer.Laws.{normalizer-Implements}
use geocode_csv.UnpackVec.{unpack_vec}
use geocode_csv.UnpackVec.Laws.{unpack_vec-ok_iff, unpack_vec-get_elem?, find_index, IsUnpackable}
use geocode_csv.Tests.Data.{
  address, flaky, flaky-Implements, found, answer, Any, parse_road, parse_road-Safe,
}

abbrev identity : ℕ → ℕ
identity i = i

unpack_vec-ok_iff_example :
    IsUnpackable 3 identity (2 ∷ 0 ∷ [])
    ↔ ((out : List (Option ℕ)) × (unpack_vec (2 ∷ 0 ∷ []) 3 identity ≡ ok out))
unpack_vec-ok_iff_example = unpack_vec-ok_iff (2 ∷ 0 ∷ []) 3 identity

abbrev slots : List (Option ℕ)
slots = some 0 ∷ none ∷ some 2 ∷ []

unpacked : unpack_vec (2 ∷ 0 ∷ []) 3 identity ≡ ok slots
unfolding unpack_vec
unpacked = refl

unpack_vec-get_elem?_example :
    (length slots ≡ 3)
    × ((i : ℕ) → i < 3 → get_elem? slots i ≡ some (find_index 3 identity (2 ∷ 0 ∷ []) i))
unpack_vec-get_elem?_example = unpack_vec-get_elem? (2 ∷ 0 ∷ []) 3 identity unpacked

parsed_strategy :
    (parse_strategy (codes "range") ≡ ok range) ↔ (codes "range" ≡ print_strategy range)
parsed_strategy = parse-print_iff (codes "range") range

abbrev mixed : List Address
mixed = address (codes "1 Main St") ∷ address (codes " \t") ∷ address (codes "2 Oak Ave") ∷ []

mixed_valid : valid_of mixed ≡ address (codes "1 Main St") ∷ address (codes "2 Oak Ave") ∷ []
unfolding is_valid trim
mixed_valid = refl

skip_invalid-spread_example : skip_invalid (flaky 0) mixed 0 ≡ (
  ok (
      spread none mixed
        (found (address (codes "1 Main St")) ∷ found (address (codes "2 Oak Ave")) ∷ [])),
  1,
)
unfolding is_valid trim
skip_invalid-spread_example = skip_invalid-spread (flaky 0) mixed 0 (cc) refl refl

skipped : skip_invalid (flaky 0) mixed 0 ≡ (
  ok (found (address (codes "1 Main St")) ∷ none ∷ found (address (codes "2 Oak Ave")) ∷ []),
  1,
)
unfolding is_valid trim skip_invalid
skipped = refl

skipper_of_flaky : Implements Any (invalid_record_skipper (flaky 1))
skipper_of_flaky = skipper-Implements (flaky 1) (flaky-Implements 1)

pair_of_flaky : Implements Any (paired (flaky 0) (codes "other") (flaky 1))
pair_of_flaky =
    paired-Implements (flaky 0) (codes "other") (flaky 1) (flaky-Implements 0) (flaky-Implements 1)

abbrev home : List Address
home = address (codes "home") ∷ []

paired-columns_example :
    (rs : List (Option Geocoded)) × (((paired (flaky 0) (codes "other") (flaky 1)).geocode_addresses
        home 0).0
      ≡ ok rs)
    × ((i : ℕ) (x y : Option Geocoded)
        → get_elem? (answer home) i ≡ some x
        → get_elem? (answer home) i ≡ some y
        → (r : Option Geocoded) × (get_elem? rs i ≡ some r) × (columns_of r ≡ both_columns 2 2 x y))
paired-columns_example = paired-columns (flaky 0) (codes "other") (flaky 1) home 0 refl refl refl

libpostal-Implements_example : Implements Any (libpostal parse_road)
libpostal-Implements_example = libpostal-Implements parse_road parse_road-Safe

normalizer_of_flaky : Implements Any (normalizer parse_road (flaky 0))
normalizer_of_flaky =
    normalizer-Implements parse_road (flaky 0) parse_road-Safe (flaky-Implements 0)

abbrev parsed : Geocoded
parsed = record {
  column_values = replicate 7 [] ++ (codes "104" ∷ (replicate 7 [] ++ (codes "16th st" ∷ [])));
}

normalized_to_address-words_example :
    normalized_to_address (component_indices 0 column_names []) parsed ≡ ok (address_of parsed)
normalized_to_address-words_example = normalized_to_address-words parsed

normalized :
    normalized_to_address (component_indices 0 column_names []) parsed
    ≡ ok (address (codes "104 16th st"))
unfolding normalized_to_address component_indices trim
normalized = refl
