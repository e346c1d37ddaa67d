-- ===== src/Geocoders.antt =====
-- src/geocoders/mod.rs: the interface of geocoders, and what its clients rely on.
pub mod MatchStrategy
pub mod Skipper
pub mod Paired
pub mod LibPostal
pub mod Normalizer
pub mod CachePrefix
pub mod Cache
pub mod Smarty
use geocode_csv.Base.{
  ℕ, ◌≡◌, Bool, ◌||◌, false, Option, none, some, List, [], ◌∷◌, ◌++◌, map, length, replicate, All,
}
use geocode_csv.Base.Text.{Text, contains_char}
use geocode_csv.Base.Outcome.{Ensures}
use geocode_csv.Base.Effect.{M}
use geocode_csv.Base.Effect.Safe.{Safe}
use geocode_csv.Addresses.Address.{Address}
use geocode_csv.Addresses.Columns.{StringRecord}

pub record Geocoded : Type 0 where
  pub column_values : List Text

abbrev any_contains : ℕ → List Text → Bool
any_contains c [] = false
any_contains c (s ∷ ss) = contains_char c s || any_contains c ss

unfoldable pub contains_null_bytes : Geocoded → Bool
contains_null_bytes g = any_contains 0 g.column_values

-- `Geocoded::concat`
unfoldable pub concat_geocoded : Geocoded → Geocoded → Geocoded
concat_geocoded g other = record { column_values = g.column_values ++ other.column_values }

-- The trait. A geocoder may read and change the world: a network, a store, a library's state.
pub record Geocoder (W : Type 0) : Type 0 where
  pub tag : Text
  pub configuration_key : Text
  pub column_names : List Text
  pub geocode_addresses : List Address → M W (List (Option Geocoded))

-- `prefix_column_name` of src/addresses.rs
unfoldable pub prefix_column_name : Text → Text → Text
prefix_column_name prefix column = prefix ++ (b'_' ∷ column)

unfoldable pub add_header_columns : List Text → Text → StringRecord → StringRecord
unfolding prefix_column_name
add_header_columns column_names prefix out_headers =
    out_headers ++ map (prefix_column_name prefix) column_names

unfoldable pub add_value_columns_to_row : Geocoded → StringRecord → StringRecord
add_value_columns_to_row geocoded out_row = out_row ++ geocoded.column_values

unfoldable pub add_empty_columns_to_row : List Text → StringRecord → StringRecord
add_empty_columns_to_row column_names out_row = out_row ++ replicate (length column_names) []

-- What a client relies on. One result for each address, in the order of the addresses, and a value
-- for each column in each match.
abbrev pub Fits : ℕ → Option Geocoded → Type 0
Fits n none = Unit
Fits n (some g) = length g.column_values ≡ n

abbrev pub Answers : ℕ → List Address → List (Option Geocoded) → Type 0
Answers n addresses results = (length results ≡ length addresses) × All (Fits n) results

-- A geocoder implements the trait if, in every world that satisfies `Inv`, a call does not panic,
-- keeps `Inv`, and answers as above if it succeeds.
pub record Implements {W : Type 0} (Inv : W → Type 0) (g : Geocoder W) : Type 0 where
  pub calls :
      (addresses : List Address)
      → Safe Inv (Answers (length g.column_names) addresses) (g.geocode_addresses addresses)
