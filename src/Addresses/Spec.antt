-- ===== src/Addresses/Spec.antt =====
-- src/addresses.rs: `AddressColumnSpec`, its prefixes, and the input columns that its output
-- columns would repeat.
pub mod Prefixes
pub mod Duplicates
pub mod Order
use geocode_csv.Base.{ℕ, suc, Bool, Option, none, some, List, [], ◌∷◌, if◌then◌else◌, length}
use geocode_csv.Base.Text.{Text, text_leb}
use geocode_csv.Base.Dict.{Dict, lookup, keys, contains}
use geocode_csv.Base.Outcome.{Outcome, ok, err, duplicate_column_name, ◌>>=◌}
use geocode_csv.Addresses.Columns.{AddressColumnKeys, StringRecord}
use geocode_csv.Geocoders.{prefix_column_name}

pub record AddressColumnSpec (K : Type 0) : Type 0 where
  pub address_columns_by_prefix : Dict (AddressColumnKeys K)

-- `sort_unstable` on strings: an insertion sort stands for the library's sort.
unfoldable pub insert_sorted : Text → List Text → List Text
insert_sorted k [] = k ∷ []
insert_sorted k (j ∷ js) = if text_leb k j then k ∷ (j ∷ js) else j ∷ insert_sorted k js

unfoldable pub sort : List Text → List Text
unfolding insert_sorted
sort [] = []
sort (k ∷ ks) = insert_sorted k (sort ks)

module _ {K : Type 0} where
  unfoldable pub prefix_count : AddressColumnSpec K → ℕ
  prefix_count spec = length spec.address_columns_by_prefix

  unfoldable pub prefixes : AddressColumnSpec K → List Text
  unfolding sort
  prefixes spec = sort (keys spec.address_columns_by_prefix)

  unfoldable pub get : AddressColumnSpec K → Text → Option (AddressColumnKeys K)
  get spec prefix = lookup prefix spec.address_columns_by_prefix

-- The loops that fill the `HashSet`: over a geocoder's columns, within that over the prefixes.
unfoldable pub add_output_names : Text → List Text → List Text → Outcome (List Text)
add_output_names prefix [] output = ok output
add_output_names prefix (name ∷ names) output =
    let full_name = prefix_column_name prefix name in
    let rest = add_output_names prefix names (full_name ∷ output) in
    if contains output full_name then err (duplicate_column_name full_name) else rest

unfoldable pub output_column_names : List Text → List Text → List Text → Outcome (List Text)
unfolding add_output_names
output_column_names [] column_names output = ok output
output_column_names (prefix ∷ prefixes') column_names output = do
  output' ← add_output_names prefix column_names output
  output_column_names prefixes' column_names output'

-- The loop over `header.iter().enumerate()`, from index `i`.
unfoldable pub find_duplicates : List Text → ℕ → StringRecord → List (Text × ℕ)
find_duplicates output i [] = []
find_duplicates output i (col ∷ header) =
    let rest = find_duplicates output (suc i) header in
    if contains output col then (col, i) ∷ rest else rest

unfoldable pub duplicate_columns :
    {K : Type 0} → AddressColumnSpec K → List Text → StringRecord → Outcome (List (Text × ℕ))
unfolding prefixes output_column_names find_duplicates
duplicate_columns spec column_names header = do
  output ← output_column_names (prefixes spec) column_names []
  ok (find_duplicates output 0 header)
