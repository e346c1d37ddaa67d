-- ===== src/Addresses/Indices.antt =====
-- src/addresses.rs: `ConvertToIndices`, from column names to column indices.
pub mod Header
pub mod Names
pub mod Total
pub mod Laws
use geocode_csv.Base.{ℕ, suc, Option, none, some, List, [], ◌∷◌}
use geocode_csv.Base.Text.{Text}
use geocode_csv.Base.Dict.{Dict, lookup, insert}
use geocode_csv.Base.Outcome.{
  Outcome, ok, err, ok_or, missing_column, duplicate_header_column, ◌>>=◌,
}
use geocode_csv.Addresses.Columns.{ColumnKeyOrKeys, key, keys, AddressColumnKeys, StringRecord}
use geocode_csv.Addresses.Spec.{AddressColumnSpec}

-- `HashMap<&str, usize>`
abbrev pub HeaderColumns : Type 0
HeaderColumns = Dict ℕ

unfoldable pub convert_name : HeaderColumns → Text → Outcome ℕ
convert_name header_columns name = ok_or (lookup name header_columns) (missing_column name)

-- `keys.iter().map(…).collect::<Result<Vec<_>>>()`
unfoldable pub convert_names : HeaderColumns → List Text → Outcome (List ℕ)
unfolding convert_name
convert_names header_columns [] = ok []
convert_names header_columns (k ∷ ks) = do
  i ← convert_name header_columns k
  is ← convert_names header_columns ks
  ok (i ∷ is)

unfoldable pub convert_key_or_keys :
    HeaderColumns → ColumnKeyOrKeys Text → Outcome (ColumnKeyOrKeys ℕ)
unfolding convert_names
convert_key_or_keys header_columns (key k) = do i ← convert_name header_columns k; ok (key i)
convert_key_or_keys header_columns (keys ks) = do is ← convert_names header_columns ks; ok (keys is)

-- `as_ref().map(…).transpose()`
unfoldable pub convert_optional : HeaderColumns → Option Text → Outcome (Option ℕ)
unfolding convert_name
convert_optional header_columns none = ok none
convert_optional header_columns (some k) = do i ← convert_name header_columns k; ok (some i)

unfoldable pub convert_address_columns :
    HeaderColumns → AddressColumnKeys Text → Outcome (AddressColumnKeys ℕ)
unfolding convert_key_or_keys convert_optional
convert_address_columns header_columns columns = do
  street ← convert_key_or_keys header_columns columns.street
  city ← convert_optional header_columns columns.city
  state ← convert_optional header_columns columns.state
  zipcode ← convert_optional header_columns columns.zipcode
  ok (record { street = street; city = city; state = state; zipcode = zipcode })

-- The loop over the entries, into a new map.
unfoldable pub convert_entries :
    HeaderColumns
    → Dict (AddressColumnKeys Text)
    → Dict (AddressColumnKeys ℕ)
    → Outcome (Dict (AddressColumnKeys ℕ))
unfolding convert_address_columns
convert_entries header_columns [] converted = ok converted
convert_entries header_columns ((prefix, columns) ∷ entries) converted = do
  columns' ← convert_address_columns header_columns columns
  convert_entries header_columns entries (insert prefix columns' converted)

unfoldable pub convert_to_indices :
    AddressColumnSpec Text → HeaderColumns → Outcome (AddressColumnSpec ℕ)
unfolding convert_entries
convert_to_indices spec header_columns = do
  converted ← convert_entries header_columns spec.address_columns_by_prefix []
  ok (record { address_columns_by_prefix = converted })

-- The loop over `headers.iter().enumerate()`, from index `idx`.
unfoldable pub index_headers : ℕ → StringRecord → HeaderColumns → Outcome HeaderColumns
index_headers idx [] header_columns = ok header_columns
index_headers idx (header ∷ headers) header_columns = elim (lookup header header_columns) [
  | some existing ↦ err (duplicate_header_column header)
  | none ↦ index_headers (suc idx) headers (insert header idx header_columns)
]

unfoldable pub convert_to_indices_using_headers :
    AddressColumnSpec Text → StringRecord → Outcome (AddressColumnSpec ℕ)
unfolding index_headers convert_to_indices
convert_to_indices_using_headers spec headers = do
  header_columns ← index_headers 0 headers []
  convert_to_indices spec header_columns
