-- ===== src/Addresses/Spec/Duplicates.antt =====
-- src/addresses.rs: the duplicate columns of a header are columns of the header, and finding them does
-- not panic.
use geocode_csv.Base.{ℕ, suc, ◌+◌, ◌<◌, List, [], ◌∷◌, length, arith, All, Bool-cases, inl, inr}
use geocode_csv.Base.Text.{Text}
use geocode_csv.Base.Dict.{contains}
use geocode_csv.Base.Outcome.{Ensures, Ensures-bind}
use geocode_csv.Addresses.Columns.{StringRecord}
use geocode_csv.Addresses.Spec.{
  AddressColumnSpec, prefixes, add_output_names, output_column_names, find_duplicates,
  duplicate_columns,
}
use geocode_csv.Geocoders.{prefix_column_name}

abbrev pub IndicesBelow : ℕ → List (Text × ℕ) → Type 0
IndicesBelow n = All (λ (d : Text × ℕ). d.1 < n)

find_duplicates-below :
    (output : List Text) (i n : ℕ) (header : StringRecord)
    → i + length header < suc n
    → IndicesBelow n (find_duplicates output i header)
unfolding find_duplicates
find_duplicates-below output i n [] h = tt
find_duplicates-below output i n (col ∷ header) h = elim (Bool-cases (contains output col)) [
  | inl dup ↦
      rw dup (omega (arith, h), find_duplicates-below output (suc i) n header (omega (arith, h)))
  | inr new ↦ rw new (find_duplicates-below output (suc i) n header (omega (arith, h)))
]

add_output_names-total :
    (prefix : Text) (names output : List Text)
    → Ensures (λ o. Unit) (add_output_names prefix names output)
unfolding add_output_names
add_output_names-total prefix [] output = tt
add_output_names-total prefix (name ∷ names) output =
    elim (Bool-cases (contains output (prefix_column_name prefix name))) [
      | inl dup ↦ rw dup tt
      | inr new ↦
          rw new (add_output_names-total prefix names (prefix_column_name prefix name ∷ output))
    ]

output_column_names-total :
    (ps names output : List Text) → Ensures (λ o. Unit) (output_column_names ps names output)
unfolding output_column_names
output_column_names-total [] names output = tt
output_column_names-total (p ∷ ps) names output =
    Ensures-bind _ _ (add_output_names p names output) _ (add_output_names-total p names output)
      λ o u. output_column_names-total ps names o

pub duplicate_columns-below :
    {K : Type 0} (spec : AddressColumnSpec K) (names : List Text) (header : StringRecord)
    → Ensures (IndicesBelow (length header)) (duplicate_columns spec names header)
unfolding duplicate_columns
duplicate_columns-below spec names header =
    Ensures-bind _ _ (output_column_names (prefixes spec) names []) _
      (output_column_names-total (prefixes spec) names [])
      λ output u. find_duplicates-below output 0 (length header) header (omega arith)
