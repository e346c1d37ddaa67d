-- ===== src/Addresses/Indices/Total.antt =====
-- src/addresses.rs: the conversion of a spec does not panic.
use geocode_csv.Base.{ℕ, suc, Option, none, some, List, [], ◌∷◌, Option-cases, inl, inr}
use geocode_csv.Base.Text.{Text}
use geocode_csv.Base.Dict.{Dict, lookup, insert}
use geocode_csv.Base.Outcome.{Outcome, Ensures, Ensures-bind}
use geocode_csv.Addresses.Columns.{ColumnKeyOrKeys, key, keys, AddressColumnKeys, StringRecord}
use geocode_csv.Addresses.Spec.{AddressColumnSpec}
use geocode_csv.Addresses.Indices.{
  HeaderColumns, convert_name, convert_names, convert_key_or_keys, convert_optional,
  convert_address_columns, convert_entries, convert_to_indices, index_headers,
  convert_to_indices_using_headers,
}

abbrev NoPanic : {A : Type 0} → Outcome A → Type 0
NoPanic = Ensures (λ a. Unit)

index_headers-total :
    (i : ℕ) (headers : StringRecord) (m : HeaderColumns) → NoPanic (index_headers i headers m)
unfolding index_headers
index_headers-total i [] m = tt
index_headers-total i (h ∷ headers) m = elim (Option-cases (lookup h m)) [
  | inl new ↦ rw (index_headers, new) (index_headers-total (suc i) headers (insert h i m))
  | inr (j, old) ↦ rw (index_headers, old) tt
]

module _ (m : HeaderColumns) where
  convert_name-total : (name : Text) → NoPanic (convert_name m name)
  unfolding convert_name
  convert_name-total name = elim (Option-cases (lookup name m)) [
    | inl missing ↦ rw missing tt
    | inr (i, found) ↦ rw found tt
  ]

  convert_names-total : (ks : List Text) → NoPanic (convert_names m ks)
  unfolding convert_names
  convert_names-total [] = tt
  convert_names-total (k ∷ ks) =
      Ensures-bind _ _ (convert_name m k) _ (convert_name-total k)
        λ i u. Ensures-bind _ _ (convert_names m ks) _ (convert_names-total ks) λ is u'. tt

  convert_key-total : (k : ColumnKeyOrKeys Text) → NoPanic (convert_key_or_keys m k)
  unfolding convert_key_or_keys
  convert_key-total (key k) = Ensures-bind _ _ (convert_name m k) _ (convert_name-total k) λ i u. tt
  convert_key-total (keys ks) =
      Ensures-bind _ _ (convert_names m ks) _ (convert_names-total ks) λ is u. tt

  convert_optional-total : (k : Option Text) → NoPanic (convert_optional m k)
  unfolding convert_optional
  convert_optional-total none = tt
  convert_optional-total (some k) =
      Ensures-bind _ _ (convert_name m k) _ (convert_name-total k) λ i u. tt

  convert_columns-total : (c : AddressColumnKeys Text) → NoPanic (convert_address_columns m c)
  unfolding convert_address_columns
  convert_columns-total c =
      Ensures-bind _ _ (convert_key_or_keys m c.street) _ (convert_key-total c.street) λ s u.
        Ensures-bind _ _ (convert_optional m c.city) _ (convert_optional-total c.city) λ t u.
          Ensures-bind _ _ (convert_optional m c.state) _ (convert_optional-total c.state) λ v u.
            Ensures-bind _ _ (convert_optional m c.zipcode) _ (convert_optional-total c.zipcode)
              λ z u. tt

  convert_entries-total :
      (entries : Dict (AddressColumnKeys Text)) (converted : Dict (AddressColumnKeys ℕ))
      → NoPanic (convert_entries m entries converted)
  unfolding convert_entries
  convert_entries-total [] converted = tt
  convert_entries-total ((prefix, c) ∷ entries) converted =
      Ensures-bind _ _ (convert_address_columns m c) _ (convert_columns-total c)
        λ d u. convert_entries-total entries (insert prefix d converted)

pub convert_to_indices_using_headers-total :
    (spec : AddressColumnSpec Text) (headers : StringRecord)
    → Ensures (λ converted. Unit) (convert_to_indices_using_headers spec headers)
unfolding convert_to_indices_using_headers convert_to_indices
convert_to_indices_using_headers-total spec headers =
    Ensures-bind _ _ (index_headers 0 headers []) _ (index_headers-total 0 headers []) λ m u.
      Ensures-bind _ _ (convert_entries m spec.address_columns_by_prefix []) _
        (convert_entries-total m spec.address_columns_by_prefix []) λ entries u'. tt
