-- ===== src/Addresses/Indices/Laws.antt =====
-- src/addresses.rs: the converted spec has the prefixes of the spec, with the columns that it names.
use geocode_csv.Base.{ℕ, ◌≡◌, refl, ap, ◌∙◌, some, [], ◌∷◌, length, Bool-cases, inl, inr, ◌⊎◌}
use geocode_csv.Base.Text.{Text, text_eq, text_eq_iff}
use geocode_csv.Base.Dict.{Dict, lookup, insert, lookup-insert}
use geocode_csv.Base.Outcome.{ok, both_ok}
use geocode_csv.Addresses.Columns.{AddressColumnKeys, StringRecord}
use geocode_csv.Addresses.Columns.Extract.{ColumnsBelow}
use geocode_csv.Addresses.Spec.{AddressColumnSpec, get}
use geocode_csv.Addresses.Spec.Prefixes.{Values}
use geocode_csv.Addresses.Indices.{
  HeaderColumns, convert_address_columns, convert_entries, convert_to_indices, index_headers,
  convert_to_indices_using_headers,
}
use geocode_csv.Addresses.Indices.Header.{Points, index_headers-Points}
use geocode_csv.Addresses.Indices.Names.{
  ColumnsNamed, convert_columns-ColumnsNamed, ColumnsNamed-below,
}

-- The map has an entry with these columns under this prefix.
abbrev pub HasEntry : Dict (AddressColumnKeys Text) → Text → AddressColumnKeys Text → Type 0
HasEntry [] prefix c = ⊥
HasEntry ((k, v) ∷ entries) prefix c = ((k ≡ prefix) × (v ≡ c)) ⊎ HasEntry entries prefix c

Values-insert :
    {V : Type 0} (P : V → Type 0) (k : Text) (v : V) (m : Dict V)
    → P v
    → Values P m
    → Values P (insert k v m)
Values-insert P k v [] p h = (p, tt)
Values-insert P k v ((j, u) ∷ m) p (q, h) = elim (Bool-cases (text_eq j k)) [
  | inl same ↦ rw same (p, h)
  | inr other ↦ rw other (q, Values-insert P k v m p h)
]

-- What is found in a map into which an entry was put.
lookup-insert_found :
    {V : Type 0} (k other : Text) (v u : V) (m : Dict V)
    → lookup other (insert k v m) ≡ some u
    → ((k ≡ other) × (v ≡ u)) ⊎ (lookup other m ≡ some u)
lookup-insert_found k other v u m e = elim (Bool-cases (text_eq k other)) [
  | inl same ↦
      let found : some v ≡ some u = rw (lookup-insert m k other v, same) at e in
      inl ((text_eq_iff k other).0 same, cc)
  | inr different ↦ inr (rw (lookup-insert m k other v, different) at e)
]

module _ (headers : StringRecord) (header_columns : HeaderColumns)
    (points : Points headers header_columns) where
  convert_entries-below :
      (entries : Dict (AddressColumnKeys Text)) (converted : Dict (AddressColumnKeys ℕ))
      {result : Dict (AddressColumnKeys ℕ)}
      → convert_entries header_columns entries converted ≡ ok result
      → Values (ColumnsBelow (length headers)) converted
      → Values (ColumnsBelow (length headers)) result
  unfolding convert_entries
  convert_entries-below [] converted {result} h v =
      let same : converted ≡ result = cc in rw (← same) v
  convert_entries-below ((prefix, c) ∷ entries) converted h v =
      let (d, e, h1) = both_ok _ (convert_address_columns header_columns c) h in
      convert_entries-below entries (insert prefix d converted) h1 (
        Values-insert (ColumnsBelow (length headers)) prefix d converted
          (ColumnsNamed-below headers c d
            (convert_columns-ColumnsNamed headers header_columns points c e))
          v)

  convert_entries-named :
      (entries : Dict (AddressColumnKeys Text)) (converted : Dict (AddressColumnKeys ℕ))
      {result : Dict (AddressColumnKeys ℕ)} (p : Text) (d : AddressColumnKeys ℕ)
      → convert_entries header_columns entries converted ≡ ok result
      → lookup p result ≡ some d
      → ((c : AddressColumnKeys Text) × HasEntry entries p c × ColumnsNamed headers c d)
        ⊎ (lookup p converted ≡ some d)
  unfolding convert_entries
  convert_entries-named [] converted {result} p d h l =
      let same : converted ≡ result = cc in inr (rw same l)
  convert_entries-named ((prefix, c) ∷ entries) converted p d h l =
      let (d', e, h1) = both_ok _ (convert_address_columns header_columns c) h in
      elim (convert_entries-named entries (insert prefix d' converted) p d h1 l) [
        | inl (c', has, named) ↦ inl (c', inr has, named)
        | inr found ↦ elim (lookup-insert_found prefix p d' d converted found) [
          | inl (same, same') ↦ inl (
            c,
            inl (same, refl),
            rw (← same') (convert_columns-ColumnsNamed headers header_columns points c e),
          )
          | inr before ↦ inr before
        ]
      ]

-- If a spec is converted for a header, then the columns that it has under a prefix are, for some
-- entry of the spec under that prefix, the columns whose names in the header that entry gives.
pub convert_to_indices_using_headers-named :
    (spec : AddressColumnSpec Text) (headers : StringRecord) {converted : AddressColumnSpec ℕ}
    (prefix : Text) (d : AddressColumnKeys ℕ)
    → convert_to_indices_using_headers spec headers ≡ ok converted
    → get converted prefix ≡ some d
    → (c : AddressColumnKeys Text) × HasEntry spec.address_columns_by_prefix prefix c
      × ColumnsNamed headers c d
unfolding convert_to_indices_using_headers convert_to_indices get
convert_to_indices_using_headers-named spec headers {converted} prefix d h l =
    let (header_columns, e, h1) = both_ok _ (index_headers 0 headers []) h in
    let (entries, e', h2) =
      both_ok _ (convert_entries header_columns spec.address_columns_by_prefix []) h1 in
    let same : record { address_columns_by_prefix = entries } ≡ converted = cc in
    let same' : entries ≡ converted.address_columns_by_prefix =
      ap (λ (s : AddressColumnSpec ℕ). s.address_columns_by_prefix) same in
    let found : lookup prefix entries ≡ some d = ap (lookup prefix) same' ∙ l in
    elim (convert_entries-named headers header_columns (index_headers-Points headers e)
      spec.address_columns_by_prefix [] prefix d e' found) [
        | inl named ↦ named
        | inr before ↦ absurd (cc)
      ]

-- All columns of a converted spec are columns of the header.
pub convert_to_indices_using_headers-below :
    (spec : AddressColumnSpec Text) (headers : StringRecord) {converted : AddressColumnSpec ℕ}
    → convert_to_indices_using_headers spec headers ≡ ok converted
    → Values (ColumnsBelow (length headers)) converted.address_columns_by_prefix
unfolding convert_to_indices_using_headers convert_to_indices
convert_to_indices_using_headers-below spec headers {converted} h =
    let (header_columns, e, h1) = both_ok _ (index_headers 0 headers []) h in
    let (entries, e', h2) =
      both_ok _ (convert_entries header_columns spec.address_columns_by_prefix []) h1 in
    let same : record { address_columns_by_prefix = entries } ≡ converted = cc in
    rw (← same) (
      convert_entries-below headers header_columns (index_headers-Points headers e)
        spec.address_columns_by_prefix [] e' tt)
