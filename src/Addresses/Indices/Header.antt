-- ===== src/Addresses/Indices/Header.antt =====
-- src/addresses.rs: the map from column names to indices points to the columns of those names.
use geocode_csv.Base.{
  ℕ, zero, suc, ◌+◌, ◌<◌, ◌≡◌, ap, ◌∙◌, some, List, [], ◌∷◌, length, get_elem?, arith, Bool-cases,
  Option-cases, inl, inr,
}
use geocode_csv.Base.Text.{Text, text_eq, text_eq_iff}
use geocode_csv.Base.Dict.{lookup, insert, lookup-insert}
use geocode_csv.Base.Outcome.{ok, err, missing_column, duplicate_header_column}
use geocode_csv.Addresses.Columns.{StringRecord}
use geocode_csv.Addresses.Indices.{HeaderColumns, index_headers, convert_name}

-- Column `i` of the header has this name.
abbrev pub IsNamed : StringRecord → Text → ℕ → Type 0
IsNamed headers name i = get_elem? headers i ≡ some name

abbrev pub Points : StringRecord → HeaderColumns → Type 0
Points headers header_columns =
    (name : Text) (i : ℕ) → lookup name header_columns ≡ some i → IsNamed headers name i

pub get_elem?-below :
    {A : Type 0} (xs : List A) (i : ℕ) {a : A} → get_elem? xs i ≡ some a → i < length xs
get_elem?-below [] i h = cc
get_elem?-below (x ∷ xs) zero h = omega arith
get_elem?-below (x ∷ xs) (suc i) h = omega (arith, get_elem?-below xs i h)

module _ (headers : StringRecord) where
  insert-Points :
      (name : Text) (i : ℕ) (header_columns : HeaderColumns)
      → IsNamed headers name i
      → Points headers header_columns
      → Points headers (insert name i header_columns)
  insert-Points name i header_columns h p other j e = elim (Bool-cases (text_eq name other)) [
    | inl same ↦
        let found : some i ≡ some j = rw (lookup-insert header_columns name other i, same) at e in
        cc (h, found, (text_eq_iff name other).0 same)
    | inr different ↦ p other j (rw (lookup-insert header_columns name other i, different) at e)
  ]

  index_headers-Points_from :
      (idx : ℕ) (rest : StringRecord) (header_columns : HeaderColumns) {result : HeaderColumns}
      → ((j : ℕ) → get_elem? headers (idx + j) ≡ get_elem? rest j)
      → Points headers header_columns
      → index_headers idx rest header_columns ≡ ok result
      → Points headers result
  unfolding index_headers
  index_headers-Points_from idx [] header_columns {result} position p h =
      let h' : ok header_columns ≡ ok result = h in
      let same : header_columns ≡ result = cc in λ name i e. p name i (rw same e)
  index_headers-Points_from idx (header ∷ rest) header_columns {result} position p h =
      elim (Option-cases (lookup header header_columns)) [
        | inl new ↦
            let h' : index_headers (suc idx) rest (insert header idx header_columns) ≡ ok result =
              rw (index_headers, new) at h in
            let here : IsNamed headers header idx =
              ap (get_elem? headers) (omega arith) ∙ position 0 in
            index_headers-Points_from (suc idx) rest (insert header idx header_columns)
              (λ j. ap (get_elem? headers) (omega arith) ∙ position (suc j))
              (insert-Points header idx header_columns here p) h'
        | inr (old, e) ↦
            let h' : err (duplicate_header_column header) ≡ ok result =
              rw (index_headers, e) at h in
            absurd (cc)
      ]

  pub convert_name-IsNamed :
      (header_columns : HeaderColumns) (name : Text) {i : ℕ}
      → Points headers header_columns
      → convert_name header_columns name ≡ ok i
      → IsNamed headers name i
  unfolding convert_name
  convert_name-IsNamed header_columns name {i} p h =
      elim (Option-cases (lookup name header_columns)) [
        | inl missing ↦ let h' : err (missing_column name) ≡ ok i = rw missing at h in absurd (cc)
        | inr (j, e) ↦ let h' : ok j ≡ ok i = rw e at h in cc (p name j e)
      ]

  -- The map of a header whose names differ points to its columns.
  pub index_headers-Points :
      {header_columns : HeaderColumns}
      → index_headers 0 headers [] ≡ ok header_columns
      → Points headers header_columns
  index_headers-Points h =
      index_headers-Points_from 0 headers [] (λ j. ap (get_elem? headers) (omega arith))
        (λ name i e. cc) h
