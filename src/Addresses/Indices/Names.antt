-- ===== src/Addresses/Indices/Names.antt =====
-- src/addresses.rs: the converted columns of an address are those that its keys name.
use geocode_csv.Base.{ℕ, ◌<◌, ◌≡◌, Option, none, some, List, [], ◌∷◌, length, All}
use geocode_csv.Base.Text.{Text}
use geocode_csv.Base.Outcome.{ok, both_ok}
use geocode_csv.Addresses.Columns.{ColumnKeyOrKeys, key, keys, AddressColumnKeys, StringRecord}
use geocode_csv.Addresses.Columns.Extract.{KeyBelow, OptionBelow, ColumnsBelow}
use geocode_csv.Addresses.Indices.{
  HeaderColumns, convert_name, convert_names, convert_key_or_keys, convert_optional,
  convert_address_columns,
}
use geocode_csv.Addresses.Indices.Header.{IsNamed, Points, get_elem?-below, convert_name-IsNamed}

-- The columns of an address in the header, by the names of their keys.
abbrev pub AreNamed : StringRecord → List Text → List ℕ → Type 0
AreNamed headers [] [] = Unit
AreNamed headers [] (i ∷ is) = ⊥
AreNamed headers (k ∷ ks) [] = ⊥
AreNamed headers (k ∷ ks) (i ∷ is) = IsNamed headers k i × AreNamed headers ks is

abbrev pub KeyNamed : StringRecord → ColumnKeyOrKeys Text → ColumnKeyOrKeys ℕ → Type 0
KeyNamed headers (key k) (key i) = IsNamed headers k i
KeyNamed headers (key k) (keys is) = ⊥
KeyNamed headers (keys ks) (key i) = ⊥
KeyNamed headers (keys ks) (keys is) = AreNamed headers ks is

abbrev pub OptionNamed : StringRecord → Option Text → Option ℕ → Type 0
OptionNamed headers none none = Unit
OptionNamed headers none (some i) = ⊥
OptionNamed headers (some k) none = ⊥
OptionNamed headers (some k) (some i) = IsNamed headers k i

abbrev pub ColumnsNamed : StringRecord → AddressColumnKeys Text → AddressColumnKeys ℕ → Type 0
ColumnsNamed headers c d =
    KeyNamed headers c.street d.street
    × OptionNamed headers c.city d.city
    × OptionNamed headers c.state d.state
    × OptionNamed headers c.zipcode d.zipcode

module _ (headers : StringRecord) (header_columns : HeaderColumns)
    (points : Points headers header_columns) where
  convert_names-AreNamed :
      (ks : List Text) {result : List ℕ}
      → convert_names header_columns ks ≡ ok result
      → AreNamed headers ks result
  unfolding convert_names
  convert_names-AreNamed [] {result} h = let same : [] ≡ result = cc in rw (← same) tt
  convert_names-AreNamed (k ∷ ks) {result} h =
      let (i, e, h1) = both_ok _ (convert_name header_columns k) h in
      let (is, e', h2) = both_ok _ (convert_names header_columns ks) h1 in
      let same : i ∷ is ≡ result = cc in
      rw (← same)
        (convert_name-IsNamed headers header_columns k points e, convert_names-AreNamed ks e')

  convert_key-KeyNamed :
      (k : ColumnKeyOrKeys Text) {result : ColumnKeyOrKeys ℕ}
      → convert_key_or_keys header_columns k ≡ ok result
      → KeyNamed headers k result
  unfolding convert_key_or_keys
  convert_key-KeyNamed (key k) {result} h =
      let (i, e, h1) = both_ok _ (convert_name header_columns k) h in
      let same : key i ≡ result = cc in
      rw (← same) (convert_name-IsNamed headers header_columns k points e)
  convert_key-KeyNamed (keys ks) {result} h =
      let (is, e, h1) = both_ok _ (convert_names header_columns ks) h in
      let same : keys is ≡ result = cc in rw (← same) (convert_names-AreNamed ks e)

  convert_optional-OptionNamed :
      (k : Option Text) {result : Option ℕ}
      → convert_optional header_columns k ≡ ok result
      → OptionNamed headers k result
  unfolding convert_optional
  convert_optional-OptionNamed none {result} h = let same : none ≡ result = cc in rw (← same) tt
  convert_optional-OptionNamed (some k) {result} h =
      let (i, e, h1) = both_ok _ (convert_name header_columns k) h in
      let same : some i ≡ result = cc in
      rw (← same) (convert_name-IsNamed headers header_columns k points e)

  pub convert_columns-ColumnsNamed :
      (c : AddressColumnKeys Text) {d : AddressColumnKeys ℕ}
      → convert_address_columns header_columns c ≡ ok d
      → ColumnsNamed headers c d
  unfolding convert_address_columns
  convert_columns-ColumnsNamed c {d} h =
      let (s, e, h1) = both_ok _ (convert_key_or_keys header_columns c.street) h in
      let (t, e', h2) = both_ok _ (convert_optional header_columns c.city) h1 in
      let (u, e'', h3) = both_ok _ (convert_optional header_columns c.state) h2 in
      let (z, e''', h4) = both_ok _ (convert_optional header_columns c.zipcode) h3 in
      let same : record { street = s; city = t; state = u; zipcode = z } ≡ d = cc in
      rw (← same) (
        convert_key-KeyNamed c.street e,
        convert_optional-OptionNamed c.city e',
        convert_optional-OptionNamed c.state e'',
        convert_optional-OptionNamed c.zipcode e''',
      )

-- Columns that have names in the header are columns of the header.
AreNamed-below :
    (headers : StringRecord) (ks : List Text) (is : List ℕ)
    → AreNamed headers ks is
    → All (λ i. i < length headers) is
AreNamed-below headers [] [] h = tt
AreNamed-below headers [] (i ∷ is) h = absurd h
AreNamed-below headers (k ∷ ks) [] h = absurd h
AreNamed-below headers (k ∷ ks) (i ∷ is) (h, hs) =
    (get_elem?-below headers i h, AreNamed-below headers ks is hs)

KeyNamed-below :
    (headers : StringRecord) (k : ColumnKeyOrKeys Text) (i : ColumnKeyOrKeys ℕ)
    → KeyNamed headers k i
    → KeyBelow (length headers) i
KeyNamed-below headers (key k) (key i) h = get_elem?-below headers i h
KeyNamed-below headers (key k) (keys is) h = absurd h
KeyNamed-below headers (keys ks) (key i) h = absurd h
KeyNamed-below headers (keys ks) (keys is) h = AreNamed-below headers ks is h

OptionNamed-below :
    (headers : StringRecord) (k : Option Text) (i : Option ℕ)
    → OptionNamed headers k i
    → OptionBelow (length headers) i
OptionNamed-below headers none none h = tt
OptionNamed-below headers none (some i) h = absurd h
OptionNamed-below headers (some k) none h = absurd h
OptionNamed-below headers (some k) (some i) h = get_elem?-below headers i h

pub ColumnsNamed-below :
    (headers : StringRecord) (c : AddressColumnKeys Text) (d : AddressColumnKeys ℕ)
    → ColumnsNamed headers c d
    → ColumnsBelow (length headers) d
ColumnsNamed-below headers c d (s, t, u, z) = (
  KeyNamed-below headers c.street d.street s,
  OptionNamed-below headers c.city d.city t,
  OptionNamed-below headers c.state d.state u,
  OptionNamed-below headers c.zipcode d.zipcode z,
)
