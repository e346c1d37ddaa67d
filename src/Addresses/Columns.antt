-- ===== src/Addresses/Columns.antt =====
-- src/addresses.rs: which columns hold an address, and its extraction from a row.
pub mod Extract
use geocode_csv.Base.{ℕ, Option, none, some, List, [], ◌∷◌, ◌++◌, get_elem?, if◌then◌else◌}
use geocode_csv.Base.Text.{Text, is_empty, ends_with}
use geocode_csv.Base.Outcome.{Outcome, ok, expect, ◌>>=◌}
use geocode_csv.Addresses.Address.{Address}

-- `csv::StringRecord`
abbrev pub StringRecord : Type 0
StringRecord = List Text

-- `record[i]`, which panics out of range
abbrev pub column : StringRecord → ℕ → Outcome Text
column record' i = expect (get_elem? record' i)

pub data ColumnKeyOrKeys (K : Type 0) : Type 0 where
  key : K → ColumnKeyOrKeys K
  keys : List K → ColumnKeyOrKeys K

-- One round of the loop: what is appended for a column.
unfoldable pub append_column : Text → Text → Text
append_column extracted s =
    if is_empty extracted
    then extracted ++ s
    else if ends_with extracted s
    then extracted
    else extracted ++ (b' ' ∷ s)

unfoldable pub extract_keys : List ℕ → StringRecord → Text → Outcome Text
extract_keys [] row extracted = ok extracted
extract_keys (k ∷ ks) row extracted = do
  s ← column row k
  extract_keys ks row (append_column extracted s)

unfoldable pub extract_from_record : ColumnKeyOrKeys ℕ → StringRecord → Outcome Text
unfolding extract_keys
extract_from_record (key k) row = column row k
extract_from_record (keys ks) row = extract_keys ks row []

pub record AddressColumnKeys (K : Type 0) : Type 0 where
  pub street : ColumnKeyOrKeys K
  pub city : Option K
  pub state : Option K
  pub zipcode : Option K

-- `self.city.map(|c| record[c].to_owned())`
unfoldable pub extract_optional : Option ℕ → StringRecord → Outcome (Option Text)
extract_optional none row = ok none
extract_optional (some c) row = do s ← column row c; ok (some s)

unfoldable pub extract_address_from_record : AddressColumnKeys ℕ → StringRecord → Outcome Address
unfolding extract_from_record extract_optional
extract_address_from_record columns row = do
  street ← extract_from_record columns.street row
  city ← extract_optional columns.city row
  state ← extract_optional columns.state row
  zipcode ← extract_optional columns.zipcode row
  ok (record { street = street; city = city; state = state; zipcode = zipcode })
