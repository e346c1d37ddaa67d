-- ===== src/Tests/Addresses.antt =====
-- Witnesses and runs for src/addresses.rs.
use mathlib.Core.List.Permᴰ.{swap}
use geocode_csv.Base.{ℕ, ◌≡◌, refl, none, some, [], ◌∷◌, All}
use geocode_csv.Base.Text.{Text, codes}
use geocode_csv.Base.Outcome.{ok}
use geocode_csv.Addresses.Columns.{StringRecord, key, keys, append_column, extract_from_record}
use geocode_csv.Addresses.Columns.Extract.{HoldsColumn, extract_from_record-keeps}
use geocode_csv.Addresses.Spec.{AddressColumnSpec, prefixes, get}
use geocode_csv.Addresses.Spec.Order.{prefixes-Perm}
use geocode_csv.Tests.Data.{spec}

abbrev row : StringRecord
row = codes "100" ∷ codes "Main Street #302" ∷ codes "#302" ∷ []

extracted : extract_from_record (keys (0 ∷ 1 ∷ 2 ∷ [])) row ≡ ok (codes "100 Main Street #302")
unfolding extract_from_record append_column
extracted = refl

extract_from_record-keeps_example :
    All (HoldsColumn row (codes "100 Main Street #302")) (0 ∷ 1 ∷ 2 ∷ [])
extract_from_record-keeps_example = extract_from_record-keeps (0 ∷ 1 ∷ 2 ∷ []) row extracted

-- The entries of `spec` in the other order.
abbrev swapped : AddressColumnSpec ℕ
swapped = record {
  address_columns_by_prefix =
      (
        codes "home",
        record { street = keys (0 ∷ 1 ∷ []); city = some 0; state = none; zipcode = none },
      )
      ∷ (codes "work", record { street = key 1; city = none; state = none; zipcode = none })
      ∷ [];
}

prefixes-Perm_example :
    (prefixes spec ≡ prefixes swapped) × ((prefix : Text) → get spec prefix ≡ get swapped prefix)
prefixes-Perm_example = prefixes-Perm spec swapped (swap refl refl) (refl, (refl, tt))
