-- ===== src/Tests/Data.antt =====
-- Test data that the tests share.
use geocode_csv.Base.{
  ℕ, suc, refl, ap, Option, none, some, List, [], ◌∷◌, ltb, if◌then◌else◌, arith,
}
use geocode_csv.Base.Text.{Text, codes}
use geocode_csv.Base.Dict.{Dict}
use geocode_csv.Base.Outcome.{ok, err, external}
use geocode_csv.Base.Effect.{M}
use geocode_csv.Base.Effect.Safe.{Safe}
use geocode_csv.Addresses.Address.{Address}
use geocode_csv.Addresses.Columns.{key, keys}
use geocode_csv.Addresses.Spec.{AddressColumnSpec}
use geocode_csv.Geocoders.{Geocoder, Geocoded, Implements, Answers}

abbrev pub address : Text → Address
address street = record { street = street; city = none; state = none; zipcode = none }

-- A geocoder of two columns. The world counts the calls; the first `fails` calls fail.
abbrev pub found : Address → Option Geocoded
found a = some (record { column_values = a.street ∷ codes "US" ∷ [] })

abbrev pub answer : List Address → List (Option Geocoded)
answer [] = []
answer (a ∷ xs) = found a ∷ answer xs

abbrev pub flaky : ℕ → Geocoder ℕ
flaky fails = record {
  tag = codes "t";
  configuration_key = codes "c";
  column_names = codes "line" ∷ codes "country" ∷ [];
  geocode_addresses = λ xs w. (if ltb w fails then err (external w) else ok (answer xs), suc w);
}

answer-Answers : (xs : List Address) → Answers 2 xs (answer xs)
answer-Answers [] = (refl, tt)
answer-Answers (x ∷ xs) = let (l, f) = answer-Answers xs in (ap suc l, (refl, f))

abbrev pub Any : ℕ → Type 0
Any w = Unit

pub flaky-Implements : (fails : ℕ) → Implements Any (flaky fails)
flaky-Implements fails = record {
  calls = λ xs. record { at = λ w i. (tt, ground (arith, answer-Answers xs)) };
}

-- A parser that knows one component.
abbrev pub parse_road : Text → M ℕ (Dict Text)
parse_road s w = (ok ((codes "road", s) ∷ []), suc w)

pub parse_road-Safe : (s : Text) → Safe Any (λ parsed. Unit) (parse_road s)
parse_road-Safe s = record { at = λ w i. (tt, tt) }

abbrev pub spec : AddressColumnSpec ℕ
spec = record {
  address_columns_by_prefix =
      (codes "work", record { street = key 1; city = none; state = none; zipcode = none })
      ∷ (
        codes "home",
        record { street = keys (0 ∷ 1 ∷ []); city = some 0; state = none; zipcode = none },
      )
      ∷ [];
}
