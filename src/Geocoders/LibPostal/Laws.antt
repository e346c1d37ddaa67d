-- ===== src/Geocoders/LibPostal/Laws.antt =====
-- src/geocoders/libpostal.rs: one row of components for each address.
use geocode_csv.Base.{
  suc, ◌≡◌, refl, Option, none, some, List, [], ◌∷◌, length, All, length-map, ap,
}
use geocode_csv.Base.Text.{Text}
use geocode_csv.Base.Dict.{Dict}
use geocode_csv.Base.Effect.{M}
use geocode_csv.Base.Effect.Safe.{Safe, Safe-bind, Safe-pure, Safe-weaken}
use geocode_csv.Addresses.Address.{Address}
use geocode_csv.Geocoders.{Geocoded, Implements, Answers}
use geocode_csv.Geocoders.LibPostal.{
  column_names, component_values, parse_addresses, libpostal, address_text,
}

-- Every address got a match.
abbrev pub IsMatch : Option Geocoded → Type 0
IsMatch none = ⊥
IsMatch (some g) = Unit

component_values-Fits :
    (names : List Text) (parsed : Dict Text)
    → length (component_values names parsed).column_values ≡ length names
unfolding component_values
component_values-Fits names parsed = length-map _ names

module _ {W : Type 0} {Inv : W → Type 0} (parse_address : Text → M W (Dict Text)) where
  -- If the parser keeps `Inv` and does not panic, then neither does libpostal's geocoder; it returns
  -- a match for each address, with a value for each of its columns.
  pub parse_addresses-Answers :
      ((s : Text) → Safe Inv (λ parsed. Unit) (parse_address s))
      → (xs : List Address)
      → Safe Inv
          (λ rs. Answers (length column_names) xs rs × All IsMatch rs)
          (parse_addresses parse_address xs)
  unfolding parse_addresses
  parse_addresses-Answers safe [] = Safe-pure [] ((refl, tt), tt)
  parse_addresses-Answers safe (x ∷ xs) =
      Safe-bind (parse_address (address_text x)) _ (safe (address_text x)) λ parsed u.
        Safe-bind (parse_addresses parse_address xs) _ (parse_addresses-Answers safe xs) λ rs p.
          Safe-pure _
            ((ap suc p.0.0, (component_values-Fits column_names parsed, p.0.1)), (tt, p.1))

  -- LibPostal implements the trait whenever its parser is safe.
  pub libpostal-Implements :
      ((s : Text) → Safe Inv (λ parsed. Unit) (parse_address s))
      → Implements Inv (libpostal parse_address)
  libpostal-Implements safe = record {
    calls = λ xs. Safe-weaken _ (λ rs p. p.0) (parse_addresses-Answers safe xs);
  }
