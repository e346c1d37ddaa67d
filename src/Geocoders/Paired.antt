-- ===== src/Geocoders/Paired.antt =====
-- src/geocoders/paired.rs: run two geocoders and return both results.
pub mod Laws
use geocode_csv.Base.{
  ℕ, Option, none, some, List, [], ◌∷◌, ◌++◌, map, length, replicate, ◌==◌, if◌then◌else◌,
}
use geocode_csv.Base.Text.{Text, codes}
use geocode_csv.Base.Outcome.{wrong_number_of_results}
use geocode_csv.Base.Effect.{M, pure, raise, ◌>>=◌}
use geocode_csv.Addresses.Address.{Address}
use geocode_csv.Geocoders.{Geocoder, Geocoded, concat_geocoded}

-- `vec!["".to_owned(); n]` as a result
abbrev pub empty_output : ℕ → Geocoded
empty_output n = record { column_values = replicate n [] }

unfoldable pub combine_geocoder_results :
    Geocoded → Geocoded → Option Geocoded → Option Geocoded → Option Geocoded
unfolding concat_geocoded
combine_geocoder_results fst_empty snd_empty none none = none
combine_geocoder_results fst_empty snd_empty (some f) none = some (concat_geocoded f snd_empty)
combine_geocoder_results fst_empty snd_empty none (some s) = some (concat_geocoded fst_empty s)
combine_geocoder_results fst_empty snd_empty (some f) (some s) = some (concat_geocoded f s)

-- `fst.into_iter().zip(snd).map(…).collect()`
unfoldable pub zip_combine :
    (Option Geocoded → Option Geocoded → Option Geocoded)
    → List (Option Geocoded)
    → List (Option Geocoded)
    → List (Option Geocoded)
zip_combine f [] snd = []
zip_combine f (x ∷ fst) [] = []
zip_combine f (x ∷ fst) (y ∷ snd) = f x y ∷ zip_combine f fst snd

module _ {W : Type 0} (fst : Geocoder W) (snd_label : Text) (snd : Geocoder W) where
  unfoldable pub geocode_both : List Address → M W (List (Option Geocoded))
  unfolding combine_geocoder_results zip_combine
  geocode_both addresses = do
    fs ← fst.geocode_addresses addresses
    ss ← snd.geocode_addresses addresses
    let combine =
        combine_geocoder_results (empty_output (length fst.column_names))
          (empty_output (length snd.column_names))
    if length fs == length ss
        then pure (zip_combine combine fs ss)
        else raise (wrong_number_of_results (length fs) (length ss))

  -- `Paired::new`
  abbrev pub paired : Geocoder W
  paired = record {
    tag = codes "pair";
    configuration_key = fst.configuration_key ++ (b'+' ∷ snd.configuration_key);
    column_names = fst.column_names ++ map (λ c. snd_label ++ (b'_' ∷ c)) snd.column_names;
    geocode_addresses = geocode_both;
  }
