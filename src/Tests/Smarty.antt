-- ===== src/Tests/Smarty.antt =====
-- Witnesses for src/geocoders/smarty.
use geocode_csv.Base.{ℕ, ◌≡◌, refl, true, false, none, List, [], ◌∷◌, length}
use geocode_csv.Base.Text.{Text, codes}
use geocode_csv.Base.Outcome.{Outcome, ok, Ensures}
use geocode_csv.Geocoders.{Implements}
use geocode_csv.Geocoders.MatchStrategy.{strict}
use geocode_csv.Geocoders.Smarty.Fields.{
  Value, bool, number, object, Members, no_members, member_then, Structure, from_str,
  output_column_names, value_columns_for, traverse, traverse_map, column_name,
}
use geocode_csv.Geocoders.Smarty.Fields.Complete.{complete}
use geocode_csv.Geocoders.Smarty.Counts.{HasColumns, from_str-HasColumns}
use geocode_csv.Geocoders.Smarty.{Service, smarty, acquire_permits}
use geocode_csv.Geocoders.Smarty.Laws.{smarty-Implements, value_columns_for-SameLength, ServiceSafe}
use geocode_csv.Tests.Data.{Any}

abbrev pub structure : Structure
structure = record {
  column_count = 2;
  fields = member_then (codes "line") (bool true) (
      member_then (codes "meta")
        (object (
          member_then (codes "lat") (bool true)
            (member_then (codes "lon") (bool false) no_members)))
        no_members);
}

abbrev names : List Text
names = codes "line" ∷ codes "lat" ∷ []

named : output_column_names structure ≡ ok names
unfolding output_column_names traverse traverse_map column_name
named = refl

abbrev data' : Value
data' = object (
    member_then (codes "meta")
      (object (member_then (codes "lat") (number (codes "1.5")) no_members)) no_members)

values_of_structure : Ensures (λ values. length values ≡ 2) (value_columns_for structure data')
values_of_structure = value_columns_for-SameLength structure data' named

-- A JSON reader that knows one text.
abbrev read_fields : Text → Outcome Members
read_fields s = ok structure.fields

read : from_str read_fields [] ≡ ok structure
unfolding from_str traverse traverse_map
read = refl

from_str-HasColumns_example : HasColumns 2 structure
from_str-HasColumns_example = from_str-HasColumns read_fields [] structure read

-- A service that always gives one response.
abbrev pub service : Service ℕ
service = record {
  request = λ license requests w. (ok (record { status = 200; body = [] }), w);
  from_slice = λ body. ok (record { input_index = 0; fields = data' } ∷ []);
  acquire = none;
}

pub service-safe : ServiceSafe Any service
service-safe = record {
  requests = λ license rs. record { at = λ w i. (tt, tt) };
  parses = λ body. tt;
  permits = λ n. unfold acquire_permits in record { at = λ w i. (tt, tt) };
}

smarty_geocoder : Implements Any (smarty service structure strict (codes "us") (codes "key") names)
smarty_geocoder =
    smarty-Implements service structure strict (codes "us") (codes "key") names named service-safe

abbrev components_fields : Members
components_fields = member_then (codes "urbanization") (bool true) (
    member_then (codes "primary_number") (bool true) (
      member_then (codes "street_name") (bool true) (
        member_then (codes "street_predirection") (bool true) (
          member_then (codes "street_postdirection") (bool true) (
            member_then (codes "street_suffix") (bool true) (
              member_then (codes "secondary_number") (bool true) (
                member_then (codes "secondary_designator") (bool true) (
                  member_then (codes "extra_secondary_number") (bool true) (
                    member_then (codes "extra_secondary_designator") (bool true) (
                      member_then (codes "pmb_designator") (bool true) (
                        member_then (codes "pmb_number") (bool true) (
                          member_then (codes "city_name") (bool true) (
                            member_then (codes "default_city_name") (bool true) (
                              member_then (codes "state_abbreviation") (bool true) (
                                member_then (codes "zipcode") (bool true) (
                                  member_then (codes "plus4_code") (bool true) (
                                    member_then (codes "delivery_point") (bool true) (
                                      member_then (codes "delivery_point_check_digit") (bool true)
                                        no_members))))))))))))))))))

abbrev metadata_fields : Members
metadata_fields = member_then (codes "record_type") (bool true) (
    member_then (codes "zip_type") (bool true) (
      member_then (codes "county_fips") (bool true) (
        member_then (codes "county_name") (bool true) (
          member_then (codes "carrier_route") (bool true) (
            member_then (codes "congressional_district") (bool true) (
              member_then (codes "building_default_indicator") (bool true) (
                member_then (codes "rdi") (bool true) (
                  member_then (codes "elot_sequence") (bool true) (
                    member_then (codes "elot_sort") (bool true) (
                      member_then (codes "latitude") (bool true) (
                        member_then (codes "longitude") (bool true) (
                          member_then (codes "precision") (bool true) (
                            member_then (codes "time_zone") (bool true) (
                              member_then (codes "utc_offset") (bool true)
                                (member_then (codes "dst") (bool true) no_members)))))))))))))))

abbrev analysis_fields : Members
analysis_fields = member_then (codes "dpv_match_code") (bool true) (
    member_then (codes "dpv_footnotes") (bool true) (
      member_then (codes "dpv_cmra") (bool true) (
        member_then (codes "dpv_vacant") (bool true) (
          member_then (codes "active") (bool true) (
            member_then (codes "ews_match") (bool true) (
              member_then (codes "footnotes") (bool true) (
                member_then (codes "lacslink_code") (bool true) (
                  member_then (codes "lacslink_indicator") (bool true)
                    (member_then (codes "suitelink_match") (bool true) no_members)))))))))

-- What the text of complete.json says.
abbrev pub complete_fields : Members
complete_fields = member_then (codes "addressee") (bool true) (
    member_then (codes "delivery_line_1") (bool true) (
      member_then (codes "delivery_line_2") (bool true) (
        member_then (codes "last_line") (bool true) (
          member_then (codes "delivery_point_barcode") (bool true) (
            member_then (codes "components") (object components_fields) (
              member_then (codes "metadata") (object metadata_fields)
                (member_then (codes "analysis") (object analysis_fields) no_members)))))))

abbrev complete_names : List Text
complete_names =
    codes "addressee"
    ∷ codes "delivery_line_1"
    ∷ codes "delivery_line_2"
    ∷ codes "last_line"
    ∷ codes "delivery_point_barcode"
    ∷ codes "urbanization"
    ∷ codes "primary_number"
    ∷ codes "street_name"
    ∷ codes "street_predirection"
    ∷ codes "street_postdirection"
    ∷ codes "street_suffix"
    ∷ codes "secondary_number"
    ∷ codes "secondary_designator"
    ∷ codes "extra_secondary_number"
    ∷ codes "extra_secondary_designator"
    ∷ codes "pmb_designator"
    ∷ codes "pmb_number"
    ∷ codes "city_name"
    ∷ codes "default_city_name"
    ∷ codes "state_abbreviation"
    ∷ codes "zipcode"
    ∷ codes "plus4_code"
    ∷ codes "delivery_point"
    ∷ codes "delivery_point_check_digit"
    ∷ codes "record_type"
    ∷ codes "zip_type"
    ∷ codes "county_fips"
    ∷ codes "county_name"
    ∷ codes "carrier_route"
    ∷ codes "congressional_district"
    ∷ codes "building_default_indicator"
    ∷ codes "rdi"
    ∷ codes "elot_sequence"
    ∷ codes "elot_sort"
    ∷ codes "latitude"
    ∷ codes "longitude"
    ∷ codes "precision"
    ∷ codes "time_zone"
    ∷ codes "utc_offset"
    ∷ codes "dst"
    ∷ codes "dpv_match_code"
    ∷ codes "dpv_footnotes"
    ∷ codes "dpv_cmra"
    ∷ codes "dpv_vacant"
    ∷ codes "active"
    ∷ codes "ews_match"
    ∷ codes "footnotes"
    ∷ codes "lacslink_code"
    ∷ codes "lacslink_indicator"
    ∷ codes "suitelink_match"
    ∷ []

-- The names that the test of structure.rs expects.
complete_named :
    (complete (λ s. ok complete_fields)
      ≡ ok (record { column_count = 50; fields = complete_fields }))
    × (output_column_names (record { column_count = 50; fields = complete_fields })
        ≡ ok complete_names)
unfolding complete from_str output_column_names traverse traverse_map column_name
complete_named = (refl, refl)
