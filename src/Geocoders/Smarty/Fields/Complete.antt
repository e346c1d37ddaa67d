-- ===== src/Geocoders/Smarty/Fields/Complete.antt =====
-- src/geocoders/smarty/structures/complete.json: the fields that Smarty's responses are asked for, and
-- `Structure::complete`. The text of the file is a list of its lines, with their ends.
use geocode_csv.Base.{List, [], ◌∷◌, ◌++◌}
use geocode_csv.Base.Text.{Text, codes}
use geocode_csv.Base.Outcome.{Outcome}
use geocode_csv.Geocoders.Smarty.Fields.{Members, Structure, from_str}

abbrev pub concat : List Text → Text
concat [] = []
concat (line ∷ more) = line ++ concat more

abbrev pub complete_lines : List Text
complete_lines =
    codes "{\n"
    ∷ codes "    \"addressee\": true,\n"
    ∷ codes "    \"delivery_line_1\": true,\n"
    ∷ codes "    \"delivery_line_2\": true,\n"
    ∷ codes "    \"last_line\": true,\n"
    ∷ codes "    \"delivery_point_barcode\": true,\n"
    ∷ codes "    \"components\": {\n"
    ∷ codes "        \"urbanization\": true,\n"
    ∷ codes "        \"primary_number\": true,\n"
    ∷ codes "        \"street_name\": true,\n"
    ∷ codes "        \"street_predirection\": true,\n"
    ∷ codes "        \"street_postdirection\": true,\n"
    ∷ codes "        \"street_suffix\": true,\n"
    ∷ codes "        \"secondary_number\": true,\n"
    ∷ codes "        \"secondary_designator\": true,\n"
    ∷ codes "        \"extra_secondary_number\": true,\n"
    ∷ codes "        \"extra_secondary_designator\": true,\n"
    ∷ codes "        \"pmb_designator\": true,\n"
    ∷ codes "        \"pmb_number\": true,\n"
    ∷ codes "        \"city_name\": true,\n"
    ∷ codes "        \"default_city_name\": true,\n"
    ∷ codes "        \"state_abbreviation\": true,\n"
    ∷ codes "        \"zipcode\": true,\n"
    ∷ codes "        \"plus4_code\": true,\n"
    ∷ codes "        \"delivery_point\": true,\n"
    ∷ codes "        \"delivery_point_check_digit\": true\n"
    ∷ codes "    },\n"
    ∷ codes "    \"metadata\": {\n"
    ∷ codes "        \"record_type\": true,\n"
    ∷ codes "        \"zip_type\": true,\n"
    ∷ codes "        \"county_fips\": true,\n"
    ∷ codes "        \"county_name\": true,\n"
    ∷ codes "        \"carrier_route\": true,\n"
    ∷ codes "        \"congressional_district\": true,\n"
    ∷ codes "        \"building_default_indicator\": true,\n"
    ∷ codes "        \"rdi\": true,\n"
    ∷ codes "        \"elot_sequence\": true,\n"
    ∷ codes "        \"elot_sort\": true,\n"
    ∷ codes "        \"latitude\": true,\n"
    ∷ codes "        \"longitude\": true,\n"
    ∷ codes "        \"precision\": true,\n"
    ∷ codes "        \"time_zone\": true,\n"
    ∷ codes "        \"utc_offset\": true,\n"
    ∷ codes "        \"dst\": true\n"
    ∷ codes "    },\n"
    ∷ codes "    \"analysis\": {\n"
    ∷ codes "        \"dpv_match_code\": true,\n"
    ∷ codes "        \"dpv_footnotes\": true,\n"
    ∷ codes "        \"dpv_cmra\": true,\n"
    ∷ codes "        \"dpv_vacant\": true,\n"
    ∷ codes "        \"active\": true,\n"
    ∷ codes "        \"ews_match\": true,\n"
    ∷ codes "        \"footnotes\": true,\n"
    ∷ codes "        \"lacslink_code\": true,\n"
    ∷ codes "        \"lacslink_indicator\": true,\n"
    ∷ codes "        \"suitelink_match\": true\n"
    ∷ codes "    }\n"
    ∷ codes "}\n"
    ∷ []

-- `COMPLETE`
abbrev pub complete_json : Text
complete_json = concat complete_lines

unfoldable pub complete : (Text → Outcome Members) → Outcome Structure
unfolding from_str
complete from_json = from_str from_json complete_json
