-- ===== src/Server.antt =====
-- src/server.rs: the handler of POST /geocode. axum reads the body into addresses and prints the
-- reply as JSON.
pub mod Laws
pub mod Run
use geocode_csv.Base.{ℕ, ◌≡◌, Option, none, some, List, [], ◌∷◌, map, if◌then◌else◌}
use geocode_csv.Base.Text.{Text, codes, text_eq}
use geocode_csv.Base.Dict.{Dict, lookup, insert}
use geocode_csv.Base.Outcome.{Outcome, ok, err, panicked, Error, missing_header, unexpected_header}
use geocode_csv.Base.Effect.{M}
use geocode_csv.Addresses.Address.{Address}
use geocode_csv.Geocoders.{Geocoder, Geocoded}

-- `Result<(StatusCode, Json<GeocodeResponse>), (StatusCode, Json<ErrorResponse>)>`
pub data Reply : Type 0 where
  geocode_response : ℕ → List (Option (Dict Text)) → Reply
  error_response : ℕ → Error → Reply

abbrev pub content_type : Text
content_type = codes "content-type"

-- `headers` gives the first value of each header, by its name in lowercase. The header that is read
-- is always the content type: `header_name` is only used in messages.
unfoldable pub expect_header_value : Dict Text → Text → Text → Outcome (Unit {0})
expect_header_value headers header_name expected = elim (lookup content_type headers) [
  | none ↦ err (missing_header header_name)
  | some v ↦ if text_eq v expected then ok tt else err (unexpected_header header_name v)
]

-- `HashMap::from_iter` of a `zip`, into a map.
unfoldable pub insert_columns : List Text → List Text → Dict Text → Dict Text
insert_columns [] values columns = columns
insert_columns (name ∷ names) [] columns = columns
insert_columns (name ∷ names) (value ∷ values) columns =
    insert_columns names values (insert name value columns)

unfoldable pub hash_from_geocoded : List Text → Geocoded → Dict Text
unfolding insert_columns
hash_from_geocoded column_names geocoded = insert_columns column_names geocoded.column_values []

unfoldable pub result_for : List Text → Option Geocoded → Option (Dict Text)
unfolding hash_from_geocoded
result_for column_names none = none
result_for column_names (some geocoded) = some (hash_from_geocoded column_names geocoded)

unfoldable pub reply_for : List Text → Outcome (List (Option Geocoded)) → Outcome Reply
unfolding result_for
reply_for column_names (ok geocoded) =
    ok (geocode_response 200 (map (result_for column_names) geocoded))
reply_for column_names (err e) = ok (error_response 500 e)
reply_for column_names panicked = panicked

module _ {W : Type 0} (geocoder : Geocoder W) where
  unfoldable pub geocode_body : List Address → M W Reply
  unfolding reply_for
  geocode_body addresses w =
      let called = geocoder.geocode_addresses addresses w in
      (reply_for geocoder.column_names called.0, called.1)

  unfoldable pub handle_post_geocode : Dict Text → List Address → M W Reply
  unfolding expect_header_value geocode_body
  handle_post_geocode headers addresses w =
      elim (expect_header_value headers content_type (codes "application/json")) [
        | err e ↦ (ok (error_response 400 e), w)
        | panicked ↦ (panicked, w)
        | ok checked ↦ geocode_body addresses w
      ]
