-- ===== src/Tests/Server.antt =====
-- Witnesses for src/server.rs.
use geocode_csv.Base.{◌≡◌, ◌≢◌, ◌⊎◌, refl, some, List, [], ◌∷◌}
use geocode_csv.Base.Text.{Text, codes}
use geocode_csv.Base.Dict.{Dict, lookup}
use geocode_csv.Base.Outcome.{ok, Error}
use geocode_csv.Addresses.Address.{Address}
use geocode_csv.Server.{
  Reply, geocode_response, error_response, content_type, expect_header_value, insert_columns,
  hash_from_geocoded, result_for, reply_for, geocode_body, handle_post_geocode,
}
use geocode_csv.Server.Laws.{RepliesTo, handle_post_geocode-replies}
use geocode_csv.Tests.Data.{address, flaky, flaky-Implements, answer}

abbrev headers : Dict Text
headers = (content_type, codes "application/json") ∷ []

abbrev home : List Address
home = address (codes "home") ∷ []

served : handle_post_geocode (flaky 0) headers home 0 ≡ (
  ok (
      geocode_response 200
        (some ((codes "line", codes "home") ∷ (codes "country", codes "US") ∷ []) ∷ [])),
  1,
)
unfolding handle_post_geocode expect_header_value insert_columns hash_from_geocoded result_for
    reply_for geocode_body
served = refl

handle_post_geocode-replies_example :
    ((lookup content_type headers ≡ some (codes "application/json"))
      × (reply : Reply) × (handle_post_geocode (flaky 0) headers home 0 ≡ (ok reply, 1))
      × RepliesTo (codes "line" ∷ codes "country" ∷ []) home (ok (answer home)) reply)
    ⊎ ((lookup content_type headers ≢ some (codes "application/json"))
        × (e : Error) × (handle_post_geocode (flaky 0) headers home 0
            ≡ (ok (error_response 400 e), 0)))
handle_post_geocode-replies_example =
    handle_post_geocode-replies (flaky 0) headers home 0 (flaky-Implements 0) (refl, (refl, tt)) tt

abbrev no_headers : Dict Text
no_headers = []

not_called :
    (e : Error) × (handle_post_geocode (flaky 0) no_headers home 0 ≡ (ok (error_response 400 e), 0))
unfolding handle_post_geocode expect_header_value
not_called = (_, refl)
