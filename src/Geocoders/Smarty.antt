-- ===== src/Geocoders/Smarty.antt =====
-- src/geocoders/smarty: geocoding by the web service Smarty.
pub mod Fields
pub mod Laws
pub mod Counts
pub mod New
use geocode_csv.Base.{
  ℕ, zero, suc, Bool, ◌&&◌, Option, none, some, List, [], ◌∷◌, ◌++◌, map, length, replicate, set,
  ltb, leb, if◌then◌else◌,
}
use geocode_csv.Base.Text.{Text, codes, is_empty}
use geocode_csv.Base.Outcome
use geocode_csv.Base.Outcome.{Outcome, ok, err, panicked, http_status, null_byte, missing_variable}
use geocode_csv.Base.Effect.{M, pure, lift, ◌>>=◌}
use geocode_csv.UnpackVec.{unpack_vec}
use geocode_csv.Addresses.Address.{Address}
use geocode_csv.Geocoders.{Geocoder, Geocoded, contains_null_bytes}
use geocode_csv.Geocoders.MatchStrategy.{MatchStrategy, print_strategy}
use geocode_csv.Geocoders.Smarty.Fields.Complete.{complete}
use geocode_csv.Geocoders.Smarty.Fields.{
  Members, Value, Structure, output_column_names, value_columns_for,
}

pub record AddressRequest : Type 0 where
  pub address : Address
  pub match_strategy : MatchStrategy

pub record AddressResponse : Type 0 where
  pub input_index : ℕ
  pub fields : Value

-- The answer of the service: a status, and a body, as bytes.
pub record Response : Type 0 where
  pub status : ℕ
  pub body : List ℕ

-- The libraries and the service: a request for addresses under a license, the parsing of a body,
-- and the rate limiter, if there is one.
pub record Service (W : Type 0) : Type 0 where
  pub request : Text → List AddressRequest → M W Response
  pub from_slice : List ℕ → Outcome (List AddressResponse)
  pub acquire : Option (ℕ → M W Unit)

-- `StatusCode::is_success`
unfoldable pub is_success : ℕ → Bool
is_success status = leb 200 status && ltb status 300

-- `geocoded[address_output.input_index] = Some(candidate)`, over the responses that are there.
unfoldable pub place_responses :
    Structure
    → List (Option AddressResponse)
    → List (Option Geocoded)
    → Outcome (List (Option Geocoded))
place_responses structure [] geocoded = ok geocoded
place_responses structure (none ∷ responses) geocoded = place_responses structure responses geocoded
place_responses structure (some output ∷ responses) geocoded =
    Outcome.◌>>=◌ (value_columns_for structure output.fields) λ column_values.
      let candidate : Geocoded = record { column_values = column_values } in
      let rest =
        place_responses structure responses (set geocoded output.input_index (some candidate)) in
      if contains_null_bytes candidate
      then err null_byte
      else if ltb output.input_index (length geocoded)
      then rest
      else panicked

-- The permits of the rate limiter, if there is one.
unfoldable pub acquire_permits : {W : Type 0} → Option (ℕ → M W Unit) → ℕ → M W Unit
acquire_permits none permits_needed = pure tt
acquire_permits (some acquire) permits_needed = acquire permits_needed

module _ {W : Type 0} (service : Service W) (structure : Structure) (match_strategy : MatchStrategy)
    (license : Text) where
  -- What is made of the answer to `n` requests.
  unfoldable pub read_response : ℕ → Response → Outcome (List (Option AddressResponse))
  unfolding unpack_vec is_success
  read_response n res =
      let unpacked =
        Outcome.◌>>=◌ (service.from_slice res.body)
          (λ resps. unpack_vec resps n (λ (resp : AddressResponse). resp.input_index)) in
      if is_success res.status then unpacked else err (http_status res.status)

  -- `street_addresses_impl`, but for its logging.
  unfoldable pub street_addresses : List AddressRequest → M W (List (Option AddressResponse))
  unfolding read_response
  street_addresses requests = do
    res ← service.request license requests
    lift (read_response (length requests) res)

  abbrev pub request_for : Address → AddressRequest
  request_for addr = record { address = addr; match_strategy = match_strategy }

  unfoldable pub geocode_by_smarty : List Address → M W (List (Option Geocoded))
  unfolding acquire_permits street_addresses place_responses
  geocode_by_smarty addresses =
      if is_empty addresses then pure (replicate (length addresses) none) else (do
        acquired ← acquire_permits service.acquire (length addresses)
        response ← street_addresses (map request_for addresses)
        lift (place_responses structure response (replicate (length addresses) none)))

  -- `Smarty::new`: the configuration key and the column names.
  abbrev pub smarty : Text → List Text → Geocoder W
  smarty configuration_key column_names = record {
    tag = codes "sm";
    configuration_key = configuration_key;
    column_names = column_names;
    geocode_addresses = geocode_by_smarty;
  }

pub record Credentials : Type 0 where
  pub auth_id : Text
  pub auth_token : Text

-- `env::var` of one name, or of the other.
unfoldable pub variable_or : (Text → Option Text) → Text → Text → Outcome Text
variable_or env name other = elim (env name) [
  | some value ↦ ok value
  | none ↦ Outcome.ok_or (env other) (missing_variable name)
]

unfoldable pub from_env : (Text → Option Text) → Outcome Credentials
unfolding variable_or
from_env env =
    Outcome.◌>>=◌ (variable_or env (codes "SMARTY_AUTH_ID") (codes "SMARTYSTREETS_AUTH_ID"))
      λ auth_id.
        Outcome.◌>>=◌
          (variable_or env (codes "SMARTY_AUTH_TOKEN") (codes "SMARTYSTREETS_AUTH_TOKEN"))
          λ auth_token. ok (record { auth_id = auth_id; auth_token = auth_token })

-- `Smarty::new`. `from_json` is `serde_json::from_str`, `env` the environment variables, and `service`
-- the service under some credentials.
unfoldable pub new_smarty :
    {W : Type 0}
    → (Credentials → Service W)
    → (Text → Outcome Members)
    → (Text → Option Text)
    → MatchStrategy
    → Text
    → Outcome (Geocoder W)
unfolding complete output_column_names print_strategy from_env
new_smarty service from_json env match_strategy license =
    Outcome.◌>>=◌ (complete from_json) λ structure.
      Outcome.◌>>=◌ (output_column_names structure) λ column_names.
        Outcome.◌>>=◌ (from_env env) λ credentials. ok (
          smarty (service credentials) structure match_strategy license
            (print_strategy match_strategy ++ (b':' ∷ license)) column_names)
