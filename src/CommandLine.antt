-- ===== src/CommandLine.antt =====
-- src/main.rs: the stack of geocoders that the options ask for. Parsing of arguments is clap's.
pub mod Parse
pub mod RateLimit
pub mod Laws
pub mod Main
use geocode_csv.Base.{ℕ, Bool, Option, none, some, List, [], if◌then◌else◌}
use geocode_csv.Base.Text.{Text, codes}
use geocode_csv.Base.Dict.{Dict}
use geocode_csv.Base.Outcome.{Outcome, ok, ◌>>=◌}
use geocode_csv.Base.Effect.{M}
use geocode_csv.KeyValueStores.BigTable.{Url}
use geocode_csv.KeyValueStores.Open.{Connections, new_from_url}
use geocode_csv.Geocoders.{Geocoder}
use geocode_csv.Geocoders.MatchStrategy.{MatchStrategy}
use geocode_csv.Geocoders.CachePrefix.{cache_prefix}
use geocode_csv.Geocoders.Cache.{Bincode, cache}
use geocode_csv.Geocoders.LibPostal.{libpostal}
use geocode_csv.Geocoders.Normalizer.{normalizer}
use geocode_csv.Geocoders.Paired.{paired}
use geocode_csv.Geocoders.Skipper.{invalid_record_skipper}
use geocode_csv.Geocoders.Smarty.{Service, Credentials, new_smarty}
use geocode_csv.Geocoders.Smarty.Fields.{Members}
use geocode_csv.Pipeline.Read.{OnDuplicateColumns}
use geocode_csv.CommandLine.RateLimit.{Bucket, rate_limiter}

pub data GeocoderName : Type 0 where
  smarty lib_postal : GeocoderName

pub record MetricsLabel : Type 0 where
  pub key : Text
  pub value : Text

pub data Command : Type 0 where
  server : Text → Command

-- The options, but for the path of the spec.
pub record Opt : Type 0 where
  pub match_strategy : MatchStrategy
  pub geocoder : GeocoderName
  pub smarty_license : Text
  pub cache_url : Option Url
  pub cache_hits_only : Bool
  pub cache_output_keys : Bool
  pub cache_key_prefix : Option Text
  pub normalize : Bool
  pub include_libpostal : Bool
  pub on_duplicate_columns : OnDuplicateColumns
  pub max_addresses_per_second : Option ℕ
  pub max_retries : ℕ
  pub metrics_labels : List MetricsLabel
  pub cmd : Option Command

-- The libraries, the services, and what is read from the environment.
pub record Libraries (W : Type 0) : Type 0 where
  pub parse_address : Text → M W (Dict Text)
  pub service : Option Bucket → Credentials → Service W
  pub from_json : Text → Outcome Members
  pub env : Text → Option Text
  pub connections : Connections W
  pub bincode : Bincode
  pub sha256 : List ℕ → ℕ × ℕ

module _ {W : Type 0} (libraries : Libraries W) where
  unfoldable pub choose_geocoder : Opt → GeocoderName → Outcome (Geocoder W)
  unfolding new_smarty rate_limiter
  choose_geocoder opt smarty =
      new_smarty (libraries.service (rate_limiter opt.max_addresses_per_second)) libraries.from_json
        libraries.env opt.match_strategy opt.smarty_license
  choose_geocoder opt lib_postal = ok (libpostal libraries.parse_address)

  -- `as_deref().unwrap_or_default()`
  abbrev pub prefix_or_empty : Option Text → Text
  prefix_or_empty none = []
  prefix_or_empty (some key_prefix) = key_prefix

  unfoldable pub add_cache : Opt → Option Url → Geocoder W → Outcome (Geocoder W)
  unfolding new_from_url cache_prefix cache
  add_cache opt none geocoder = ok geocoder
  add_cache opt (some cache_url) geocoder = do
    key_value_store ←
        new_from_url libraries.connections cache_url (prefix_or_empty opt.cache_key_prefix)
    ok (
        cache libraries.bincode key_value_store geocoder (record {
          inner_cache_prefix = cache_prefix libraries.sha256 geocoder;
          output_keys = opt.cache_output_keys;
          cache_hits_only = opt.cache_hits_only;
        }))

  abbrev pub add_normalizer : Bool → Geocoder W → Geocoder W
  add_normalizer normalize geocoder =
      if normalize then normalizer libraries.parse_address geocoder else geocoder

  abbrev pub add_libpostal : Bool → Geocoder W → Geocoder W
  add_libpostal include_libpostal geocoder =
      if include_libpostal
      then paired geocoder (codes "libpostal") (libpostal libraries.parse_address)
      else geocoder

  -- The part of `main` that builds the geocoder.
  unfoldable pub build_geocoder : Opt → Outcome (Geocoder W)
  unfolding choose_geocoder add_cache
  build_geocoder opt = do
    chosen ← choose_geocoder opt opt.geocoder
    cached ← add_cache opt opt.cache_url chosen
    ok (
        add_libpostal opt.include_libpostal
          (add_normalizer opt.normalize (invalid_record_skipper cached)))
