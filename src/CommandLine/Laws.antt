-- ===== src/CommandLine/Laws.antt =====
-- src/main.rs: whatever the options, the stack of geocoders implements the trait.
use geocode_csv.Base.{Bool, true, false, Option, none, some}
use geocode_csv.Base.Text.{Text, codes}
use geocode_csv.Base.Outcome.{Ensures, Ensures-bind}
use geocode_csv.Base.Effect.Safe.{Safe}
use geocode_csv.KeyValueStores.BigTable.{Url}
use geocode_csv.KeyValueStores.Open.{Connects, new_from_url, new_from_url-Stores}
use geocode_csv.Geocoders.{Geocoder, Implements}
use geocode_csv.Geocoders.Cache.Laws.{cache-Implements}
use geocode_csv.Geocoders.Cache.Results.{CodecSafe}
use geocode_csv.Geocoders.LibPostal.{libpostal}
use geocode_csv.Geocoders.LibPostal.Laws.{libpostal-Implements}
use geocode_csv.Geocoders.Normalizer.Laws.{normalizer-Implements}
use geocode_csv.Geocoders.Paired.Laws.{paired-Implements}
use geocode_csv.Geocoders.Skipper.Laws.{skipper-Implements}
use geocode_csv.Geocoders.Smarty.{Credentials}
use geocode_csv.Geocoders.Smarty.Laws.{ServiceSafe}
use geocode_csv.Geocoders.Smarty.New.{new_smarty-Implements}
use geocode_csv.CommandLine.RateLimit.{Bucket, rate_limiter}
use geocode_csv.CommandLine.{
  GeocoderName, smarty, lib_postal, Opt, Libraries, prefix_or_empty, choose_geocoder, add_cache,
  add_normalizer, add_libpostal, build_geocoder,
}

-- What is relied on: nothing panics, and the services answer as the geocoders expect.
pub record Reliable {W : Type 0} (Inv : W → Type 0) (libraries : Libraries W) : Type 0 where
  pub parses : (s : Text) → Safe Inv (λ parsed. Unit) (libraries.parse_address s)
  pub serves :
      (bucket : Option Bucket) (credentials : Credentials)
      → ServiceSafe Inv (libraries.service bucket credentials)
  pub reads_json : (s : Text) → Ensures (λ m. Unit) (libraries.from_json s)
  pub connects : Connects Inv libraries.connections
  pub codec : CodecSafe libraries.bincode

module _ {W : Type 0} {Inv : W → Type 0} (libraries : Libraries W) where
  choose_geocoder-Implements :
      (opt : Opt) (name : GeocoderName)
      → Reliable Inv libraries
      → Ensures (Implements Inv) (choose_geocoder libraries opt name)
  unfolding choose_geocoder
  choose_geocoder-Implements opt smarty r =
      new_smarty-Implements (libraries.service (rate_limiter opt.max_addresses_per_second))
        libraries.from_json libraries.env opt.match_strategy opt.smarty_license r.reads_json
        (r.serves _)
  choose_geocoder-Implements opt lib_postal r =
      libpostal-Implements libraries.parse_address r.parses

  add_cache-Implements :
      (opt : Opt) (url : Option Url) (geocoder : Geocoder W)
      → Reliable Inv libraries
      → Implements Inv geocoder
      → Ensures (Implements Inv) (add_cache libraries opt url geocoder)
  unfolding add_cache
  add_cache-Implements opt none geocoder r imp = imp
  add_cache-Implements opt (some url) geocoder r imp =
      Ensures-bind _ _
        (new_from_url libraries.connections url (prefix_or_empty libraries opt.cache_key_prefix)) _
        (new_from_url-Stores libraries.connections url _ r.connects)
        λ store s. cache-Implements libraries.bincode store geocoder _ r.codec s imp

  add_normalizer-Implements :
      (normalize : Bool) (geocoder : Geocoder W)
      → Reliable Inv libraries
      → Implements Inv geocoder
      → Implements Inv (add_normalizer libraries normalize geocoder)
  add_normalizer-Implements true geocoder r imp =
      normalizer-Implements libraries.parse_address geocoder r.parses imp
  add_normalizer-Implements false geocoder r imp = imp

  add_libpostal-Implements :
      (include_libpostal : Bool) (geocoder : Geocoder W)
      → Reliable Inv libraries
      → Implements Inv geocoder
      → Implements Inv (add_libpostal libraries include_libpostal geocoder)
  add_libpostal-Implements true geocoder r imp =
      paired-Implements geocoder (codes "libpostal") (libpostal libraries.parse_address) imp
        (libpostal-Implements libraries.parse_address r.parses)
  add_libpostal-Implements false geocoder r imp = imp

  -- Whatever the options, the program builds a geocoder that implements the trait, or stops with an
  -- error, if the libraries and services can be relied on: a Smarty or libpostal geocoder, with or
  -- without a cache in Redis or BigTable, the filter of invalid addresses, and with or without a
  -- normalizer and libpostal's columns.
  pub build_geocoder-Implements :
      (opt : Opt) → Reliable Inv libraries → Ensures (Implements Inv) (build_geocoder libraries opt)
  unfolding build_geocoder
  build_geocoder-Implements opt r =
      Ensures-bind _ _ (choose_geocoder libraries opt opt.geocoder) _
        (choose_geocoder-Implements opt opt.geocoder r)
        λ chosen imp.
          Ensures-bind _ _ (add_cache libraries opt opt.cache_url chosen) _
            (add_cache-Implements opt opt.cache_url chosen r imp)
            λ cached imp'.
              add_libpostal-Implements opt.include_libpostal _ r
                (add_normalizer-Implements opt.normalize _ r (skipper-Implements cached imp'))
