-- ===== src/Tests/Cache.antt =====
-- Witnesses and runs for src/geocoders/cache.
use geocode_csv.Base.{
  map, ℕ, suc, ◌≡◌, refl, ap, All, true, false, ◌↔◌, Option, none, some, List, [], ◌∷◌, length,
  arith,
}
use geocode_csv.Base.Text.{Text, codes}
use geocode_csv.Base.Outcome.{panicked, ok, err, external}
use geocode_csv.KeyValueStores.{Bytes, KeyValueStore, HasBytes, Stores}
use geocode_csv.Addresses.Address.{address_eq_ignore_ascii_case}
use geocode_csv.Geocoders.{Geocoder, Geocoded, Implements, contains_null_bytes}
use geocode_csv.Geocoders.Cache.{
  geocode_cached, push_keys, Bincode, Options, read_value, write_value, cache, compress,
}
use geocode_csv.Geocoders.Cache.Keys.{cache_key, cache_key_iff}
use geocode_csv.Geocoders.Cache.Hits.{geocode_cached-hits}
use geocode_csv.Geocoders.Cache.Laws.{cache-Implements}
use geocode_csv.Geocoders.Cache.Results.{read_value-write_value, CodecSafe, DoesNotPanic}
use geocode_csv.Tests.Data.{address, flaky, flaky-Implements, Any}

-- A codec for values of at most one column.
abbrev pub bincode : Bincode
bincode = record {
  encode = λ values. elim values [
    | none ↦ ok []
    | some [] ↦ err (external 0)
    | some (v ∷ []) ↦ ok (1 ∷ v)
    | some (v ∷ u ∷ vs) ↦ err (external 0)
  ];
  decode = λ data'. elim data' [ [] ↦ ok none | n ∷ v ↦ ok (some (v ∷ [])) ];
}

encode-safe : (values : Option (List Text)) → DoesNotPanic (bincode.encode values)
encode-safe none = tt
encode-safe (some []) = tt
encode-safe (some (v ∷ [])) = tt
encode-safe (some (v ∷ u ∷ vs)) = tt

decode-safe : (data' : Bytes) → DoesNotPanic (bincode.decode data')
decode-safe [] = tt
decode-safe (n ∷ v) = tt

pub bincode-safe : CodecSafe bincode
bincode-safe = record { encodes = encode-safe; decodes = decode-safe }

pub bincode-round_trip :
    (values : Option (List Text)) (data' : Bytes)
    → bincode.encode values ≡ ok data'
    → bincode.decode data' ≡ ok values
bincode-round_trip none data' e = ground arith
bincode-round_trip (some []) data' e = cc
bincode-round_trip (some (v ∷ [])) data' e = ground arith
bincode-round_trip (some (v ∷ u ∷ vs)) data' e = cc

abbrev home : Geocoded
home = record { column_values = codes "home" ∷ [] }

written : write_value bincode (some home) ≡ ok (b'N' ∷ (1 ∷ codes "home"))
unfolding write_value compress
written = refl

read_value-write_value_example :
    read_value bincode (b'N' ∷ (1 ∷ codes "home")) ≡ ok (some (codes "home" ∷ []))
read_value-write_value_example =
    read_value-write_value bincode (some home) bincode-round_trip written

cache_key_iff_example :
    (cache_key (codes "t") (address (codes "A:\\"))
      ≡ cache_key (codes "t") (address (codes "a:\\")))
    ↔ (address_eq_ignore_ascii_case (address (codes "A:\\")) (address (codes "a:\\")) ≡ true)
cache_key_iff_example = cache_key_iff (codes "t") (address (codes "A:\\")) (address (codes "a:\\"))

-- A store that forgets everything.
abbrev pub nothing : List Text → List (Option Bytes)
nothing [] = []
nothing (k ∷ ks) = none ∷ nothing ks

abbrev forgetful : KeyValueStore ℕ
forgetful = record {
  key_prefix = [];
  execute_get = λ ks w. (ok (nothing ks), w);
  execute_set = λ entries w. (ok tt, w);
}

pub nothing-Stores :
    (ks : List Text) → (length (nothing ks) ≡ length ks) × All HasBytes (nothing ks)
nothing-Stores [] = (refl, tt)
nothing-Stores (k ∷ ks) = let (l, h) = nothing-Stores ks in (ap suc l, (tt, h))

forgetful-Stores : Stores Any forgetful
forgetful-Stores = record {
  gets = λ ks. record { at = λ w i. (tt, nothing-Stores ks) };
  sets = λ entries h. record { at = λ w i. (tt, tt) };
}

abbrev options : Options
options = record { inner_cache_prefix = codes "t:00"; output_keys = true; cache_hits_only = false }

cached_geocoder : Implements Any (cache bincode forgetful (flaky 0) options)
cached_geocoder =
    cache-Implements bincode forgetful (flaky 0) options bincode-safe forgetful-Stores
      (flaky-Implements 0)

-- A store that holds the result for "home", and a geocoder that panics when it is called.
abbrev full : KeyValueStore ℕ
full = record {
  key_prefix = [];
  execute_get = λ ks w. (ok (some (b'N' ∷ (1 ∷ codes "home")) ∷ []), suc w);
  execute_set = λ entries w. (panicked, w);
}

abbrev uncalled : Geocoder ℕ
uncalled = record {
  tag = codes "u";
  configuration_key = codes "c";
  column_names = codes "line" ∷ [];
  geocode_addresses = λ addresses w. (panicked, w);
}

clean : contains_null_bytes home ≡ false
unfolding contains_null_bytes
clean = refl

geocode_cached-hits_example :
    geocode_cached bincode full uncalled options (address (codes "home") ∷ []) 0 ≡ (
      ok (
          push_keys
            (some home ∷ [])
            (map (cache_key options.inner_cache_prefix) (address (codes "home") ∷ []))),
      1,
    )
geocode_cached-hits_example =
    geocode_cached-hits bincode full uncalled options (address (codes "home") ∷ []) (some home ∷ [])
      ((b'N' ∷ (1 ∷ codes "home")) ∷ []) bincode-round_trip (λ e. cc) refl
      (written, (refl, clean), tt) refl
