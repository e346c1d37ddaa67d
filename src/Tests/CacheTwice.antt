-- ===== src/Tests/CacheTwice.antt =====
-- Witnesses for a call of the cache in src/geocoders/cache that is made again.
use geocode_csv.Base.{
  ◌≡◌, refl, sym, ap, All, true, false, Option, none, some, List, [], ◌∷◌, map, length-map,
}
use geocode_csv.Base.Text.{Text, codes, lowercase_char}
use geocode_csv.Base.Outcome.{Outcome, ok}
use geocode_csv.KeyValueStores.{Bytes, KeyValueStore}
use geocode_csv.KeyValueStores.Redis.{RedisServer, redis}
use geocode_csv.KeyValueStores.Redis.Contents.{HasData, through, redis-IsMap}
use geocode_csv.Addresses.Address.{Address, address_eq_ignore_ascii_case}
use geocode_csv.Geocoders.{Geocoder, Geocoded, contains_null_bytes}
use geocode_csv.Geocoders.Cache.{
  Options, geocode_cached, geocode_misses, unpack_results, unpack_value, add_miss, store_retries,
  write_value, assign, compress, push_keys, push_key,
}
use geocode_csv.Geocoders.Cache.Keys.{cache_key, cache_key_iff, escape_colons}
use geocode_csv.Geocoders.Cache.Hits.{IsClean}
use geocode_csv.Geocoders.Cache.Slots.Stores.{AreDistinct}
use geocode_csv.Geocoders.Cache.Slots.Misses.{IsInner}
use geocode_csv.KeyValueStores.Contents.{IsMap, overwrite}
use geocode_csv.Geocoders.Cache.Slots.Repeats.{geocode_cached-repeats}
use geocode_csv.Tests.Cache.{bincode, bincode-round_trip}
use geocode_csv.Tests.Data.{address}

-- A store that is a map, and a geocoder that always gives the same match.
abbrev World : Type 0
World = Text → Option Bytes

abbrev map_store : KeyValueStore World
map_store = record {
  key_prefix = [];
  execute_get = λ ks w. (ok (map w ks), w);
  execute_set = λ entries w. (ok tt, overwrite w entries);
}

abbrev contents : World → World
contents w = w

ok_injective :
    {A : Type 0} {a b : A} {w v : World}
    → ◌≡◌ {A = Outcome A × World} (ok a, w) (ok b, v)
    → (a ≡ b) × (w ≡ v)
ok_injective h = (let e = ap (λ p. p.0) h in cc, ap (λ p. p.1) h)

map_store-IsMap : IsMap map_store contents
map_store-IsMap = record {
  reads = λ ks w w' found h. let (e, k) = ok_injective h in (sym e, sym k);
  writes = λ entries w w' h. sym (ok_injective h).1;
}

abbrev match' : Option Geocoded
match' = some (record { column_values = codes "here" ∷ [] })

abbrev matches : List Address → List (Option Geocoded)
matches = map (λ a. match')

abbrev same_match : Geocoder World
same_match = record {
  tag = codes "s";
  configuration_key = codes "c";
  column_names = codes "line" ∷ [];
  geocode_addresses = λ addresses w. (ok (matches addresses), w);
}

matches-IsClean : (addresses : List Address) → All (IsClean 1) (matches addresses)
unfolding contains_null_bytes
matches-IsClean [] = tt
matches-IsClean (a ∷ addresses) = ((refl, refl), matches-IsClean addresses)

same_match-IsInner : IsInner contents same_match
same_match-IsInner = record {
  geocodes = λ addresses w w' results h.
      let (e, k) = ok_injective h in
      (sym k, rw (← e) (length-map _ addresses), rw (← e) (matches-IsClean addresses));
}

abbrev options : Options
options = record { inner_cache_prefix = codes "s"; output_keys = true; cache_hits_only = false }

abbrev two : List Address
two = address (codes "home") ∷ address (codes "work") ∷ []

abbrev two_keys : List Text
two_keys = map (cache_key options.inner_cache_prefix) two

abbrev empty : World
empty k = none

abbrev stored : Bytes
stored = b'N' ∷ (1 ∷ codes "here")

abbrev after : World
after = overwrite empty (
    (cache_key (codes "s") (address (codes "home")), stored)
    ∷ ((cache_key (codes "s") (address (codes "work")), stored) ∷ []))

abbrev two_results : List (Option Geocoded)
two_results = push_keys (match' ∷ match' ∷ []) two_keys

different : address_eq_ignore_ascii_case (address (codes "work")) (address (codes "home")) ≡ false
unfolding address_eq_ignore_ascii_case lowercase_char
different = refl

two_keys-AreDistinct : AreDistinct two_keys
two_keys-AreDistinct = (
  (
    λ e.
        let same =
          (cache_key_iff (codes "s") (address (codes "work")) (address (codes "home"))).0 e in
        cc (same, different),
    tt,
  ),
  (tt, tt),
)

first_call : geocode_cached bincode map_store same_match options two empty ≡ (ok two_results, after)
unfolding geocode_cached geocode_misses unpack_results unpack_value add_miss store_retries
    write_value assign compress push_keys push_key cache_key escape_colons
first_call = refl

geocode_cached-repeats_example :
    geocode_cached bincode map_store same_match options two after ≡ (ok two_results, after)
geocode_cached-repeats_example =
    geocode_cached-repeats bincode map_store same_match options contents two empty after after
      two_results (map after two_keys) map_store-IsMap same_match-IsInner bincode-round_trip refl
      (λ e. cc) two_keys-AreDistinct first_call refl

-- A Redis server that is a map, with a prefix of keys.
abbrev map_server : RedisServer World
map_server = record {
  client = λ w. (ok tt, w);
  query_get = λ ks w. (ok (map w ks), w);
  query_set = λ entries w. (ok tt, overwrite w entries);
}

map_server-HasData : HasData map_server contents
map_server-HasData = record {
  keeps = λ w w' h. sym (ok_injective h).1;
  gets = λ ks w w' found h. let (e, k) = ok_injective h in (sym e, sym k);
  sets = λ entries w w' h. sym (ok_injective h).1;
}

redis-IsMap_example : IsMap (redis map_server (codes "p")) (λ w. through (codes "p") (contents w))
redis-IsMap_example = redis-IsMap map_server (codes "p") contents map_server-HasData
