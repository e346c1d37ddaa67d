-- ===== src/Geocoders/Cache/Laws.antt =====
-- src/geocoders/cache/mod.rs: a cache implements the trait.
use geocode_csv.Base.{
  ◌≡◌, refl, sym, ◌∙◌, Bool, true, false, not, ◌&&◌, Option, none, List, [], ◌∷◌, ◌++◌, map, length,
  if◌then◌else◌, arith, All-replicate, length-append, length-map, length-replicate,
}
use geocode_csv.Base.Text.{Text, codes, is_empty}
use geocode_csv.Base.Effect.Safe.{Safe, Safe-bind, Safe-if, Safe-lift, Safe-pure}
use geocode_csv.KeyValueStores.{KeyValueStore, Stores}
use geocode_csv.Addresses.Address.{Address}
use geocode_csv.Geocoders.{Geocoder, Geocoded, Implements, Fits, Answers}
use geocode_csv.Geocoders.Cache.Keys.{cache_key}
use geocode_csv.Geocoders.Cache.{
  Bincode, Unpacked, Options, store_retries, push_keys, geocode_misses, geocode_cached, cache,
}
use geocode_csv.Geocoders.Cache.Results.{
  CodecSafe, Wf, unpack_results-Wf, store_retries-Stored, push_keys-Fits,
}

module _ {W : Type 0} {Inv : W → Type 0} (bincode : Bincode) (store : KeyValueStore W)
    (inner : Geocoder W) (options : Options) where
  geocode_misses-Safe :
      (addresses : List Address) (ks : List Text) (u : Unpacked)
      → CodecSafe bincode
      → Stores Inv store
      → Implements Inv inner
      → length ks ≡ length addresses
      → Wf bincode addresses (length inner.column_names) u
      → Safe Inv
          (Answers (length inner.column_names) addresses)
          (geocode_misses bincode store inner options ks u)
  unfolding geocode_misses
  geocode_misses-Safe addresses ks u c s imp l (lg, f, m, o) =
      Safe-if {Q = Answers (length inner.column_names) addresses}
        (not (is_empty u.cache_misses) && not options.cache_hits_only) _ _
        (λ misses.
          Safe-bind (inner.geocode_addresses u.cache_misses) _ (imp.calls u.cache_misses)
            λ retries a.
              Safe-bind
                (λ w. (store_retries bincode ks u.cache_miss_offsets retries [] u.geocoded, w)) _
                (Safe-lift _ (
                  store_retries-Stored bincode (length inner.column_names) (length addresses) ks
                    u.cache_miss_offsets retries [] u.geocoded c l o a.1 (tt, lg, f)))
                λ stored p. Safe-bind (store.execute_set stored.0) _ (s.sets stored.0 p.0) λ done q.
                  Safe-pure {Q = Answers (length inner.column_names) addresses} stored.1 (p.1, p.2))
        (λ hits. Safe-pure {Q = Answers (length inner.column_names) addresses} u.geocoded (lg, f))

  geocode_cached-Safe :
      (addresses : List Address)
      → CodecSafe bincode
      → Stores Inv store
      → Implements Inv inner
      → Safe Inv
          (Answers (length (cache bincode store inner options).column_names) addresses)
          (geocode_cached bincode store inner options addresses)
  unfolding geocode_cached cache
  geocode_cached-Safe addresses c s imp =
      let ks = map (cache_key options.inner_cache_prefix) addresses in
      let lk : length ks ≡ length addresses =
        length-map (cache_key options.inner_cache_prefix) addresses in
      Safe-if (is_empty ks) _ _
        (λ no_keys. Safe-pure _ (
          length-replicate (length addresses) none,
          All-replicate (Fits _) (length addresses) none tt,
        ))
        (λ some_keys. Safe-bind (store.execute_get ks) _ (s.gets ks) λ values p.
          Safe-bind _ _
            (Safe-lift _ (
              unpack_results-Wf bincode addresses (length inner.column_names) 0 values _ c
                (omega (arith, p.0, lk)) p.1
                (
                  length-replicate (length addresses) none,
                  All-replicate (Fits _) (length addresses) none tt,
                  refl,
                  tt,
                )))
            λ u w.
              Safe-bind (geocode_misses bincode store inner options ks u) _
                (geocode_misses-Safe addresses ks u c s imp lk w)
                λ geocoded a. Safe-pure _ (with_keys options.output_keys ks geocoded lk a))
    where
      with_keys :
          (b : Bool) (ks : List Text) (geocoded : List (Option Geocoded))
          → length ks ≡ length addresses
          → Answers (length inner.column_names) addresses geocoded
          → Answers
              (length
                (if b then inner.column_names ++ (codes "cache_key" ∷ []) else inner.column_names))
              addresses
              (if b then push_keys geocoded ks else geocoded)
      with_keys false ks geocoded lk a = a
      with_keys true ks geocoded lk (l, f) =
          let (m, g) = push_keys-Fits (length inner.column_names) geocoded ks (l ∙ sym lk) f in
          (m ∙ l, rw (length-append inner.column_names (codes "cache_key" ∷ [])) g)

  -- A cache over a geocoder that implements the trait implements it too, whatever values the store
  -- holds for the keys, if the store gives a value or None for each key, none of them empty, and
  -- bincode does not panic. Each match has a value for each column, the one for the cache key
  -- included if there is one.
  pub cache-Implements :
      CodecSafe bincode
      → Stores Inv store
      → Implements Inv inner
      → Implements Inv (cache bincode store inner options)
  unfolding cache
  cache-Implements c s imp = record { calls = λ addresses. geocode_cached-Safe addresses c s imp }
