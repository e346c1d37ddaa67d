-- ===== src/Geocoders/Cache/Slots/Repeats.antt =====
-- src/geocoders/cache/mod.rs: a call of the cache, made again.
use geocode_csv.Base.{
  ◌≡◌, ◌≢◌, refl, sym, ap, ◌∙◌, false, Option, none, some, List, [], ◌∷◌, map, length, length-map,
  replicate, if◌then◌else◌, arith,
}
use geocode_csv.Base.Text.{Text}
use geocode_csv.Base.Outcome.{ok}
use geocode_csv.Base.Effect.{lift}
use geocode_csv.Base.Effect.Runs.{bind-both_ok, lift-both_ok}
use geocode_csv.KeyValueStores.{Bytes, KeyValueStore}
use geocode_csv.KeyValueStores.Contents.{IsMap}
use geocode_csv.Addresses.Address.{Address}
use geocode_csv.Geocoders.{Geocoder, Geocoded}
use geocode_csv.Geocoders.Cache.Keys.{cache_key}
use geocode_csv.Geocoders.Cache.{
  Bincode, Unpacked, Options, push_keys, unpack_results, geocode_misses, geocode_cached,
}
use geocode_csv.Geocoders.Cache.Hits.{Decodes, Holds, geocode_cached-Holds}
use geocode_csv.Geocoders.Cache.Slots.{unpack_results-Matches}
use geocode_csv.Geocoders.Cache.Slots.Stores.{AreDistinct, overwrite-Holds}
use geocode_csv.Geocoders.Cache.Slots.Misses.{IsInner, length-Matches, geocode_misses-Stored}

module _ {W : Type 0} (bincode : Bincode) (store : KeyValueStore W) (inner : Geocoder W)
    (options : Options) (contents : W → Text → Option Bytes) where
  -- After a call that succeeds the store holds its results.
  called-Holds :
      (addresses : List Address) (w v v1 v2 : W) (held : List (Option Bytes)) (u : Unpacked)
      (geocoded : List (Option Geocoded))
      → let ks = map (cache_key options.inner_cache_prefix) addresses in
        let columns = length inner.column_names in
        IsMap store contents
        → IsInner contents inner
        → Decodes bincode
        → options.cache_hits_only ≡ false
        → AreDistinct ks
        → store.execute_get ks w ≡ (ok held, v)
        → unpack_results bincode addresses columns 0 held (record {
          geocoded = replicate (length addresses) none;
          cache_misses = [];
          cache_miss_offsets = [];
        })
          ≡ ok u
        → v ≡ v1
        → geocode_misses bincode store inner options ks u v1 ≡ (ok geocoded, v2)
        → (values : List Bytes) × (map (contents v2) ks ≡ map some values)
          × Holds bincode columns geocoded values
          × (length values ≡ length ks)
  called-Holds addresses w v v1 v2 held u geocoded s g law only distinct r t here m =
      let ks = map (cache_key options.inner_cache_prefix) addresses in
      let columns = length inner.column_names in
      let (is, kept) = s.reads ks w v held r in
      let as_many : length held ≡ length addresses =
        ap length is ∙ length-map (contents w) ks ∙ length-map _ addresses in
      let (slots, matches, e, o, n) =
        unpack_results-Matches bincode columns addresses held [] 0 _ u refl
          (ap (λ k. replicate k none) (sym as_many)) t in
      let (retries, entries, f, k, clean, after) =
        geocode_misses-Stored bincode store inner options contents ks slots u v1 v2 geocoded s g
          only
          (length-map _ addresses ∙ sym as_many ∙ length-Matches bincode columns held slots matches)
          e o (omega (arith, n)) m in
      let (values, same, holds, l) =
        overwrite-Holds bincode (contents v1) columns ks slots retries entries law distinct clean
          (rw (← here, kept, ← is) matches) k in
      (values, ap (λ c. map c ks) after ∙ same, rw f holds, l)

  called_again :
      (addresses : List Address) (w v v1 v2 w1 w2 : W) (held found : List (Option Bytes))
      (u : Unpacked) (geocoded results : List (Option Geocoded))
      → let ks = map (cache_key options.inner_cache_prefix) addresses in
        let columns = length inner.column_names in
        IsMap store contents
        → IsInner contents inner
        → Decodes bincode
        → options.cache_hits_only ≡ false
        → addresses ≢ []
        → AreDistinct ks
        → store.execute_get ks w ≡ (ok held, v)
        → unpack_results bincode addresses columns 0 held (record {
          geocoded = replicate (length addresses) none;
          cache_misses = [];
          cache_miss_offsets = [];
        })
          ≡ ok u
        → v ≡ v1
        → geocode_misses bincode store inner options ks u v1 ≡ (ok geocoded, v2)
        → ok (if options.output_keys then push_keys geocoded ks else geocoded) ≡ ok results
        → v2 ≡ w1
        → store.execute_get ks w1 ≡ (ok found, w2)
        → geocode_cached bincode store inner options addresses w1 ≡ (ok results, w2)
  called_again addresses w v v1 v2 w1 w2 held found u geocoded results s g law only ne distinct r t
        here m out there again =
      let ks = map (cache_key options.inner_cache_prefix) addresses in
      let (values, same, holds, l) =
        called-Holds addresses w v v1 v2 held u geocoded s g law only distinct r t here m in
      let is : found ≡ map some values =
        (s.reads ks w1 w2 found again).0 ∙ ap (λ x. map (contents x) ks) (sym there) ∙ same in
      geocode_cached-Holds bincode store inner options addresses geocoded values ne
        (l ∙ length-map _ addresses) holds (again ∙ ap (λ f. (ok f, w2)) is)
      ∙ ap (λ r'. (r', w2)) out

  -- A call for addresses with distinct keys that succeeds, then the same call again, where the store
  -- can be read: it returns the same results, and does nothing but read the store. So the inner
  -- geocoder is not called again. This is for a store that is a map, an inner geocoder that leaves
  -- the store alone and gives one result for each address, with a value for each column and no zero
  -- byte, and for bincode decoding what it encodes.
  pub geocode_cached-repeats :
      (addresses : List Address) (w w₁ w₂ : W) (results : List (Option Geocoded))
      (found : List (Option Bytes))
      → let ks = map (cache_key options.inner_cache_prefix) addresses in
        IsMap store contents
        → IsInner contents inner
        → Decodes bincode
        → options.cache_hits_only ≡ false
        → addresses ≢ []
        → AreDistinct ks
        → geocode_cached bincode store inner options addresses w ≡ (ok results, w₁)
        → store.execute_get ks w₁ ≡ (ok found, w₂)
        → geocode_cached bincode store inner options addresses w₁ ≡ (ok results, w₂)
  unfolding geocode_cached
  geocode_cached-repeats [] w w1 w2 results found s g law only ne distinct h again =
      absurd (ne refl)
  geocode_cached-repeats (a ∷ addresses) w w1 w2 results found s g law only ne distinct h again =
      let ks = map (cache_key options.inner_cache_prefix) (a ∷ addresses) in
      let (held, v, r, h1) = bind-both_ok _ (store.execute_get ks) w h in
      let (u, v1, t, h2) =
        bind-both_ok _
          (lift (unpack_results bincode (a ∷ addresses) (length inner.column_names) 0 held _)) v
          h1 in
      let (geocoded, v2, m, h3) =
        bind-both_ok _ (geocode_misses bincode store inner options ks u) v1 h2 in
      called_again (a ∷ addresses) w v v1 v2 w1 w2 held found u geocoded results s g law only ne
        distinct r (lift-both_ok _ _ t).0 (lift-both_ok _ _ t).1 m (lift-both_ok _ _ h3).0
        (lift-both_ok _ _ h3).1 again
