-- ===== src/Geocoders/Cache/Slots/Misses.antt =====
-- src/geocoders/cache/mod.rs: what the cache does about its misses, and what the store then holds.
use geocode_csv.Base.{
  ℕ, suc, ◌≡◌, refl, sym, ap, ◌∙◌, true, false, Option, none, some, List, [], ◌∷◌, map, length,
  Bool-cases, inl, inr, All, arith,
}
use geocode_csv.Base.Text.{Text, is_empty}
use geocode_csv.Base.Outcome.{ok}
use geocode_csv.Base.Effect.{lift}
use geocode_csv.Base.Effect.Runs.{bind-both_ok, lift-both_ok}
use geocode_csv.KeyValueStores.{Bytes, KeyValueStore}
use geocode_csv.KeyValueStores.Contents.{overwrite, IsMap}
use geocode_csv.Addresses.Address.{Address}
use geocode_csv.Geocoders.{Geocoder, Geocoded}
use geocode_csv.Geocoders.Cache.{Bincode, Unpacked, Options, store_retries, geocode_misses}
use geocode_csv.Geocoders.Cache.Hits.{IsClean}
use geocode_csv.Geocoders.Cache.Slots.{Slot, from_slot, holes, Matches}
use geocode_csv.Geocoders.Cache.Slots.Stores.{fill, Entries, store_retries-Fills}

-- An inner geocoder that leaves the store alone, and gives one result for each address, each with a
-- value for each column and no zero byte.
pub record IsInner {W : Type 0} (contents : W → Text → Option Bytes) (inner : Geocoder W)
    : Type 0 where
  pub geocodes :
      (addresses : List Address) (w w' : W) (results : List (Option Geocoded))
      → inner.geocode_addresses addresses w ≡ (ok results, w')
      → (contents w' ≡ contents w)
        × (length results ≡ length addresses)
        × All (IsClean (length inner.column_names)) results

length-empty : (xs : List Address) → is_empty xs ≡ true → length xs ≡ 0
length-empty [] e = refl
length-empty (x ∷ xs) e = absurd cc

no_holes :
    (bincode : Bincode) (ks : List Text) (slots : List Slot) (i : ℕ)
    → length (holes i slots) ≡ 0
    → length ks ≡ length slots
    → (fill slots [] ≡ map from_slot slots) × Entries bincode ks slots [] []
no_holes bincode ks [] i h l = (refl, refl)
no_holes bincode [] (slot ∷ slots) i h l = absurd (omega (arith, l))
no_holes bincode (k ∷ ks) (none ∷ slots) i h l = absurd (omega (arith, h))
no_holes bincode (k ∷ ks) (some result ∷ slots) i h l =
    let (f, e) = no_holes bincode ks slots (suc i) h (omega (arith, l)) in
    (ap (λ rs. result ∷ rs) f, e)

pub length-Matches :
    (bincode : Bincode) (columns : ℕ) (found : List (Option Bytes)) (slots : List Slot)
    → Matches bincode columns found slots
    → length found ≡ length slots
length-Matches bincode columns [] [] h = refl
length-Matches bincode columns [] (slot ∷ slots) h = absurd h
length-Matches bincode columns (c ∷ found) [] h = absurd h
length-Matches bincode columns (c ∷ found) (slot ∷ slots) (m, h) =
    ap suc (length-Matches bincode columns found slots h)

module _ {W : Type 0} (bincode : Bincode) (store : KeyValueStore W) (inner : Geocoder W)
    (options : Options) (contents : W → Text → Option Bytes) where
  -- The misses of a call: the results are filled in, and what is stored for them is in the store.
  abbrev pub Stored : List Text → List Slot → List (Option Geocoded) → W → W → Type 0
  Stored ks slots geocoded w w' =
      (retries : List (Option Geocoded)) × (entries : List (Text × Bytes)) × (geocoded
        ≡ fill slots retries)
      × Entries bincode ks slots retries entries
      × All (IsClean (length inner.column_names)) retries
      × (contents w' ≡ overwrite (contents w) entries)

  -- The misses, from the results of each call.
  filled :
      (ks : List Text) (slots : List Slot) (u : Unpacked) (w w1 w2 w3 w' : W)
      (geocoded retries : List (Option Geocoded))
      (stored : List (Text × Bytes) × List (Option Geocoded))
      → IsMap store contents
      → IsInner contents inner
      → length ks ≡ length slots
      → u.geocoded ≡ map from_slot slots
      → u.cache_miss_offsets ≡ holes 0 slots
      → length u.cache_misses ≡ length (holes 0 slots)
      → inner.geocode_addresses u.cache_misses w ≡ (ok retries, w1)
      → store_retries bincode ks u.cache_miss_offsets retries [] u.geocoded ≡ ok stored
      → w1 ≡ w2
      → store.execute_set stored.0 w2 ≡ (ok tt, w3)
      → ok stored.1 ≡ ok geocoded
      → w3 ≡ w'
      → Stored ks slots geocoded w w'
  filled ks slots u w w1 w2 w3 w' geocoded retries stored s g l e o n r t here d h there =
      let (kept, count, clean) = g.geocodes u.cache_misses w w1 retries r in
      let (more, first, second, k) =
        store_retries-Fills bincode ks [] ks slots retries [] u.geocoded [] 0 stored refl refl e
          refl l (count ∙ n) (rw (← o) t) in
      let same : stored.1 ≡ geocoded = cc in
      (
        retries,
        more,
        sym same ∙ second,
        k,
        clean,
        ap contents (sym there)
            ∙ s.writes stored.0 w2 w3 d
            ∙ ap (λ q. overwrite q stored.0) (ap contents (sym here) ∙ kept)
            ∙ ap (overwrite (contents w)) first,
      )

  pub geocode_misses-Stored :
      (ks : List Text) (slots : List Slot) (u : Unpacked) (w w' : W)
      (geocoded : List (Option Geocoded))
      → IsMap store contents
      → IsInner contents inner
      → options.cache_hits_only ≡ false
      → length ks ≡ length slots
      → u.geocoded ≡ map from_slot slots
      → u.cache_miss_offsets ≡ holes 0 slots
      → length u.cache_misses ≡ length (holes 0 slots)
      → geocode_misses bincode store inner options ks u w ≡ (ok geocoded, w')
      → Stored ks slots geocoded w w'
  unfolding geocode_misses
  geocode_misses-Stored ks slots u w w' geocoded s g only l e o n h =
      elim (Bool-cases (is_empty u.cache_misses)) [
        | inl none' ↦
            let h0 = rw none' at h in
            let same : u.geocoded ≡ geocoded = cc in
            let here : w ≡ w' = ap (λ r. r.1) h0 in
            let (f, k) =
              no_holes bincode ks slots 0 (sym n ∙ length-empty u.cache_misses none') l in
            ([], [], sym same ∙ e ∙ sym f, k, tt, ap contents (sym here))
        | inr some' ↦
            let (retries, w1, r, h1) =
              bind-both_ok _ (inner.geocode_addresses u.cache_misses) w (rw (some', only) at h) in
            let (stored, w2, t, h2) =
              bind-both_ok _
                (lift (store_retries bincode ks u.cache_miss_offsets retries [] u.geocoded)) w1
                h1 in
            let (done, w3, d, h3) = bind-both_ok _ (store.execute_set stored.0) w2 h2 in
            filled ks slots u w w1 w2 w3 w' geocoded retries stored s g l e o n r
              (lift-both_ok _ _ t).0 (lift-both_ok _ _ t).1 d (lift-both_ok _ _ h3).0
              (lift-both_ok _ _ h3).1
      ]
