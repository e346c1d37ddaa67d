-- ===== src/Geocoders/Cache/Slots/Stores.antt =====
-- src/geocoders/cache/mod.rs: what the cache stores for its misses, and what the store then holds.
use geocode_csv.Base.{
  ℕ, suc, ◌≡◌, ◌≢◌, refl, sym, ap, ◌∙◌, true, Option, none, some, List, [], ◌∷◌, ◌++◌, append_assoc,
  append-nil, map, length, length-append, set, set-append_length, ltb, lt→ltb, get_elem?, All,
  arith,
}
use geocode_csv.Base.Text.{Text, text_eq_refl}
use geocode_csv.Base.Outcome.{ok, expect, both_ok}
use geocode_csv.KeyValueStores.{Bytes}
use geocode_csv.KeyValueStores.Contents.{put, overwrite, put-other}
use geocode_csv.Geocoders.{Geocoded}
use geocode_csv.Geocoders.Cache.{Bincode, assign, write_value, store_retries}
use geocode_csv.Geocoders.Cache.Hits.{IsClean, Decodes, Holds}
use geocode_csv.Geocoders.Cache.Results.{read_value-write_value}
use geocode_csv.Geocoders.Cache.Slots.{Slot, from_slot, holes, Matches}

-- The results: those of the hits, and for the misses those of the inner geocoder, in order.
abbrev pub fill : List Slot → List (Option Geocoded) → List (Option Geocoded)
fill [] retries = []
fill (some result ∷ slots) retries = result ∷ fill slots retries
fill (none ∷ slots) [] = none ∷ fill slots []
fill (none ∷ slots) (retry ∷ retries) = retry ∷ fill slots retries

module _ (bincode : Bincode) where
  -- The entries that are stored: the keys of the misses, with what is written for their results.
  abbrev pub Entries : List Text → List Slot → List (Option Geocoded) → List (Text × Bytes) → Type 0
  Entries ks [] retries entries = entries ≡ []
  Entries [] (slot ∷ slots) retries entries = ⊥
  Entries (k ∷ ks) (some result ∷ slots) retries entries = Entries ks slots retries entries
  Entries (k ∷ ks) (none ∷ slots) [] entries = ⊥
  Entries (k ∷ ks) (none ∷ slots) (retry ∷ retries) entries =
      (v : Bytes) × (more : List (Text × Bytes)) × (entries ≡ (k, v) ∷ more)
      × (write_value bincode retry ≡ ok v)
      × Entries ks slots retries more

  get_elem?-append_length :
      (ks before rest : List Text) (k : Text) (i : ℕ)
      → ks ≡ before ++ (k ∷ rest)
      → length before ≡ i
      → get_elem? ks i ≡ some k
  get_elem?-append_length ks [] rest k i e l = rw (e, ← l) refl
  get_elem?-append_length ks (j ∷ before) rest k i e l =
      rw (e, ← l) (get_elem?-append_length (before ++ (k ∷ rest)) before rest k _ refl refl)

  assign-append :
      (geocoded done rest : List (Option Geocoded)) (x y : Option Geocoded) (i : ℕ)
      {after : List (Option Geocoded)}
      → geocoded ≡ done ++ (x ∷ rest)
      → length done ≡ i
      → assign geocoded i y ≡ ok after
      → after ≡ done ++ (y ∷ rest)
  unfolding assign
  assign-append geocoded done rest x y i g l h =
      let small : ltb i (length (done ++ (x ∷ rest))) ≡ true =
        lt→ltb i _ (omega (arith, l, length-append done (x ∷ rest))) in
      let put : set (done ++ (x ∷ rest)) i y ≡ done ++ (y ∷ rest) =
        rw (← l) (set-append_length done rest x y) in
      let h' = rw (g, small, put) at h in cc

  -- The results of a call: what was stored for them, and the results.
  abbrev Fills :
      List Text
      → List Slot
      → List (Option Geocoded)
      → List (Text × Bytes)
      → List (Option Geocoded)
      → List (Text × Bytes) × List (Option Geocoded)
      → Type 0
  Fills ks slots retries entries done r =
      (more : List (Text × Bytes)) × (r.0 ≡ entries ++ more)
      × (r.1 ≡ done ++ fill slots retries)
      × Entries ks slots retries more

  pub store_retries-Fills :
      (ks before rest : List Text) (slots : List Slot) (retries : List (Option Geocoded))
      (entries : List (Text × Bytes)) (geocoded done : List (Option Geocoded)) (i : ℕ)
      (r : List (Text × Bytes) × List (Option Geocoded))
      → ks ≡ before ++ rest
      → length before ≡ i
      → geocoded ≡ done ++ map from_slot slots
      → length done ≡ i
      → length rest ≡ length slots
      → length retries ≡ length (holes i slots)
      → store_retries bincode ks (holes i slots) retries entries geocoded ≡ ok r
      → Fills rest slots retries entries done r
  unfolding store_retries
  store_retries-Fills ks before rest [] retries entries geocoded done i r e b g d l n h =
      let same : (entries, geocoded) ≡ r = cc in rw (← same) ([], sym (append-nil entries), g, refl)
  store_retries-Fills ks before [] (slot ∷ slots) retries entries geocoded done i r e b g d l n h =
      absurd (omega (arith, l))
  store_retries-Fills ks before (k ∷ rest) (some result ∷ slots) retries entries geocoded done i r e
        b g d l n h =
      let (more, e', g', f) =
        store_retries-Fills ks (before ++ (k ∷ [])) rest slots retries entries geocoded
          (done ++ (result ∷ [])) (suc i) r (e ∙ sym (append_assoc before (k ∷ []) rest))
          (omega (arith, b, length-append before (k ∷ [])))
          (g ∙ sym (append_assoc done (result ∷ []) (map from_slot slots)))
          (omega (arith, d, length-append done (result ∷ []))) (omega (arith, l)) n h in
      (more, e', g' ∙ append_assoc done (result ∷ []) (fill slots retries), f)
  store_retries-Fills ks before (k ∷ rest) (none ∷ slots) [] entries geocoded done i r e b g d l n
        h =
      absurd (omega (arith, n))
  store_retries-Fills ks before (k ∷ rest) (none ∷ slots) (retry ∷ retries) entries geocoded done i
        r e b g d l n h =
      let (v, w, h1) = both_ok _ (write_value bincode retry) h in
      let (k', f, h2) = both_ok _ (expect (get_elem? ks i)) h1 in
      let (after, a, h3) = both_ok _ (assign geocoded i retry) h2 in
      let key' : k ≡ k' = let f' = rw (get_elem?-append_length ks before rest k i e b) at f in cc in
      let (more, e', g', s) =
        store_retries-Fills ks (before ++ (k ∷ [])) rest slots retries (entries ++ ((k', v) ∷ []))
          after (done ++ (retry ∷ [])) (suc i) r (e ∙ sym (append_assoc before (k ∷ []) rest))
          (omega (arith, b, length-append before (k ∷ [])))
          (assign-append geocoded done (map from_slot slots) none retry i g d a
            ∙ sym (append_assoc done (retry ∷ []) (map from_slot slots)))
          (omega (arith, d, length-append done (retry ∷ []))) (omega (arith, l)) (omega (arith, n))
          h3 in
      (
        (k', v) ∷ more,
        e' ∙ append_assoc entries ((k', v) ∷ []) more,
        g' ∙ append_assoc done (retry ∷ []) (fill slots retries),
        (v, more, ap (λ j. (j, v) ∷ more) (sym key'), w, s),
      )

abbrev pub NotIn : Text → List Text → Type 0
NotIn j ks = All (λ k. k ≢ j) ks

abbrev pub AreDistinct : List Text → Type 0
AreDistinct [] = Unit
AreDistinct (k ∷ ks) = NotIn k ks × AreDistinct ks

map-put :
    (contents : Text → Option Bytes) (k : Text) (v : Bytes) (ks : List Text)
    → NotIn k ks
    → map (put contents k v) ks ≡ map contents ks
map-put contents k v [] h = refl
map-put contents k v (j ∷ ks) (ne, h) =
    cc (put-other contents k j v (λ e. ne (sym e)), map-put contents k v ks h)

module _ (bincode : Bincode) where
  overwrite-NotIn :
      (contents : Text → Option Bytes) (j : Text) (ks : List Text) (slots : List Slot)
      (retries : List (Option Geocoded)) (entries : List (Text × Bytes))
      → NotIn j ks
      → Entries bincode ks slots retries entries
      → overwrite contents entries j ≡ contents j
  overwrite-NotIn contents j ks [] retries entries out h = rw h refl
  overwrite-NotIn contents j [] (slot ∷ slots) retries entries out h = absurd h
  overwrite-NotIn contents j (k ∷ ks) (some result ∷ slots) retries entries (ne, out) h =
      overwrite-NotIn contents j ks slots retries entries out h
  overwrite-NotIn contents j (k ∷ ks) (none ∷ slots) [] entries out h = absurd h
  overwrite-NotIn contents j (k ∷ ks) (none ∷ slots) (retry ∷ retries) entries (ne, out)
        (v, more, e, w, h) =
      rw e (
        overwrite-NotIn (put contents k v) j ks slots retries more out h
        ∙ put-other contents k j v ne)

  -- The store then holds, for the keys, values that are read as the results.
  pub overwrite-Holds :
      (contents : Text → Option Bytes) (columns : ℕ) (ks : List Text) (slots : List Slot)
      (retries : List (Option Geocoded)) (entries : List (Text × Bytes))
      → Decodes bincode
      → AreDistinct ks
      → All (IsClean columns) retries
      → Matches bincode columns (map contents ks) slots
      → Entries bincode ks slots retries entries
      → (values : List Bytes) × (map (overwrite contents entries) ks ≡ map some values)
        × Holds bincode columns (fill slots retries) values
        × (length values ≡ length ks)
  overwrite-Holds contents columns [] [] retries entries law d clean m h = ([], refl, tt, refl)
  overwrite-Holds contents columns [] (slot ∷ slots) retries entries law d clean m h = absurd m
  overwrite-Holds contents columns (k ∷ ks) [] retries entries law d clean m h = absurd m
  overwrite-Holds contents columns (k ∷ ks) (some result ∷ slots) retries entries law (out, d) clean
        ((v, found, read, fine), m) h =
      let (values, same, holds, l) =
        overwrite-Holds contents columns ks slots retries entries law d clean m h in
      let here : overwrite contents entries k ≡ some v =
        overwrite-NotIn contents k ks slots retries entries out h ∙ found in
      (v ∷ values, cc (here, same), (read, fine, holds), ap suc l)
  overwrite-Holds contents columns (k ∷ ks) (none ∷ slots) [] entries law d clean m h = absurd h
  overwrite-Holds contents columns (k ∷ ks) (none ∷ slots) (retry ∷ retries) entries law (out, d)
        (fine, clean) (u, m) (v, more, e, w, h) =
      let (values, same, holds, l) =
        overwrite-Holds (put contents k v) columns ks slots retries more law d clean
          (rw (map-put contents k v ks out) m) h in
      let here : overwrite (put contents k v) more k ≡ some v =
        overwrite-NotIn (put contents k v) k ks slots retries more out h
        ∙ rw (text_eq_refl k) refl in
      (
        v ∷ values,
        ap (λ l'. map (overwrite contents l') (k ∷ ks)) e ∙ cc (here, same),
        (read_value-write_value bincode retry law w, fine, holds),
        ap suc l,
      )
