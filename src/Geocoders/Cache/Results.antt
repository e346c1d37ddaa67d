-- ===== src/Geocoders/Cache/Results.antt =====
-- src/geocoders/cache/mod.rs: the loops over the store's results and over the new results keep the
-- shape of the results; a value that was written is read back.
use geocode_csv.Base.{
  ℕ, suc, ◌+◌, ◌<◌, ◌≡◌, refl, ap, ◌∙◌, false, Option, none, some, List, [], ◌∷◌, ◌++◌, length,
  get_elem?-lt, lt→ltb, ◌==◌, ==_iff, arith, All, All-append, All-set, length-append, length-set,
  Bool-cases, inl, inr,
}
use geocode_csv.Base.Text.{Text, is_empty}
use geocode_csv.Base.Outcome
use geocode_csv.Base.Outcome.{Outcome, ok, err, panicked, Ensures, Ensures-bind, expect}
use geocode_csv.KeyValueStores.{Bytes, HasBytes}
use geocode_csv.Addresses.Address.{Address}
use geocode_csv.Geocoders.{Geocoded, Fits, contains_null_bytes}
use geocode_csv.Geocoders.Cache.{
  Bincode, Unpacked, compress, decompress, assign, read_value, write_value, values_of, add_miss,
  record_found, record_hit, unpack_value, unpack_results, store_retries, push_key, push_keys,
}

-- What is written for a result is not empty.
abbrev pub NonEmpty : Bytes → Type 0
NonEmpty value = is_empty value ≡ false

abbrev pub DoesNotPanic : {A : Type 0} → Outcome A → Type 0
DoesNotPanic = Ensures (λ a. Unit)

-- The library bincode does not panic.
pub record CodecSafe (bincode : Bincode) : Type 0 where
  pub encodes : (values : Option (List Text)) → DoesNotPanic (bincode.encode values)
  pub decodes : (data' : Bytes) → DoesNotPanic (bincode.decode data')

assign-Ensures :
    {A : Type 0} (P : A → Type 0) (l : List A) (i : ℕ) (v : A)
    → i < length l
    → All P l
    → P v
    → Ensures (λ (l' : List A). (length l' ≡ length l) × All P l') (assign l i v)
unfolding assign
assign-Ensures P l i v b h p = rw (lt→ltb i (length l) b) (length-set l i v, All-set P l i v h p)

module _ (bincode : Bincode) where
  -- What the store holds for a result is read back as that result, if bincode decodes what it
  -- encodes.
  pub read_value-write_value :
      (retry : Option Geocoded) {value : Bytes}
      → ((values : Option (List Text)) (data' : Bytes)
          → bincode.encode values ≡ ok data'
          → bincode.decode data' ≡ ok values)
      → write_value bincode retry ≡ ok value
      → read_value bincode value ≡ ok (values_of retry)
  unfolding write_value read_value compress decompress
  read_value-write_value retry {value} law h =
      let (encoded, e, k) = Outcome.both_ok _ (bincode.encode (values_of retry)) h in
      let same : value ≡ b'N' ∷ encoded = cc in rw same (law (values_of retry) encoded e)

  write_value-NonEmpty :
      (retry : Option Geocoded) → CodecSafe bincode → Ensures NonEmpty (write_value bincode retry)
  unfolding write_value compress
  write_value-NonEmpty retry c =
      Ensures-bind _ _ (bincode.encode (values_of retry)) _ (c.encodes (values_of retry))
        λ data' u. refl

  read_value-safe :
      (value : Bytes)
      → CodecSafe bincode
      → is_empty value ≡ false
      → DoesNotPanic (read_value bincode value)
  unfolding read_value decompress
  read_value-safe [] c h = cc
  read_value-safe (id ∷ data') c h = elim (Bool-cases (id == b'N')) [
    | inl e ↦ rw e (c.decodes data')
    | inr e ↦ rw e tt
  ]

module _ (bincode : Bincode) (addresses : List Address) (columns : ℕ) where
  -- The results so far fit, and each miss has the offset of an address.
  abbrev pub Wf : Unpacked → Type 0
  Wf u =
      (length u.geocoded ≡ length addresses)
      × All (Fits columns) u.geocoded
      × (length u.cache_misses ≡ length u.cache_miss_offsets)
      × All (λ i. i < length addresses) u.cache_miss_offsets

  add_miss-Wf :
      (i : ℕ) (u : Unpacked)
      → i < length addresses
      → Wf u
      → Ensures Wf (add_miss bincode addresses columns i u)
  unfolding add_miss
  add_miss-Wf i u b (l, f, m, o) =
      let (a, e) = get_elem?-lt addresses i b in
      rw e (
        l,
        f,
        omega (
          arith,
          length-append u.cache_misses (a ∷ []),
          length-append u.cache_miss_offsets (i ∷ []),
          m,
        ),
        All-append _ u.cache_miss_offsets (i ∷ []) o (b, tt),
      )

  record_hit-Wf :
      (i : ℕ) (hit : Option (List Text)) (u : Unpacked)
      → i < length addresses
      → Wf u
      → Ensures Wf (record_hit bincode addresses columns i hit u)
  unfolding record_hit record_found
  record_hit-Wf i none u b w = w
  record_hit-Wf i (some values) u b (l, f, m, o) = elim (Bool-cases (length values == columns)) [
    | inr e ↦ rw e tt
    | inl e ↦ elim (Bool-cases (contains_null_bytes (record { column_values = values }))) [
      | inl n ↦ rw (e, n) (add_miss-Wf i u b (l, f, m, o))
      | inr n ↦
          rw (e, n)
            (Ensures-bind _ _ (assign u.geocoded i _) _
              (assign-Ensures (Fits columns) u.geocoded i _ (omega (arith, l, b)) f
                ((==_iff (length values) columns).0 e))
              λ g p. (p.0 ∙ l, p.1, m, o))
    ]
  ]

  unpack_value-Wf :
      (i : ℕ) (value : Option Bytes) (u : Unpacked)
      → CodecSafe bincode
      → i < length addresses
      → HasBytes value
      → Wf u
      → Ensures Wf (unpack_value bincode addresses columns i value u)
  unfolding unpack_value
  unpack_value-Wf i none u c b h w = add_miss-Wf i u b w
  unpack_value-Wf i (some value) u c b h w =
      Ensures-bind _ _ (read_value bincode value) _ (read_value-safe bincode value c h)
        λ hit _. record_hit-Wf i hit u b w

  pub unpack_results-Wf :
      (i : ℕ) (values : List (Option Bytes)) (u : Unpacked)
      → CodecSafe bincode
      → i + length values ≡ length addresses
      → All HasBytes values
      → Wf u
      → Ensures Wf (unpack_results bincode addresses columns i values u)
  unfolding unpack_results
  unpack_results-Wf i [] u c l h w = w
  unpack_results-Wf i (value ∷ values) u c l (h, hs) w =
      Ensures-bind _ _ (unpack_value bincode addresses columns i value u) _
        (unpack_value-Wf i value u c (omega (arith, l)) h w)
        λ u' w'. unpack_results-Wf (suc i) values u' c (omega (arith, l)) hs w'

module _ (bincode : Bincode) (columns n : ℕ) (ks : List Text) where
  abbrev pub Stored : List (Text × Bytes) × List (Option Geocoded) → Type 0
  Stored s =
      All (λ (e : Text × Bytes). NonEmpty e.1) s.0 × (length s.1 ≡ n) × All (Fits columns) s.1

  pub store_retries-Stored :
      (offsets : List ℕ) (retries : List (Option Geocoded)) (entries : List (Text × Bytes))
      (geocoded : List (Option Geocoded))
      → CodecSafe bincode
      → length ks ≡ n
      → All (λ i. i < n) offsets
      → All (Fits columns) retries
      → Stored (entries, geocoded)
      → Ensures Stored (store_retries bincode ks offsets retries entries geocoded)
  unfolding store_retries
  store_retries-Stored [] retries entries geocoded c k o f s = s
  store_retries-Stored (i ∷ offsets) [] entries geocoded c k o f s = s
  store_retries-Stored (i ∷ offsets) (retry ∷ retries) entries geocoded c k (b, o) (f, fs)
        (ne, l, g) =
      Ensures-bind _ _ (write_value bincode retry) _ (write_value-NonEmpty bincode retry c)
        λ value v.
          let (key', e) = get_elem?-lt ks i (omega (arith, k, b)) in
          rw e (
            Ensures-bind _ _ (assign geocoded i retry) _
              (assign-Ensures (Fits columns) geocoded i retry (omega (arith, l, b)) g f)
              λ geocoded' p.
                store_retries-Stored offsets retries (entries ++ ((key', value) ∷ [])) geocoded' c k
                  o fs (All-append _ entries ((key', value) ∷ []) ne (v, tt), p.0 ∙ l, p.1))

pub push_keys-Fits :
    (columns : ℕ) (results : List (Option Geocoded)) (ks : List Text)
    → length results ≡ length ks
    → All (Fits columns) results
    → (length (push_keys results ks) ≡ length results)
      × All (Fits (columns + 1)) (push_keys results ks)
unfolding push_keys push_key
push_keys-Fits columns [] ks l f = (refl, tt)
push_keys-Fits columns (r ∷ results) [] l f = absurd (omega arith)
push_keys-Fits columns (none ∷ results) (k ∷ ks) l (f, fs) =
    let (m, gs) = push_keys-Fits columns results ks (omega (arith, l)) fs in (ap suc m, (tt, gs))
push_keys-Fits columns (some r ∷ results) (k ∷ ks) l (f, fs) =
    let (m, gs) = push_keys-Fits columns results ks (omega (arith, l)) fs in
    (ap suc m, (omega (arith, length-append r.column_values (k ∷ []), f), gs))
