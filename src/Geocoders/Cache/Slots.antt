-- ===== src/Geocoders/Cache/Slots.antt =====
-- src/geocoders/cache/mod.rs: the loop over what the store holds, as a list of slots: a hit with its
-- result, or a miss.
pub mod Stores
pub mod Misses
pub mod Repeats
use geocode_csv.Base.{
  ℕ, suc, ◌+◌, ◌≡◌, refl, sym, ap, ◌∙◌, true, false, not, Option, none, some, List, [], ◌∷◌, ◌++◌,
  append_assoc, append-nil, map, length, length-append, replicate, set, set-append_length, ltb,
  lt→ltb, ◌==◌, ==_iff, if◌then◌else◌, Bool-cases, inl, inr, get_elem?, arith,
}
use geocode_csv.Base.Text.{Text}
use geocode_csv.Base.Outcome
use geocode_csv.Base.Outcome.{Outcome, ok, err, panicked, expect, both_ok}
use geocode_csv.KeyValueStores.{Bytes}
use geocode_csv.Addresses.Address.{Address}
use geocode_csv.Geocoders.{Geocoded, contains_null_bytes}
use geocode_csv.Geocoders.Cache.{
  Bincode, Unpacked, assign, values_of, read_value, add_miss, record_found, record_hit,
  unpack_value, unpack_results,
}
use geocode_csv.Geocoders.Cache.Hits.{IsClean}

abbrev pub Slot : Type 0
Slot = Option (Option Geocoded)

abbrev pub from_slot : Slot → Option Geocoded
from_slot none = none
from_slot (some result) = result

-- The indices of the misses, from index `i`.
abbrev pub holes : ℕ → List Slot → List ℕ
holes i [] = []
holes i (none ∷ slots) = i ∷ holes (suc i) slots
holes i (some result ∷ slots) = holes (suc i) slots

module _ (bincode : Bincode) (columns : ℕ) where
  abbrev pub MatchesOne : Option Bytes → Slot → Type 0
  MatchesOne found none = Unit
  MatchesOne found (some result) =
      (v : Bytes) × (found ≡ some v)
      × (read_value bincode v ≡ ok (values_of result))
      × IsClean columns result

  abbrev pub Matches : List (Option Bytes) → List Slot → Type 0
  Matches [] [] = Unit
  Matches [] (slot ∷ slots) = ⊥
  Matches (c ∷ found) [] = ⊥
  Matches (c ∷ found) (slot ∷ slots) = MatchesOne c slot × Matches found slots

  module _ (addresses : List Address) (done rest : List (Option Geocoded)) (i : ℕ) where
    -- After one value.
    abbrev Takes : Option Bytes → Unpacked → Unpacked → Type 0
    Takes found u u' =
        (slot : Slot) × MatchesOne found slot
        × (u'.geocoded ≡ done ++ (from_slot slot ∷ rest))
        × (u'.cache_miss_offsets ≡ u.cache_miss_offsets ++ holes i (slot ∷ []))
        × (length u'.cache_misses ≡ length u.cache_misses + length (holes i (slot ∷ [])))

    add_miss-Takes :
        (found : Option Bytes) (u u' : Unpacked)
        → u.geocoded ≡ done ++ (none ∷ rest)
        → add_miss bincode addresses columns i u ≡ ok u'
        → Takes found u u'
    unfolding add_miss
    add_miss-Takes found u u' g h =
        let (a, e, k) = both_ok _ (expect (get_elem? addresses i)) h in
        let same : record u {
          cache_misses = u.cache_misses ++ (a ∷ []);
          cache_miss_offsets = u.cache_miss_offsets ++ (i ∷ []);
        }
            ≡ u' =
          cc in
        rw (← same) (none, tt, g, refl, length-append u.cache_misses (a ∷ []))

    record_found-Takes :
        (v : Bytes) (values : List Text) (u u' : Unpacked)
        → length done ≡ i
        → read_value bincode v ≡ ok (some values)
        → length values ≡ columns
        → contains_null_bytes (record { column_values = values }) ≡ false
        → u.geocoded ≡ done ++ (none ∷ rest)
        → record_found bincode addresses columns i (record { column_values = values }) u ≡ ok u'
        → Takes (some v) u u'
    unfolding record_found assign
    record_found-Takes v values u u' l read wide fine g h =
        let candidate : Geocoded = record { column_values = values } in
        let small : ltb i (length (done ++ (none ∷ rest))) ≡ true =
          lt→ltb i _ (omega (arith, l, length-append done (none ∷ rest))) in
        let put : set (done ++ (none ∷ rest)) i (some candidate) ≡ done ++ (some candidate ∷ rest) =
          rw (← l) (set-append_length done rest none (some candidate)) in
        let placed : record u { geocoded = done ++ (some candidate ∷ rest) } ≡ u' =
          let h' = rw (g, small, put) at h in cc in
        rw (← placed) (
          some (some candidate),
          (v, refl, read, (wide, fine)),
          refl,
          sym (append-nil _),
          omega arith,
        )

    record_hit-Takes :
        (v : Bytes) (values : Option (List Text)) (u u' : Unpacked)
        → length done ≡ i
        → read_value bincode v ≡ ok values
        → u.geocoded ≡ done ++ (none ∷ rest)
        → record_hit bincode addresses columns i values u ≡ ok u'
        → Takes (some v) u u'
    unfolding record_hit
    record_hit-Takes v none u u' l read g h =
        let same : u ≡ u' = cc in
        rw (← same) (some none, (v, refl, read, tt), g, sym (append-nil _), omega arith)
    record_hit-Takes v (some values) u u' l read g h =
        elim (Bool-cases (length values == columns)) [
          | inr other ↦ absurd (let h' = rw other at h in cc)
          | inl wide ↦ elim (Bool-cases (contains_null_bytes (record { column_values = values }))) [
            | inl null' ↦ add_miss-Takes (some v) u u' g (rw (wide, null') at h)
            | inr fine ↦
                record_found-Takes v values u u' l read ((==_iff (length values) columns).0 wide)
                  fine g (rw (wide, fine) at h)
          ]
        ]

    unpack_value-Takes :
        (found : Option Bytes) (u u' : Unpacked)
        → length done ≡ i
        → u.geocoded ≡ done ++ (none ∷ rest)
        → unpack_value bincode addresses columns i found u ≡ ok u'
        → Takes found u u'
    unfolding unpack_value
    unpack_value-Takes none u u' l g h = add_miss-Takes none u u' g h
    unpack_value-Takes (some v) u u' l g h =
        let (values, read, k) = both_ok _ (read_value bincode v) h in
        record_hit-Takes v values u u' l read g k

  holes-cons :
      (i : ℕ) (slot : Slot) (slots : List Slot)
      → holes i (slot ∷ slots) ≡ holes i (slot ∷ []) ++ holes (suc i) slots
  holes-cons i none slots = refl
  holes-cons i (some result) slots = refl

  -- The whole loop: a slot for each value, and the misses among them.
  pub unpack_results-Matches :
      (addresses : List Address) (found : List (Option Bytes)) (done : List (Option Geocoded))
      (i : ℕ) (u u' : Unpacked)
      → length done ≡ i
      → u.geocoded ≡ done ++ replicate (length found) none
      → unpack_results bincode addresses columns i found u ≡ ok u'
      → (slots : List Slot) × Matches found slots
        × (u'.geocoded ≡ done ++ map from_slot slots)
        × (u'.cache_miss_offsets ≡ u.cache_miss_offsets ++ holes i slots)
        × (length u'.cache_misses ≡ length u.cache_misses + length (holes i slots))
  unfolding unpack_results
  unpack_results-Matches addresses [] done i u u' l g h =
      let same : u ≡ u' = cc in rw (← same) ([], tt, g, sym (append-nil _), omega arith)
  unpack_results-Matches addresses (c ∷ found) done i u u' l g h =
      let (u1, e, k) = both_ok _ (unpack_value bincode addresses columns i c u) h in
      let (slot, one, g1, o1, m1) =
        unpack_value-Takes addresses done (replicate (length found) none) i c u u1 l g e in
      let (slots, more, g2, o2, m2) =
        unpack_results-Matches addresses found (done ++ (from_slot slot ∷ [])) (suc i) u1 u'
          (omega (arith, l, length-append done (from_slot slot ∷ [])))
          (g1 ∙ sym (append_assoc done (from_slot slot ∷ []) (replicate (length found) none))) k in
      (
        slot ∷ slots,
        (one, more),
        g2 ∙ append_assoc done (from_slot slot ∷ []) (map from_slot slots),
        o2
            ∙ ap (λ l'. l' ++ holes (suc i) slots) o1
            ∙ append_assoc u.cache_miss_offsets (holes i (slot ∷ [])) (holes (suc i) slots)
            ∙ ap (λ l'. u.cache_miss_offsets ++ l') (sym (holes-cons i slot slots)),
        omega (
          arith,
          m1,
          m2,
          length-append (holes i (slot ∷ [])) (holes (suc i) slots),
          ap length (holes-cons i slot slots),
        ),
      )
