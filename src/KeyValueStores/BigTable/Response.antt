-- ===== src/KeyValueStores/BigTable/Response.antt =====
-- src/key_value_stores/bigtable.rs: the results stand at every index of their keys, also of a key
-- that is asked for more than once.
use geocode_csv.Base.{
  ℕ, suc, ◌≡◌, refl, sym, ap, ◌∙◌, true, false, Bool, Option, none, some, List, [], ◌∷◌, ◌++◌,
  append_assoc, append-nil, length, replicate, set-append_length, map, ltb, lt→ltb, length-append,
  if◌then◌else◌, arith, All, Bool-cases, inl, inr,
}
use geocode_csv.Base.Text.{text_eq, text_eq_iff}
use geocode_csv.Base.Dict.{Dict, lookup, insert, lookup-insert, contains}
use geocode_csv.Base.Outcome.{ok}
use geocode_csv.KeyValueStores.{Bytes}
use geocode_csv.KeyValueStores.BigTable.{
  RowCell, family_name, column_name, or_default, index_row_keys, write_indices, read_cells,
  read_response, unpack_response,
}

-- The indices, from `i`, at which a key is asked for.
abbrev positions : ℕ → Bytes → List Bytes → List ℕ
positions i k [] = []
positions i k (j ∷ js) = if text_eq j k then i ∷ positions (suc i) k js else positions (suc i) k js

-- The last value in a row, and in all rows of a key.
abbrev pub last_value : List RowCell → Option Bytes → Option Bytes
last_value [] old = old
last_value (c ∷ cs) old = last_value cs (some c.value)

abbrev pub latest : List (Bytes × List RowCell) → Option Bytes → Bytes → Option Bytes
latest [] old k = old
latest ((row_key, data') ∷ response) old k =
    latest response (if text_eq k row_key then last_value data' old else old) k

abbrev pub IsCell : RowCell → Type 0
IsCell c = (c.family ≡ family_name) × (c.qualifier ≡ column_name)

-- The rows are among those that were asked for, and hold cells of the column that was asked for.
abbrev pub IsAnswer : List Bytes → List (Bytes × List RowCell) → Type 0
IsAnswer ks = All (λ (row : Bytes × List RowCell). (contains ks row.0 ≡ true) × All IsCell row.1)

index_row_keys-default :
    (i : ℕ) (ks : List Bytes) (m : Dict (List ℕ)) (k : Bytes)
    → or_default (lookup k (index_row_keys i ks m)) ≡ or_default (lookup k m) ++ positions i k ks
unfolding index_row_keys
index_row_keys-default i [] m k = sym (append-nil (or_default (lookup k m)))
index_row_keys-default i (j ∷ js) m k =
    let here = or_default (lookup j m) ++ (i ∷ []) in
    elim (Bool-cases (text_eq j k)) [
      | inl same ↦
          let eq : j ≡ k = (text_eq_iff j k).0 same in
          rw
            (
              index_row_keys-default (suc i) js (insert j here m) k,
              lookup-insert m j k here,
              same,
              eq,
              append_assoc,
            )
            refl
      | inr other ↦
          rw
            (index_row_keys-default (suc i) js (insert j here m) k, lookup-insert m j k here, other)
            refl
    ]

-- A key of the map keeps an entry, and each key that is asked for gets one.
abbrev HasEntry : Bytes → Dict (List ℕ) → Type 0
HasEntry k m = (is : List ℕ) × (lookup k m ≡ some is)

HasEntry-insert :
    (k j : Bytes) (is : List ℕ) (m : Dict (List ℕ)) → HasEntry k m → HasEntry k (insert j is m)
HasEntry-insert k j is m (old, e) = elim (Bool-cases (text_eq j k)) [
  | inl same ↦ (is, rw (lookup-insert m j k is, same) refl)
  | inr other ↦ (old, rw (lookup-insert m j k is, other) e)
]

HasEntry-insert_self :
    (k j : Bytes) (is : List ℕ) (m : Dict (List ℕ))
    → text_eq j k ≡ true
    → HasEntry k (insert j is m)
HasEntry-insert_self k j is m same = (is, rw (lookup-insert m j k is, same) refl)

index_row_keys-HasEntry_old :
    (i : ℕ) (ks : List Bytes) (m : Dict (List ℕ)) (k : Bytes)
    → HasEntry k m
    → HasEntry k (index_row_keys i ks m)
unfolding index_row_keys
index_row_keys-HasEntry_old i [] m k h = h
index_row_keys-HasEntry_old i (j ∷ js) m k h =
    index_row_keys-HasEntry_old (suc i) js _ k (HasEntry-insert k j _ m h)

index_row_keys-HasEntry :
    (i : ℕ) (ks : List Bytes) (m : Dict (List ℕ)) (k : Bytes)
    → contains ks k ≡ true
    → HasEntry k (index_row_keys i ks m)
unfolding index_row_keys
index_row_keys-HasEntry i [] m k h = absurd (cc)
index_row_keys-HasEntry i (j ∷ js) m k h = elim (Bool-cases (text_eq j k)) [
  | inl same ↦ index_row_keys-HasEntry_old (suc i) js _ k (HasEntry-insert_self k j _ m same)
  | inr other ↦ index_row_keys-HasEntry (suc i) js _ k (rw other at h)
]

index_row_keys-positions :
    (ks : List Bytes) (k : Bytes)
    → contains ks k ≡ true
    → lookup k (index_row_keys 0 ks []) ≡ some (positions 0 k ks)
index_row_keys-positions ks k h =
    let (is, e) = index_row_keys-HasEntry 0 ks [] k h in
    let same : or_default (lookup k (index_row_keys 0 ks [])) ≡ is = ap or_default e in
    e ∙ ap (λ l. some l) (sym same ∙ index_row_keys-default 0 ks [] k)

map-ext : {A B : Type 0} (f g : A → B) (xs : List A) → ((x : A) → f x ≡ g x) → map f xs ≡ map g xs
map-ext f g [] h = refl
map-ext f g (x ∷ xs) h = cc (h x, map-ext f g xs h)

-- A value for one key.
abbrev at_key : Bytes → Option Bytes → (Bytes → Option Bytes) → Bytes → Option Bytes
at_key k v f j = if text_eq j k then v else f j

write_next :
    (idx : ℕ) (indices : List ℕ) (v : Bytes) (done rest : List (Option Bytes)) (o : Option Bytes)
    → length done ≡ idx
    → write_indices (idx ∷ indices) v (done ++ (o ∷ rest))
      ≡ write_indices indices v ((done ++ (some v ∷ [])) ++ rest)
unfolding write_indices
write_next idx indices v done rest o l =
    let small : ltb idx (length (done ++ (o ∷ rest))) ≡ true =
      lt→ltb idx _ (omega (arith, length-append done (o ∷ rest), l)) in
    rw (small, append_assoc, ← l, set-append_length) refl

write_indices-map :
    (k v : Bytes) (f : Bytes → Option Bytes) (ks : List Bytes) (done : List (Option Bytes)) (i : ℕ)
    → length done ≡ i
    → write_indices (positions i k ks) v (done ++ map f ks)
      ≡ ok (done ++ map (at_key k (some v) f) ks)
write_indices-map k v f [] done i l = unfold write_indices in refl
write_indices-map k v f (j ∷ js) done i l = elim (Bool-cases (text_eq j k)) [
  | inl same ↦ rw same (
      write_next i (positions (suc i) k js) v done (map f js) (f j) l
      ∙ write_indices-map k v f js (done ++ (some v ∷ [])) (suc i)
          (omega (arith, l, length-append done (some v ∷ [])))
      ∙ ap (λ l. ok l) (append_assoc done (some v ∷ []) (map (at_key k (some v) f) js)))
  | inr other ↦ rw other (
      ap (write_indices (positions (suc i) k js) v) (sym (append_assoc done (f j ∷ []) (map f js)))
      ∙ write_indices-map k v f js (done ++ (f j ∷ [])) (suc i)
          (omega (arith, l, length-append done (f j ∷ [])))
      ∙ ap (λ l. ok l) (append_assoc done (f j ∷ []) (map (at_key k (some v) f) js)))
]

-- The cells of a row whose key is asked for.
module _ (m : Dict (List ℕ)) (k : Bytes) (ks : List Bytes)
    (found : lookup k m ≡ some (positions 0 k ks)) where
  read_cells-map :
      (cells : List RowCell) (f : Bytes → Option Bytes)
      → All IsCell cells
      → read_cells m k cells (map f ks)
        ≡ ok (map (λ j. if text_eq j k then last_value cells (f j) else f j) ks)
  unfolding read_cells
  read_cells-map [] f h = ap (λ l. ok l) (map-ext f _ ks (λ j. same (text_eq j k) (f j)))
    where
      same : (b : Bool) (o : Option Bytes) → o ≡ (if b then o else o)
      same true o = refl
      same false o = refl
  read_cells-map (c ∷ cells) f ((fam, qual), h) =
      rw
        (
          fam,
          qual,
          found,
          write_indices-map k c.value f ks [] 0 refl,
          read_cells-map cells (at_key k (some c.value) f) h,
        )
        (ap (λ l. ok l) (map-ext _ _ ks (λ j. same (text_eq j k) (f j))))
    where
      same :
          (b : Bool) (o : Option Bytes)
          → (if b
              then last_value cells (if b then some c.value else o)
              else if b
              then some c.value
              else o)
            ≡ (if b then last_value cells (some c.value) else o)
      same true o = refl
      same false o = refl

read_response-map :
    (ks : List Bytes) (response : List (Bytes × List RowCell)) (f : Bytes → Option Bytes)
    → IsAnswer ks response
    → read_response (index_row_keys 0 ks []) response (map f ks)
      ≡ ok (map (λ k. latest response (f k) k) ks)
unfolding read_response
read_response-map ks [] f h = refl
read_response-map ks ((k, cells) ∷ response) f ((known, good), h) =
    rw
      (
        read_cells-map (index_row_keys 0 ks []) k ks (index_row_keys-positions ks k known) cells f
            good,
        read_response-map ks response _ h,
      )
      refl

map-none :
    (ks : List Bytes) → replicate {A = Option Bytes} (length ks) none ≡ map (λ (k : Bytes). none) ks
map-none [] = refl
map-none (k ∷ ks) = ap (λ (l : List (Option Bytes)). none ∷ l) (map-none ks)

-- For rows that are among those asked for and hold cells of the column asked for, the results are, for
-- each key in the order in which the keys were added, the last value that the answer has for it, or
-- None. A key that was added more than once has its result at each of its indices.
pub unpack_response-latest :
    (ks : List Bytes) (response : List (Bytes × List RowCell))
    → IsAnswer ks response
    → unpack_response ks response ≡ ok (map (latest response none) ks)
unfolding unpack_response
unpack_response-latest ks response h = rw map-none (read_response-map ks response (λ k. none) h)
