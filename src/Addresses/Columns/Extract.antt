-- ===== src/Addresses/Columns/Extract.antt =====
-- src/addresses.rs: when extraction succeeds, and what the joined columns hold.
use geocode_csv.Base.{
  ℕ, ◌<◌, ◌≡◌, refl, sym, ◌∙◌, true, Option, none, some, List, [], ◌∷◌, ◌++◌, length, get_elem?,
  get_elem?-lt, All, append_assoc, append-nil, arith, Bool-cases, inl, inr, ap,
}
use geocode_csv.Base.Text.{Text, ends_with, text_eq, text_eq_iff}
use geocode_csv.Base.Outcome.{ok, expect, both_ok}
use geocode_csv.Addresses.Address.{Address}
use geocode_csv.Addresses.Columns.{
  StringRecord, column, ColumnKeyOrKeys, key, keys, append_column, extract_keys,
  extract_from_record, AddressColumnKeys, extract_optional, extract_address_from_record,
}

-- Every column of the spec is a column of a row of `n` columns.
abbrev pub KeyBelow : ℕ → ColumnKeyOrKeys ℕ → Type 0
KeyBelow n (key k) = k < n
KeyBelow n (keys ks) = All (λ k. k < n) ks

abbrev pub OptionBelow : ℕ → Option ℕ → Type 0
OptionBelow n none = Unit
OptionBelow n (some k) = k < n

abbrev pub ColumnsBelow : ℕ → AddressColumnKeys ℕ → Type 0
ColumnsBelow n c =
    KeyBelow n c.street × OptionBelow n c.city × OptionBelow n c.state × OptionBelow n c.zipcode

extract_keys-total :
    (ks : List ℕ) (row : StringRecord) (extracted : Text)
    → All (λ k. k < length row) ks
    → (s : Text) × (extract_keys ks row extracted ≡ ok s)
unfolding extract_keys
extract_keys-total [] row extracted h = (extracted, refl)
extract_keys-total (k ∷ ks) row extracted (h, hs) =
    let (s, e) = get_elem?-lt row k h in
    rw e (extract_keys-total ks row (append_column extracted s) hs)

extract_from_record-total :
    (c : ColumnKeyOrKeys ℕ) (row : StringRecord)
    → KeyBelow (length row) c
    → (s : Text) × (extract_from_record c row ≡ ok s)
unfolding extract_from_record
extract_from_record-total (key k) row h = let (s, e) = get_elem?-lt row k h in rw e (s, refl)
extract_from_record-total (keys ks) row h = extract_keys-total ks row [] h

extract_optional-total :
    (c : Option ℕ) (row : StringRecord)
    → OptionBelow (length row) c
    → (s : Option Text) × (extract_optional c row ≡ ok s)
unfolding extract_optional
extract_optional-total none row h = (none, refl)
extract_optional-total (some k) row h = let (s, e) = get_elem?-lt row k h in rw e (some s, refl)

-- Extraction succeeds if every column of the spec is a column of the row.
pub extract_address-total :
    (c : AddressColumnKeys ℕ) (row : StringRecord)
    → ColumnsBelow (length row) c
    → (a : Address) × (extract_address_from_record c row ≡ ok a)
unfolding extract_address_from_record
extract_address-total c row (street, city, state, zipcode) =
    let (s, e) = extract_from_record-total c.street row street in
    let (s', e') = extract_optional-total c.city row city in
    let (s'', e'') = extract_optional-total c.state row state in
    let (s''', e''') = extract_optional-total c.zipcode row zipcode in
    rw (e, e', e'', e''') (_, refl)

ends_with-suffix : (s t : Text) → ends_with s t ≡ true → (pre : Text) × (s ≡ pre ++ t)
ends_with-suffix [] [] h = ([], refl)
ends_with-suffix [] (d ∷ t) h = absurd (cc h)
ends_with-suffix (c ∷ s) t h = elim (Bool-cases (text_eq (c ∷ s) t)) [
  | inl same ↦ ([], (text_eq_iff (c ∷ s) t).0 same)
  | inr other ↦ let (pre, e) = ends_with-suffix s t (ground arith) in (c ∷ pre, ap (λ l. c ∷ l) e)
]

-- A round keeps what was extracted before, and ends with the column's value.
append_column-keeps : (e t : Text) → (post : Text) × (append_column e t ≡ e ++ post)
unfolding append_column
append_column-keeps [] t = (t, refl)
append_column-keeps (c ∷ e) t = elim (Bool-cases (ends_with (c ∷ e) t)) [
  | inl ends ↦ rw ends ([], sym (append-nil _))
  | inr other ↦ rw other (b' ' ∷ t, refl)
]

append_column-ends : (e t : Text) → (pre : Text) × (append_column e t ≡ pre ++ t)
unfolding append_column
append_column-ends [] t = ([], refl)
append_column-ends (c ∷ e) t = elim (Bool-cases (ends_with (c ∷ e) t)) [
  | inl ends ↦ rw ends (ends_with-suffix (c ∷ e) t ends)
  | inr other ↦ rw other ((c ∷ e) ++ (b' ' ∷ []), sym (append_assoc (c ∷ e) (b' ' ∷ []) t))
]

-- `s` holds the value of column `k`.
abbrev pub HoldsColumn : StringRecord → Text → ℕ → Type 0
HoldsColumn row s k =
    (t : Text) × (get_elem? row k ≡ some t)
    × (pre : Text) × (post : Text) × (s ≡ (pre ++ t) ++ post)

expect-eq-ok : (o : Option Text) {t : Text} → expect o ≡ ok t → o ≡ some t
expect-eq-ok none h = absurd (cc h)
expect-eq-ok (some t) h = cc

extract_keys-keeps :
    (ks : List ℕ) (row : StringRecord) (extracted : Text) {s : Text}
    → extract_keys ks row extracted ≡ ok s
    → ((post : Text) × (s ≡ extracted ++ post)) × All (HoldsColumn row s) ks
unfolding extract_keys
extract_keys-keeps [] row extracted h = (([], rw append-nil (cc)), tt)
extract_keys-keeps (k ∷ ks) row extracted h =
    let (t, found, rest) = both_ok _ (column row k) h in
    let ih = extract_keys-keeps ks row (append_column extracted t) rest in
    let (post, e) = ih.0 in
    let (kept, p) = append_column-keeps extracted t in
    let (pre, q) = append_column-ends extracted t in
    (
      (kept ++ post, e ∙ ap (λ l. l ++ post) p ∙ append_assoc extracted kept post),
      ((t, expect-eq-ok (get_elem? row k) found, pre, post, e ∙ ap (λ l. l ++ post) q), ih.1),
    )

-- Joining several columns loses none of them: the value of each column of the list stands in what
-- is extracted, though a value that is already at the end is not repeated.
pub extract_from_record-keeps :
    (ks : List ℕ) (row : StringRecord) {s : Text}
    → extract_from_record (keys ks) row ≡ ok s
    → All (HoldsColumn row s) ks
unfolding extract_from_record
extract_from_record-keeps ks row h = (extract_keys-keeps ks row [] h).1
